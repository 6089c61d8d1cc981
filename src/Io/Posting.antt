-- ===== src/Io/Posting.antt =====
-- A typed value that io/remote.go posts to a server, and the same value that io/local.go stores.
use katamari.Base.{◌≡◌, refl, Bool, false, ok, returns}
use katamari.Base.Int.{ℤ}
use katamari.Base.Text.{Bytes}
use katamari.Key.{build}
use katamari.Objects.{Codec}
use katamari.Storage.{Database}
use katamari.Filters.{check_watchers}
use katamari.Messages.{Patcher}
use katamari.Server.{Request, Response, Server}
use katamari.Server.Rest.{publish, created_response}
use katamari.Server.Publishing.{Accepts}
use katamari.Client.Subscribe.{is_list}
use katamari.Io.{Json, set}
use katamari.Io.Remote.{Http, HttpResponse, PostBody, url, remote_set}

module _ {T N : Type 0} (codec : Codec) (json : Json T) (post_body : PostBody) (http : Http N) where
  -- `RemoteSet` returns no error as soon as the server answers, whatever the answer is: also where
  -- it refused the key, the request or the value, or failed to store it.
  remote_set_ignores_status :
      (ssl : Bool) (host path text body : Bytes) (item : T) (resp : HttpResponse) (net net' : N)
      → is_list path ≡ false
      → json.marshal item ≡ ok text
      → post_body (codec.encode64 text) ≡ ok body
      → http.post (url ssl host path) body net ≡ (ok resp, net')
      → remote_set codec json post_body http ssl host path item net ≡ (ok tt, net')
  unfolding remote_set
  remote_set_ignores_status ssl host path text body item resp net net' plain encoded wrapped
        answered =
      rw (remote_set, plain, encoded, wrapped, answered) refl

module _ {T D W : Type 0} (codec : Codec) (patcher : Patcher) (json : Json T) (post_body : PostBody)
    (database : Database D) (http : Http (Server D W)) where
  -- The network brings the request that a post makes to the handler `publish` of the server, and its
  -- response back.
  abbrev pub Routes : ℤ → ℤ → Bool → Bytes → Request → Server D W → Type 0
  Routes built now ssl host req app =
      (resp : Response) (app' : Server D W)
      → publish database codec patcher built now req app ≡ returns (resp, app')
      → http.post (url ssl host req.key) req.body app
        ≡ (ok (record { status = resp.status; body = ok resp.body }), app')

  -- the server once a write at the key left the storage `d`
  abbrev wrote_to : Bytes → D → Server D W → Server D W
  wrote_to key d app = record app {
    storage = d;
    world = check_watchers app.filters.after_write key app.world;
  }

  accepted_publish :
      (built now : ℤ) (req : Request) (app : Server D W) (content index : Bytes) (d : D)
      → Accepts codec patcher built req app content
      → build built req.key ≡ req.key
      → database.set now req.key content app.storage ≡ returns (ok index, d)
      → publish database codec patcher built now req app
        ≡ returns (created_response index, wrote_to req.key d app)
  unfolding publish
  accepted_publish built now req app content index d accepts same wrote =
      rw (accepts.publishable, accepts.approved, accepts.decoded, accepts.filtered, same, wrote)
        refl

  -- `RemoteSet` to a server leaves its storage as `Set` on the server at the same time leaves it, and
  -- returns no error either. The path has no `*` that makes it a list, the request that comes out of
  -- it is accepted with the data as they are, and the storage takes them.
  pub remote_set-set :
      (built now : ℤ) (ssl : Bool) (host text index : Bytes) (item : T) (req : Request)
      (app : Server D W) (d : D)
      → is_list req.key ≡ false
      → json.marshal item ≡ ok text
      → post_body (codec.encode64 text) ≡ ok req.body
      → Accepts codec patcher built req app (codec.encode64 text)
      → build built req.key ≡ req.key
      → database.set now req.key (codec.encode64 text) app.storage ≡ returns (ok index, d)
      → Routes built now ssl host req app
      → (app' : Server D W) × (remote_set codec json post_body http ssl host req.key item app
          ≡ (ok tt, app'))
        × (set codec json database now req.key item app.storage ≡ returns (ok tt, app'.storage))
  unfolding remote_set set
  remote_set-set built now ssl host text index item req app d plain encoded wrapped accepts same
        wrote routes =
      let app' = wrote_to req.key d app in
      let reached =
        routes (created_response index) app'
          (accepted_publish built now req app (codec.encode64 text) index d accepts same wrote) in
      (app', rw (plain, encoded, wrapped, reached) refl, rw (plain, encoded, wrote) refl)
