-- ===== src/Io/Remote.antt =====
-- io/remote.go: the same over HTTP. `Http` is the client of net/http on the state `N` of the network:
-- a request gives a response or an error, and the body of a response may fail to be read.
use katamari.Base.{ℕ, Bool, true, false, not, List, ◌++◌, if◌then◌else◌, Result, ok, err}
use katamari.Base.Int.{ℤ}
use katamari.Base.Text.{Bytes, codes}
use katamari.Key.{build}
use katamari.Objects.{Codec}
use katamari.Client.{Meta}
use katamari.Client.Subscribe.{is_list}
use katamari.Io.{Json, not_list, a_list, read_list, read_object}

pub record HttpResponse : Type 0 where
  pub status : ℕ
  pub body : Result Bytes

pub record Http (N : Type 0) : Type 0 where
  pub post : Bytes → Bytes → N → Result HttpResponse × N
  pub get : Bytes → N → Result HttpResponse × N

-- json.Marshal of a `PostBody`, by its data
abbrev pub PostBody : Type 0
PostBody = Bytes → Result Bytes

abbrev pub url : Bool → Bytes → Bytes → Bytes
url true host path = codes "https://" ++ (host ++ (codes "/" ++ path))
url false host path = codes "http://" ++ (host ++ (codes "/" ++ path))

module _ {T N : Type 0} (codec : Codec) (json : Json T) (post_body : PostBody) (http : Http N) where
  -- The response of a post is not looked at.
  abbrev pub sent : Result HttpResponse × N → Result (Unit {0}) × N
  sent (err e, net) = (err e, net)
  sent (ok resp, net) = (ok tt, net)

  abbrev pub post_text : Bytes → N → Result Bytes → Result (Unit {0}) × N
  post_text address net (err e) = (err e, net)
  post_text address net (ok body) = sent (http.post address body net)

  abbrev pub post_item : Bytes → N → Result Bytes → Result (Unit {0}) × N
  post_item address net (err e) = (err e, net)
  post_item address net (ok text) = post_text address net (post_body (codec.encode64 text))

  -- `RemoteSet` and `RemotePush`
  unfoldable pub remote_set : Bool → Bytes → Bytes → T → N → Result (Unit {0}) × N
  remote_set ssl host path item net =
      if is_list path
      then (err (a_list (codes "RemoteSet") path), net)
      else post_item (url ssl host path) net (json.marshal item)

  unfoldable pub remote_push : ℤ → Bool → Bytes → Bytes → T → N → Result (Unit {0}) × N
  remote_push built ssl host path item net =
      if not (is_list path)
      then (err (not_list (codes "RemotePush") path), net)
      else post_item (url ssl host (build built path)) net (json.marshal item)

  -- the body of a response, whatever its status
  abbrev pub body_of : Result HttpResponse × N → Result Bytes × N
  body_of (err e, net) = (err e, net)
  body_of (ok resp, net) = (resp.body, net)

  abbrev pub with_body {ℓ} :
      {A : Type ℓ} → (Result Bytes → Result A) → Result Bytes × N → Result A × N
  with_body f (body, net) = (f body, net)

  -- `RemoteGet` and `RemoteGetList`
  unfoldable pub remote_get : Bool → Bytes → Bytes → N → Result (Meta T) × N
  remote_get ssl host path net =
      if is_list path
      then (err (a_list (codes "GetFrom") path), net)
      else with_body (read_object codec json) (body_of (http.get (url ssl host path) net))

  unfoldable pub remote_get_list : Bool → Bytes → Bytes → N → Result (List (Meta T)) × N
  remote_get_list ssl host path net =
      if not (is_list path)
      then (err (not_list (codes "GetListFrom") path), net)
      else with_body (read_list codec json) (body_of (http.get (url ssl host path) net))
