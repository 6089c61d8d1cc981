-- ===== src/Server/Sockets.antt =====
-- What a new websocket client gets first.
use katamari.Base.{
  ℕ, ◌≡◌, refl, ◌∙◌, some, true, [], ◌∷◌, if◌then◌else◌, ok, err, inl, inr, Bool-cases,
}
use katamari.Base.Int.{ℤ}
use katamari.Base.Text.{Bytes, bytes_eq, bytes_eq_refl}
use katamari.Key.Number.{format_int}
use katamari.Objects.{Codec}
use katamari.Storage.{Database}
use katamari.Filters.{check_static}
use katamari.Filters.Checks.{check-ok}
use katamari.Messages.{encode}
use katamari.Stream.Pools.{Cache}
use katamari.Stream.{new, new_client, or_empty, frame_text}
use katamari.Stream.Operations.{new_lem, joined}
use katamari.Stream.Look.{look}
use katamari.Stream.Refreshing.{refresh_lem}
use katamari.Server.{Request, Server, get_filtered_data, fetch}
use katamari.Server.Rest.{ws, first_frames}
use katamari.Server.Serving.{refresh-content}

pub first_frames-if :
    (codec : Codec) (version : Bytes) (client : ℕ) (entry : Cache)
    → first_frames codec version client entry ≡ (
        if bytes_eq version (format_int entry.version)
        then []
        else (client, frame_text (encode codec entry.content) true entry.version) ∷ [])
first_frames-if codec version client entry =
    elim (Bool-cases (bytes_eq version (format_int entry.version))) [
      | inl same ↦ rw same refl
      | inr new_version ↦ rw new_version refl
    ]

module _ {D W : Type 0} (database : Database D) (codec : Codec) where
  -- A websocket on a route that the read filters refuse is answered with their error, and nothing
  -- changes. Where the application accepts it, it is upgraded and the data pass the filters, the
  -- client gets the next number and, as its first frame, the current data as a snapshot with a
  -- version; no frame, if it asked with that version.
  pub ws_lem :
      (now : ℤ) (req : Request) (app : Server D W)
      → ((e : Bytes)
          → check_static app.filters.on_read req.key app.is_static ≡ err e
          → ws database codec now req app ≡ (err e, app))
        × ((served : Bytes)
            → app.on_subscribe req.key ≡ ok tt
            → req.upgraded ≡ ok tt
            → get_filtered_data database app req.key ≡ ok served
            → (version : ℤ) × ((ws database codec now req app).0
                ≡ ok (
                    if bytes_eq req.version (format_int version)
                    then []
                    else (app.stream.next, frame_text (encode codec (or_empty served)) true version)
                      ∷ [])))
  unfolding ws fetch get_filtered_data new_client
  ws_lem now req app = (
    λ e refused. rw (ws, refused) refl,
    λ served subscribed upgraded fresh.
        let joined = new req.key app.stream in
        let (version, refreshed) =
          refresh-content now req.key served (get_filtered_data database app) joined.1 fresh in
        (
          version,
          rw
              (
                ws,
                check-ok _ _ _ _ _ fresh,
                new_client,
                subscribed,
                upgraded,
                fetch,
                check-ok _ _ _ _ _ fresh,
                refreshed,
                (new_lem req.key app.stream).0,
                first_frames-if codec req.version app.stream.next
                    (record { version = version; content = or_empty served }),
              )
              refl,
        ),
  )

  -- Where the socket is opened and the data then turn out to be filtered, `ws` answers with the error
  -- of the filter, and the connection that it made stays in the pool of the key.
  pub ws_failure_lem :
      (now : ℤ) (req : Request) (app : Server D W) (e : Bytes)
      → check_static app.filters.on_read req.key app.is_static ≡ ok tt
      → app.on_subscribe req.key ≡ ok tt
      → req.upgraded ≡ ok tt
      → get_filtered_data database app req.key ≡ err e
      → (app' : Server D W) × (ws database codec now req app ≡ (err e, app'))
        × (look req.key app'.stream.pools
            ≡ some (joined req.key app.stream.next (look req.key app.stream.pools)))
  unfolding ws fetch get_filtered_data new_client
  ws_failure_lem now req app e allowed subscribed upgraded filtered =
      let (_, _, pools) = new_lem req.key app.stream in
      (
        record app { stream = (new req.key app.stream).1 },
        rw
            (
              ws,
              allowed,
              new_client,
              subscribed,
              upgraded,
              fetch,
              allowed,
              (refresh_lem now req.key (get_filtered_data database app)
                    (new req.key app.stream).1).0
                  e filtered,
            )
            refl,
        pools req.key ∙ rw (bytes_eq_refl req.key) refl,
      )
