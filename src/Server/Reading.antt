-- ===== src/Server/Reading.antt =====
-- The handlers that store nothing, read with its websockets and clock, change the streams only, and
-- those only by `New` and `Refresh`.
use katamari.Base.{ℕ, [], ◌≡◌, refl, List, Result, ok, err, Bool-cases, Result-cases, inl, inr}
use katamari.Base.Int.{ℤ}
use katamari.Base.Text.{Bytes, bytes_eq}
use katamari.Key.{is_valid}
use katamari.Objects.{Codec, empty_object}
use katamari.Storage.{Database}
use katamari.Filters.{check_static}
use katamari.Stream.Pools.{Cache, Frame, Stream}
use katamari.Stream.{new, new_client, refresh}
use katamari.Server.{Request, Server, fetch, get_filtered_data}
use katamari.Server.Rest.{
  read, ws, ws_entry, ws_client, ws_allowed, clock, clock_client, read_entry, read_socket,
}

module _ {κ} {D W : Type 0} (Keeps : Stream → Type κ) (app : Server D W) where
  -- The server `after` differs from `app` in its streams at most, of which `Keeps` holds.
  abbrev pub Streams : Server D W → Type κ
  Streams after = (sm : Stream) × (after ≡ record app { stream = sm }) × Keeps sm

module _ {κ} {D W : Type 0} (database : Database D) (codec : Codec) (Keeps : Stream → Type κ)
    (app : Server D W) (news : (key : Bytes) (sm : Stream) → Keeps sm → Keeps (new key sm).1)
    (refreshes : (now : ℤ) (key : Bytes) (sm : Stream)
      → Keeps sm
      → Keeps (refresh now key (get_filtered_data database app) sm).1) where
  new_client-Keeps :
      (on_subscribe : Bytes → Result (Unit {0})) (upgraded : Result (Unit {0})) (key : Bytes)
      (sm : Stream)
      → Keeps sm
      → Keeps (new_client on_subscribe upgraded key sm).1
  unfolding new_client
  new_client-Keeps on_subscribe upgraded key sm k = elim (Result-cases (on_subscribe key)) [
    | inl (e, refused) ↦ simp (new_client, refused) k
    | inr (u, accepted) ↦ elim (Result-cases upgraded) [
      | inl (e, failed) ↦ simp (new_client, accepted, failed) k
      | inr (v, done) ↦ simp (new_client, accepted, done) (news key sm k)
    ]
  ]

  fetch-Streams :
      (now : ℤ) (key : Bytes) (sm : Stream)
      → Keeps sm
      → Streams Keeps app (fetch database now key (record app { stream = sm })).1
  unfolding fetch get_filtered_data
  fetch-Streams now key sm k =
      elim (Result-cases (check_static app.filters.on_read key app.is_static)) [
        | inl (e, refused) ↦ simp (fetch, refused) (sm, refl, k)
        | inr (u, open_route) ↦ simp (fetch, open_route) (_, refl, refreshes now key sm k)
      ]

  ws_entry-Streams :
      (version : Bytes) (client : ℕ) (r : Result Cache × Server D W)
      → Streams Keeps app r.1
      → Streams Keeps app (ws_entry database codec version client r).1
  ws_entry-Streams version client (err e, after) s = s
  ws_entry-Streams version client (ok entry, after) s = s

  ws_client-Streams :
      (now : ℤ) (req : Request) (r : Result ℕ × Stream)
      → Keeps r.1
      → Streams Keeps app (ws_client database codec now req app r).1
  ws_client-Streams now req (err e, sm) k = (sm, refl, k)
  ws_client-Streams now req (ok client, sm) k =
      ws_entry-Streams req.version client _ (fetch-Streams now req.key sm k)

  ws_allowed-Streams :
      (now : ℤ) (req : Request) (allowed : Result (Unit {0}))
      → Keeps app.stream
      → Streams Keeps app (ws_allowed database codec now req app allowed).1
  ws_allowed-Streams now req (err e) k = (app.stream, refl, k)
  ws_allowed-Streams now req (ok u) k =
      ws_client-Streams now req _
        (new_client-Keeps app.on_subscribe req.upgraded req.key app.stream k)

  pub ws-Streams :
      (now : ℤ) (req : Request)
      → Keeps app.stream
      → Streams Keeps app (ws database codec now req app).1
  unfolding ws
  ws-Streams now req k = ws_allowed-Streams now req _ k

  read_socket-Streams :
      (r : Result (List Frame) × Server D W)
      → Streams Keeps app r.1
      → Streams Keeps app (read_socket database r).1
  read_socket-Streams (err e, after) s = s
  read_socket-Streams (ok sent, after) s = s

  read_entry-Streams :
      (r : Result Cache × Server D W)
      → Streams Keeps app r.1
      → Streams Keeps app (read_entry database r).1
  read_entry-Streams (err e, after) s = s
  read_entry-Streams (ok entry, after) s = elim (Bool-cases (bytes_eq entry.content empty_object)) [
    | inl empty ↦ simp empty s
    | inr full ↦ simp full s
  ]

  -- of a GET, with its websocket
  pub read-Streams :
      (now : ℤ) (req : Request)
      → Keeps app.stream
      → Streams Keeps app (read database codec now req app).1
  unfolding read
  read-Streams now req k = elim (Bool-cases (is_valid req.key)) [
    | inr bad ↦ simp (read, bad) (app.stream, refl, k)
    | inl good ↦ elim (Bool-cases (app.audit req)) [
      | inr denied ↦ simp (read, good, denied) (app.stream, refl, k)
      | inl approved ↦ elim (Bool-cases req.is_websocket) [
        | inl socket ↦
            simp (read, good, approved, socket) (read_socket-Streams _ (ws-Streams now req k))
        | inr plain ↦
            simp (read, good, approved, plain)
              (read_entry-Streams _ (fetch-Streams now req.key app.stream k))
      ]
    ]
  ]

  clock_client-Streams :
      (time : Bytes) (r : Result ℕ × Stream)
      → Keeps r.1
      → Streams Keeps app (clock_client database time app r).1
  clock_client-Streams time (err e, sm) k = (sm, refl, k)
  clock_client-Streams time (ok client, sm) k = (sm, refl, k)

  -- of `/` with a websocket
  pub clock-Streams :
      (time : Bytes) (req : Request)
      → Keeps app.stream
      → Streams Keeps app (clock database time req app).1
  unfolding clock
  clock-Streams time req k = elim (Bool-cases (app.audit req)) [
    | inr denied ↦ simp (clock, denied) (app.stream, refl, k)
    | inl approved ↦
        simp (clock, approved)
          (clock_client-Streams time _
            (new_client-Keeps app.on_subscribe req.upgraded [] app.stream k))
  ]
