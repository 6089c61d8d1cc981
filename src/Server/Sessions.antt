-- ===== src/Server/Sessions.antt =====
-- `ws` of ws.go to its end: the first message is written, and then `Read` runs until the socket fails.
use katamari.Base.{
  ℕ, ◌≡◌, ◌==◌, arith, refl, ap, ◌∙◌, inl, inr, Bool, true, false, not, List, [], ◌∷◌, any,
  Bool-cases, Result, ok, err, Outcome, returns, panics, blocks,
}
use katamari.Base.Int.{ℤ}
use katamari.Base.Text.{Bytes}
use katamari.Objects.{Codec}
use katamari.Storage.{Database}
use katamari.Stream.Pools.{Frame, Stream}
use katamari.Stream.{close}
use katamari.Stream.Sound.{IsSound, total}
use katamari.Stream.Extending.{new-Extends, refresh-Extends}
use katamari.Stream.Writing.{Wires, write_all, read, leave, shut, write_all-stream}
use katamari.Stream.Leaving.{close-total}
use katamari.Server.{Request, Server, get_filtered_data}
use katamari.Server.Rest.{ws, first_frames}
use katamari.Server.Reading.{Streams, ws-Streams}
use katamari.Server.Entering.{ws-Entered}

module _ {D W : Type 0} (database : Database D) where
  -- the server and the sockets once `Read` has returned
  abbrev pub with_wires :
      Server D W → Outcome Wires → Outcome (Result (Unit {0}) × Server D W × Wires)
  with_wires app (returns w) = returns (ok tt, record app { stream = w.stream }, w)
  with_wires app panics = panics
  with_wires app blocks = blocks

  abbrev pub session :
      (ℕ → Bool)
      → List Bool
      → Bytes
      → ℕ
      → Wires
      → Result (List Frame) × Server D W
      → Outcome (Result (Unit {0}) × Server D W × Wires)
  session accepts rounds key client w (err e, app) =
      returns (err e, app, record w { stream = app.stream })
  session accepts rounds key client w (ok first, app) =
      with_wires app
        (read key client rounds (write_all accepts first (record w { stream = app.stream })))

  -- `ws`: `accepts` and `rounds` are what the writes and NextReader meet, `w` the sockets before
  unfoldable pub ws_session :
      Codec
      → (ℕ → Bool)
      → List Bool
      → ℤ
      → Request
      → Server D W
      → Wires
      → Outcome (Result (Unit {0}) × Server D W × Wires)
  ws_session codec accepts rounds now req app w =
      session accepts rounds req.key app.stream.next w (ws database codec now req app)

-- `Read` returns where NextReader gives an error, or did so before.
read-ends :
    (key : Bytes) (client : ℕ) (rounds : List Bool) (w : Wires) (sm : Stream)
    → any not rounds ≡ true
    → close key client w.stream ≡ returns sm
    → read key client rounds w ≡ leave client w (returns sm)
unfolding read
read-ends key client [] w sm h closed = cc
read-ends key client (false ∷ rounds) w sm h closed = elim (Bool-cases (w.alive client)) [
  | inl up ↦ rw (read, up, closed) refl
  | inr down ↦ rw (read, down, closed) refl
]
read-ends key client (true ∷ rounds) w sm h closed = elim (Bool-cases (w.alive client)) [
  | inl up ↦ rw (read, up) (read-ends key client rounds w sm h closed)
  | inr down ↦ rw (read, down, closed) refl
]

shut_self : (client : ℕ) (alive : ℕ → Bool) → shut client alive client ≡ false
shut_self client alive = let self : (client == client) ≡ true = ground arith in rw self refl

-- the sockets that a session leaves
abbrev ended : (ℕ → Bool) → ℕ → List Frame → Stream → Wires → Wires
ended accepts client first sm w =
    let w1 = write_all accepts first w in record w1 { stream = sm; alive = shut client w1.alive }

session_ends :
    {D W : Type 0} (database : Database D) (accepts : ℕ → Bool) (rounds : List Bool) (key : Bytes)
    (client : ℕ) (w : Wires) (first : List Frame) (after : Server D W) (sm : Stream)
    → any not rounds ≡ true
    → close key client after.stream ≡ returns sm
    → session database accepts rounds key client w (ok first, after)
      ≡ returns (
        ok tt,
        record after { stream = sm },
        ended accepts client first sm (record w { stream = after.stream }),
      )
session_ends database accepts rounds key client w first after sm ends closed =
    let w0 = record w { stream = after.stream } in
    ap (with_wires database after) (
      read-ends key client rounds (write_all accepts first w0) sm ends
        (rw (write_all-stream accepts client first w0) closed))

-- A request for a websocket that is accepted and upgraded, whatever version it names, whose data
-- pass the filters, on streams that are sound, whatever they hold. Its socket fails at some time,
-- whether the first message was sent and taken or not: `ws` returns with no error, and then the
-- connection stands in no pool, its socket is closed, the pools are sound, and the storage and all
-- else of the server are as they were.
pub ws_session-leaves :
    {D W : Type 0} (database : Database D) (codec : Codec) (accepts : ℕ → Bool) (rounds : List Bool)
    (now : ℤ) (req : Request) (app : Server D W) (served : Bytes) (w : Wires)
    → IsSound app.stream
    → app.on_subscribe req.key ≡ ok tt
    → req.upgraded ≡ ok tt
    → get_filtered_data database app req.key ≡ ok served
    → any not rounds ≡ true
    → (sm : Stream) × (w' : Wires) × (ws_session database codec accepts rounds now req app w
        ≡ returns (ok tt, record app { stream = sm }, w'))
      × (w'.alive app.stream.next ≡ false)
      × IsSound sm
      × (total app.stream.next sm.pools ≡ 0)
unfolding ws_session get_filtered_data
ws_session-leaves database codec accepts rounds now req app served w s subscribed upgraded there
      ends =
    let opened = ws-Entered database codec now req app served s subscribed upgraded there in
    let client = app.stream.next in
    let changed : Streams IsSound app (ws database codec now req app).1 =
      ws-Streams database codec IsSound app (λ key sm s. (new-Extends key sm s).sound)
        (λ now key sm s. (refresh-Extends now key _ sm s).sound) now req s in
    let left = rw opened.answer at changed in
    let sound : IsSound opened.after.stream = rw left.1 left.2 in
    let (sm, closed, sound', gone) =
      close-total req.key client opened.after.stream opened.pool sound opened.seen opened.once in
    let first = first_frames codec req.version client opened.entry in
    let w' = ended accepts client first sm (record w { stream = opened.after.stream }) in
    (
      sm,
      w',
      ap (session database accepts rounds req.key client w) opened.answer
          ∙ session_ends database accepts rounds req.key client w first opened.after sm ends closed
          ∙ ap (λ a. returns (ok tt, record a { stream = sm }, w')) left.1,
      shut_self client (write_all accepts first (record w { stream = opened.after.stream })).alive,
      sound',
      gone,
    )
