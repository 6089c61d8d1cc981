-- ===== src/Server/Starting.antt =====
-- What a server with the storage of memory.go is like once it was started, closed and started again.
use katamari.Base.{
  subst, ◌⊎◌, Bool-cases, Result-cases, not, ◌&&◌, ◌≡◌, refl, sym, ◌∙◌, Bool, true, false, List, [],
  ◌∷◌, Option, none, some, arith, Result, ok, Outcome, returns, blocks, inl, inr,
}
use katamari.Base.Text.{Bytes}
use katamari.Objects.{Codec}
use katamari.Memory.Map.{Distinct}
use katamari.Memory.Sorting.{SortSlice}
use katamari.Memory.Refine.{IsStarted}
use katamari.Memory.{MemoryStorage}
use katamari.Memory
use katamari.Stream.Pools.{Pool, Stream, Frame}
use katamari.Stream.{init_clock, with_clock, broadcast_clock}
use katamari.Server.{Server, is_active, close}
use katamari.Server.InMemory.{memory_database}
use katamari.Server.Lifecycle.{
  Application, runs, fatal, start, defaults, tick_round, serve_returned, close_server,
  then_shutdown, wait_listen, wait_start,
}

-- The server answers requests, at the address given: its storage is started and active, and each
-- round of the clock sends a time to those in the first pool.
pub record IsServing {W : Type 0} (address : Bytes) (a : Application MemoryStorage W) : Type 0 where
  pub listens : a.address ≡ address
  pub active : is_active a.server ≡ true
  pub started : IsStarted a.server.storage
  pub stores : a.server.storage.active ≡ some true
  pub ticks :
      (time : Bytes) → (sent : List Frame) × (tick_round time a.server ≡ returns (some sent))

with_clock_ticks :
    (time : Bytes) (sm : Stream) (ps : List Pool)
    → (sent : List Frame) × (broadcast_clock time (record sm { pools = with_clock ps })
        ≡ returns sent)
unfolding broadcast_clock
with_clock_ticks time sm [] = (_, refl)
with_clock_ticks time sm (p ∷ ps) = (_, refl)

-- the server that `Start` leaves
abbrev pub configuration :
    {W : Type 0} → Bytes → Application MemoryStorage W → Application MemoryStorage W
configuration address a =
    defaults
      (record a { address = address; server = record a.server { active = false; closing = false } })

abbrev pub running :
    {W : Type 0} → Bytes → Application MemoryStorage W → Application MemoryStorage W
running at b = record b {
  address = at;
  server = record b.server {
    storage =
        Memory.start (record { no_broadcast_keys = b.settings.no_broadcast_keys }) b.server.storage;
    active = true;
  };
}

active_cases : (b c : Bool) → (b && not c) ≡ true → (b ≡ true) × (c ≡ false)
active_cases true false h = (refl, refl)
active_cases true true h = absurd (ground (arith, h))
active_cases false c h = absurd (ground (arith, h))

pub left_active :
    {W : Type 0} (app : Server MemoryStorage W) → is_active app ≡ true → app.active ≡ true
unfolding is_active
left_active app h = (active_cases app.active app.closing h).0

pub not_closing :
    {W : Type 0} (app : Server MemoryStorage W) → is_active app ≡ true → app.closing ≡ false
unfolding is_active
not_closing app h = (active_cases app.active app.closing h).1

-- The HTTP server shuts down, or there is none.
abbrev pub Ends : Option (Outcome (Unit {0})) → Type 0
Ends none = Unit
Ends (some o) = o ≡ returns tt

module _ {W : Type 0} (codec : Codec) (sorter : SortSlice) (listen : Bytes → Result Bytes) where
  -- A server that is not active starts, at the address that listening gave, and keeps all that its
  -- storage holds; it is then active, and its storage and its clock run.
  pub start-IsServing :
      (address at : Bytes) (a : Application MemoryStorage W)
      → a.server.active ≡ false
      → listen address ≡ ok at
      → Distinct a.server.storage.mem
      → (a' : Application MemoryStorage W) × (start (memory_database codec sorter) listen address a
          ≡ runs a')
        × IsServing at a'
        × (a'.server.storage.mem ≡ a.server.storage.mem)
  unfolding start wait_listen wait_start defaults Memory.start Memory.is_active is_active tick_round
      init_clock
  start-IsServing address at a idle listens distinct =
      let a' = running at (configuration address a) in
      (
        a',
        rw (idle, listens) refl,
        record {
          listens = refl;
          active = refl;
          started = record { distinct = distinct; started = λ e. cc; channel = λ e. refl };
          stores = refl;
          ticks = λ time.
              let (sent, told) = with_clock_ticks time a'.server.stream a.server.stream.pools in
              (sent, rw told refl);
        },
        refl,
      )

  closed_of : Server MemoryStorage W → Server MemoryStorage W
  closed_of app = record app {
    closing = true;
    active = false;
    storage = record app.storage { watcher = false; active = some false };
    world = app.on_close app.world;
  }

  close-closed_of :
      (before : Bytes) (a : Application MemoryStorage W)
      → IsServing before a
      → close (memory_database codec sorter) a.server ≡ returns (closed_of a.server)
  unfolding close Memory.close closed_of
  close-closed_of before a serving =
      let wired = serving.started.channel serving.stores in
      rw (not_closing a.server serving.active, serving.stores, wired) refl

  then_shutdown-Ends :
      (http : Option (Outcome (Unit {0}))) (app : Server MemoryStorage W)
      → Ends http
      → then_shutdown http app ≡ returns app
  then_shutdown-Ends none app h = refl
  then_shutdown-Ends (some o) app h = rw h refl

  -- `Close` of a server that answers requests waits for ever where the shutdown of its HTTP server
  -- does. Where this returns, so does `Close`: the server is not active, the loop of the clock ends,
  -- and the goroutine that serves ends in peace if its `Serve` returns now. If listening gives an
  -- address then, a `Start` runs again with all that the storage held; but if the `Serve` of the
  -- first run returns only behind it, the process ends with log.Fatal.
  pub close-start :
      (http : Option (Outcome (Unit {0}))) (address at before : Bytes)
      (a : Application MemoryStorage W)
      → IsServing before a
      → Ends http
      → listen address ≡ ok at
      → (close_server (memory_database codec sorter) (some blocks) a.server ≡ blocks)
        × (app : Server MemoryStorage W) × (a' : Application MemoryStorage W) × (close_server
              (memory_database codec sorter)
              http
              a.server
            ≡ returns app)
        × (is_active app ≡ false)
        × ((time : Bytes) → tick_round time app ≡ returns none)
        × ((e : Bytes)
            → serve_returned e (record a { server = app }) ≡ runs (record a { server = app }))
        × (start (memory_database codec sorter) listen address (record a { server = app })
            ≡ runs a')
        × IsServing at a'
        × (a'.server.storage.mem ≡ a.server.storage.mem)
        × ((e : Bytes) → serve_returned e a' ≡ fatal e)
  unfolding close_server serve_returned closed_of is_active tick_round
  close-start http address at before a serving ends listens =
      let app = closed_of a.server in
      let running_still = not_closing a.server serving.active in
      let closes = close-closed_of before a serving in
      let (a', started, serves, kept) =
        start-IsServing address at (record a { server = app }) refl listens
          serving.started.distinct in
      (
        rw (closes, running_still) refl,
        app,
        a',
        rw (closes, running_still) (then_shutdown-Ends http app ends),
        refl,
        λ time. refl,
        λ e. refl,
        started,
        serves,
        kept,
        λ e. rw (not_closing a'.server serves.active) refl,
      )

  -- A second `Start` reports that the server is active and leaves it so, where it is, but says that
  -- it is at the address of the second call.
  start_twice :
      (address at other : Bytes) (a : Application MemoryStorage W)
      → a.server.active ≡ false
      → listen address ≡ ok at
      → Distinct a.server.storage.mem
      → (a' : Application MemoryStorage W) × (start (memory_database codec sorter) listen address a
          ≡ runs a')
        × (a'.address ≡ at)
        × (start (memory_database codec sorter) listen other a'
            ≡ runs (record a' { address = other }))
  unfolding start
  start_twice address at other a idle listens distinct =
      let (a', started, serving, _) = start-IsServing address at a idle listens distinct in
      (a', started, serving.listens, rw (left_active a'.server serving.active) refl)

pub runs_inj : {A : Type 0} (a b : A) → runs a ≡ runs b → a ≡ b
runs_inj a b h = cc

pub fatal_runs : {A : Type 0} (e : Bytes) (b : A) → fatal e ≡ runs b → ⊥
fatal_runs e b h = cc

module _ {W : Type 0} (codec : Codec) (sorter : SortSlice) (listen : Bytes → Result Bytes) where
  -- Where `Start` leaves a running server, it was active before and only its address changed, or it
  -- was not and now answers requests with the storage that it had.
  pub start_cases :
      (address : Bytes) (a b : Application MemoryStorage W)
      → Distinct a.server.storage.mem
      → start (memory_database codec sorter) listen address a ≡ runs b
      → ((a.server.active ≡ true) × (b ≡ record a { address = address }))
        ⊎ ((at : Bytes) × IsServing at b)
  unfolding start wait_listen defaults
  start_cases address a b distinct ran = elim (Bool-cases a.server.active) [
    | inl on ↦ inl (on, runs_inj _ _ (sym ran ∙ rw on refl))
    | inr off ↦ elim (Result-cases (listen address)) [
      | inl (e, refused) ↦ absurd (fatal_runs _ b (rw (off, refused) at ran))
      | inr (at, listens) ↦
          let (a', started, serving, _) =
            start-IsServing codec sorter listen address at a off listens distinct in
          inr (at, subst (IsServing at) (runs_inj _ _ (sym started ∙ ran)) serving)
    ]
  ]
