-- ===== src/Server/Lifecycle.antt =====
-- katamari.go: what `Start` does before the server answers requests, and the clock's loop of
-- clock.go. log.Fatal ends the process. Starting the database and listening on an address are
-- arguments; the router, the console and the HTTP client are not looked at.
use katamari.Base.{
  zero, Bool, true, false, not, List, [], ◌∷◌, ◌++◌, Option, none, some, if◌then◌else◌, Result, ok,
  err, Error, Outcome, returns, panics, blocks,
}
use katamari.Base.Int.{ℤ, pos}
use katamari.Base.Text.{Bytes, codes}
use katamari.Storage.{Database}
use katamari.Stream.Pools.{Frame}
use katamari.Stream.{init_clock, broadcast_clock}
use katamari.Server.{Request, Server, is_active, close}

-- The fields of `Server` that `defaults` fills in; a function that is nil is `none`, a duration is a
-- number of nanoseconds. `stream_subscribe` and `stream_unsubscribe` are the functions of `Stream`.
pub record Settings (W : Type 0) : Type 0 where
  pub deadline : ℤ
  pub tick : ℤ
  pub read_timeout : ℤ
  pub write_timeout : ℤ
  pub read_header_timeout : ℤ
  pub idle_timeout : ℤ
  pub allowed_origins : List Bytes
  pub allowed_methods : List Bytes
  pub allowed_headers : List Bytes
  pub workers : ℤ
  pub no_broadcast_keys : List Bytes
  pub force_patch : Bool
  pub no_patch : Bool
  pub audit : Option (Request → Bool)
  pub on_subscribe : Option (Bytes → Result (Unit {0}))
  pub stream_subscribe : Option (Bytes → Result (Unit {0}))
  pub on_unsubscribe : Option (Bytes → W → W)
  pub stream_unsubscribe : Option (Bytes → W → W)
  pub on_close : Option (W → W)

-- A server with its settings and its address.
pub record Application (D W : Type 0) : Type 0 where
  pub settings : Settings W
  pub address : Bytes
  pub server : Server D W

-- The end of `Start`: the server runs, or the process ended with the message of log.Fatal or in a
-- panic, or it waits for ever.
pub data Start {ℓ} (A : Type ℓ) : Type ℓ where
  runs : A → Start A
  fatal : Error → Start A
  breaks : Start A
  hangs : Start A

abbrev pub duration_or : ℤ → ℤ → ℤ
duration_or (pos zero) other = other
duration_or d other = d

abbrev pub texts_or : List Bytes → List Bytes → List Bytes
texts_or [] other = other
texts_or (t ∷ ts) other = t ∷ ts

abbrev pub call_or {ℓ} : {A : Type ℓ} → Option A → A → A
call_or none other = other
call_or (some f) other = f

module _ {W : Type 0} where
  -- `defaults` on the settings
  unfoldable pub default_settings : Settings W → Settings W
  default_settings s =
      let subscribe = call_or s.on_subscribe (λ key. ok tt) in
      let unsubscribe = call_or s.on_unsubscribe (λ key world. world) in
      record s {
        deadline = duration_or s.deadline (pos 10000000000);
        tick = duration_or s.tick (pos 1000000000);
        read_timeout = duration_or s.read_timeout (pos 60000000000);
        write_timeout = duration_or s.write_timeout (pos 60000000000);
        read_header_timeout = duration_or s.read_header_timeout (pos 10000000000);
        idle_timeout = duration_or s.idle_timeout (pos 10000000000);
        allowed_origins = texts_or s.allowed_origins (codes "*" ∷ []);
        allowed_methods =
            texts_or s.allowed_methods
              (codes "GET" ∷ codes "POST" ∷ codes "DELETE" ∷ codes "PUT" ∷ []);
        allowed_headers =
            texts_or s.allowed_headers (codes "Authorization" ∷ codes "Content-Type" ∷ []);
        workers = duration_or s.workers (pos 6);
        audit = some (call_or s.audit (λ req. true));
        on_subscribe = some subscribe;
        stream_subscribe = some (call_or s.stream_subscribe subscribe);
        on_unsubscribe = some unsubscribe;
        stream_unsubscribe = some (call_or s.stream_unsubscribe unsubscribe);
        on_close = some (call_or s.on_close (λ world. world));
      }

module _ {D W : Type 0} where
  -- the functions and the flags of the settings in the server, and the pool of the clock
  abbrev pub configured : Settings W → Server D W → Server D W
  configured s app = record app {
    audit = call_or s.audit app.audit;
    on_subscribe = call_or s.stream_subscribe app.on_subscribe;
    on_close = call_or s.on_close app.on_close;
    stream = init_clock (record app.stream { force_patch = s.force_patch; no_patch = s.no_patch });
  }

  -- `defaults`
  unfoldable pub defaults : Application D W → Application D W
  defaults a =
      let s = default_settings a.settings in
      record a { settings = s; server = configured s a.server }

module _ {D W : Type 0} (database : Database D) (listen : Bytes → Result Bytes) where
  -- `waitStart`, up to its loops
  abbrev pub storage_checked : Application D W → Outcome Bool → Start (Application D W)
  storage_checked a (returns true) = runs a
  storage_checked a (returns false) = fatal (codes "server start failed")
  storage_checked a panics = breaks
  storage_checked a blocks = hangs

  unfoldable pub wait_start : Application D W → Start (Application D W)
  wait_start a =
      if not a.server.active
      then fatal (codes "server start failed")
      else storage_checked a (database.is_active a.server.storage)

  -- `waitListen`, up to the call that serves
  abbrev pub listened : Application D W → Result Bytes → Start (Application D W)
  listened a (err e) = fatal (codes "failed to start tcp, " ++ e)
  listened a (ok address) =
      runs (record a { address = address; server = record a.server { active = true } })

  abbrev pub storage_started : Application D W → Result (Unit {0}) × D → Start (Application D W)
  storage_started a (err e, d) = fatal e
  storage_started a (ok _, d) =
      listened (record a { server = record a.server { storage = d } }) (listen a.address)

  unfoldable pub wait_listen : Application D W → Start (Application D W)
  wait_listen a = storage_started a (
      database.start (record { no_broadcast_keys = a.settings.no_broadcast_keys }) a.server.storage)

  abbrev pub then_wait : Start (Application D W) → Start (Application D W)
  then_wait (runs a) = wait_start a
  then_wait (fatal e) = fatal e
  then_wait breaks = breaks
  then_wait hangs = hangs

  -- `Start`: the address is set before the test
  unfoldable pub start : Bytes → Application D W → Start (Application D W)
  start address a =
      if a.server.active
      then runs (record a { address = address })
      else then_wait (
          wait_listen (
            defaults (record a {
              address = address;
              server = record a.server { active = false; closing = false };
            })))

module _ {D W : Type 0} where
  -- the end of the goroutine of `waitListen`: `Serve` has returned an error
  unfoldable pub serve_returned : Bytes → Application D W → Start (Application D W)
  serve_returned e a = if a.server.closing then runs a else fatal e

  -- `Close` to its end: `http` is what `Shutdown` does, `none` where there is no HTTP server
  abbrev pub then_shutdown : Option (Outcome (Unit {0})) → Server D W → Outcome (Server D W)
  then_shutdown none app = returns app
  then_shutdown (some (returns u)) app = returns app
  then_shutdown (some panics) app = panics
  then_shutdown (some blocks) app = blocks

  unfoldable pub close_server :
      Database D → Option (Outcome (Unit {0})) → Server D W → Outcome (Server D W)
  close_server database http app = if app.closing then returns app else elim (close database app) [
    | returns app' ↦ then_shutdown http app'
    | panics ↦ panics
    | blocks ↦ blocks
  ]

-- one round of the loop of `tick`, `none` where it ends
abbrev pub ticked : Outcome (List Frame) → Outcome (Option (List Frame))
ticked (returns sent) = returns (some sent)
ticked panics = panics
ticked blocks = blocks

module _ {D W : Type 0} where
  unfoldable pub tick_round : Bytes → Server D W → Outcome (Option (List Frame))
  tick_round time app =
      if is_active app then ticked (broadcast_clock time app.stream) else returns none
