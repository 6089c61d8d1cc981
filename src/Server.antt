-- ===== src/Server.antt =====
-- rest.go, ws.go, clock.go and the parts of katamari.go that they call: the handlers of the server,
-- over any storage. A handler gets what the router took from the request; the times that it reads
-- are arguments. The application's callbacks are functions, on the state `W` of the outside where
-- they only have effects.
pub mod Rest
pub mod Publishing
pub mod Accepting
pub mod InMemory
pub mod Serving
pub mod Removing
pub mod Delivery
pub mod Following
pub mod Sockets
pub mod Lifecycle
pub mod Defaults
pub mod Starting
pub mod Running
pub mod Reading
pub mod Queue
pub mod Waiting
pub mod Consistency
pub mod Globs
pub mod Settling
pub mod Watching
pub mod Steady
pub mod Opening
pub mod Subscribing
pub mod Beginning
pub mod Entering
pub mod Sessions
pub mod Conformance
use katamari.Base.{
  ℕ, zero, suc, Bool, true, false, not, ◌&&◌, ◌||◌, List, [], ◌∷◌, ◌++◌, Option, none, some, ltb,
  ◌==◌, if◌then◌else◌, length, Result, ok, err, Error, Outcome, returns, panics, blocks,
}
use katamari.Base.Int.{ℤ}
use katamari.Base.Text.{Bytes, codes, bytes_eq, count, asterisk}
use katamari.Key.{is_valid, build}
use katamari.Key.Number.{format_int}
use katamari.Objects.{Codec, empty_object}
use katamari.Storage.{Database, StorageEvent}
use katamari.Filters.{Filters, check, check_static, check_hooks, check_watchers}
use katamari.Messages.{Message, Patcher, decode_reader, encode}
use katamari.Stream.Pools.{Stream, Cache, Frame}
use katamari.Stream.{new_client, broadcast, refresh, or_empty, frame_text}

-- What a handler reads of a request: the key of the route, the body, whether the `Upgrade` header
-- asks for a websocket, how the upgrade ends, and the form value `v`.
pub record Request : Type 0 where
  pub key : Bytes
  pub body : Bytes
  pub is_websocket : Bool
  pub upgraded : Result (Unit {0})
  pub version : Bytes

pub record Response : Type 0 where
  pub status : ℕ
  pub body : Bytes

-- The end of a request: a response, a websocket with its first frames, or nothing written.
pub data Answer : Type 0 where
  answered : Response → Answer
  connected : List Frame → Answer
  dropped : Answer

-- The fields of `Server` that the handlers read or change.
pub record Server (D W : Type 0) : Type 0 where
  pub filters : Filters W
  pub is_static : Bool
  pub audit : Request → Bool
  pub on_subscribe : Bytes → Result (Unit {0})
  pub on_close : W → W
  pub stream : Stream
  pub storage : D
  pub world : W
  pub active : Bool
  pub closing : Bool

abbrev pub invalid_key : Response
invalid_key = record { status = 400; body = codes "katamari: pathKeyError key is not valid" }

abbrev pub unauthorized : Response
unauthorized = record { status = 401; body = codes "katamari: this request is not authorized" }

-- strings.Index of one byte, `none` for -1, and whether it is the last byte's
abbrev pub shifted : Option ℕ → Option ℕ
shifted none = none
shifted (some i) = some (suc i)

unfoldable pub index_of : Bytes → ℕ → Option ℕ
index_of [] b = none
index_of (c ∷ s) b = if c == b then some 0 else shifted (index_of s b)

abbrev pub is_last : Option ℕ → ℕ → Bool
is_last (some i) n = suc i == n
is_last none n = n == 0

-- the test of the key in `publish`
unfoldable pub is_publishable : Bytes → Bool
is_publishable vkey = not (
    not (is_valid vkey)
    || (ltb 1 (count vkey asterisk)
        || (count vkey asterisk == 1 && not (is_last (index_of vkey asterisk) (length vkey)))))

abbrev pub not_found_error : Error → Bool
not_found_error e =
    bytes_eq e (codes "leveldb: not found") || bytes_eq e (codes "katamari: not found")

-- `raw` of `getFilteredData`, in which an error of the storage counts as no data
abbrev pub raw_data : Result Bytes → Bytes
raw_data (ok raw) = or_empty raw
raw_data (err e) = empty_object

module _ {D W : Type 0} where
  -- `Active`
  unfoldable pub is_active : Server D W → Bool
  is_active app = app.active && not app.closing

module _ {D W : Type 0} (database : Database D) where
  -- `getFilteredData`
  unfoldable pub get_filtered_data : Server D W → Bytes → Result Bytes
  get_filtered_data app key =
      check app.filters.on_read key (raw_data (database.get key app.storage)) app.is_static

  -- `fetch`
  abbrev pub with_stream : Server D W → Result Cache × Stream → Result Cache × Server D W
  with_stream app (entry, sm) = (entry, record app { stream = sm })

  abbrev pub fetch_allowed : ℤ → Bytes → Server D W → Result (Unit {0}) → Result Cache × Server D W
  fetch_allowed now key app (err e) = (err e, app)
  fetch_allowed now key app (ok _) =
      with_stream app (refresh now key (get_filtered_data app) app.stream)

  unfoldable pub fetch : ℤ → Bytes → Server D W → Result Cache × Server D W
  fetch now key app = fetch_allowed now key app (check_static app.filters.on_read key app.is_static)

  -- one round of the loop of `watch`
  unfoldable pub watch :
      Codec → Patcher → (ℕ → ℤ) → StorageEvent → Server D W → Server D W × List Frame
  watch codec patcher times ev app =
      if bytes_eq ev.key []
      then (app, [])
      else let (sm, sent) =
          broadcast patcher (get_filtered_data app) (encode codec) times ev.key app.stream in
        (record app { stream = sm }, sent)

  -- `Close`, up to the shutdown of the HTTP server
  unfoldable pub close : Server D W → Outcome (Server D W)
  close app = if app.closing then returns app else elim (database.close app.storage) [
    | returns d ↦
        returns (record app {
          closing = true;
          active = false;
          storage = d;
          world = app.on_close app.world;
        })
    | panics ↦ panics
    | blocks ↦ blocks
  ]
