-- ===== src/Stream.antt =====
-- stream/stream.go and stream/clock.go: the pools of websocket connections, one for each key, and
-- what is written to them. A connection is the number of its `*Conn`; a call returns the frames
-- that it writes, and the times at which a cache is set are arguments.
pub mod Pools
pub mod Look
pub mod Operations
pub mod Refreshing
pub mod Sync
pub mod Mirror
pub mod Broadcasts
pub mod Sound
pub mod Extending
pub mod Histories
pub mod Joining
pub mod Coherent
pub mod Attached
pub mod Receiving
pub mod Attending
pub mod Writing
pub mod Leaving
use katamari.Base.{
  ℕ, zero, suc, ◌+◌, ◌≡◌, Bool, true, false, not, ◌&&◌, List, [], ◌∷◌, ◌++◌, map, Option, none,
  some, ltb, ◌==◌, if◌then◌else◌, length, keep, Result, ok, err, Error, Outcome, returns, panics,
}
use katamari.Base.Int.{ℤ, pos}
use katamari.Base.Text.{Bytes, codes, bytes_eq}
use katamari.Key.{peer}
use katamari.Key.Number.{format_int}
use katamari.Objects.{empty_object}
use katamari.Messages.{Patcher}
use Pools.{Cache, no_cache, Pool, Stream, Frame, find_pool, pool_at, update_pool}

-- `InitClock`
abbrev pub clock_pool : Pool
clock_pool = record { key = []; cache = no_cache; connections = [] }

abbrev pub with_clock : List Pool → List Pool
with_clock [] = clock_pool ∷ []
with_clock (p ∷ ps) = p ∷ ps

unfoldable pub init_clock : Stream → Stream
init_clock sm = record sm { pools = with_clock sm.pools }

-- `new`, and the connection that it returns
unfoldable pub new : Bytes → Stream → ℕ × Stream
new key sm = elim (find_pool key sm.pools) [
  | none ↦ (
    sm.next,
    record sm {
      pools = sm.pools ++ record { key = key; cache = no_cache; connections = sm.next ∷ [] } ∷ [];
      next = suc sm.next;
    },
  )
  | some i ↦ (
    sm.next,
    record sm {
      pools =
          update_pool i (λ p. record p { connections = p.connections ++ sm.next ∷ [] }) sm.pools;
      next = suc sm.next;
    },
  )
]

-- `New`: the application may refuse the subscription, and the upgrade of the request may fail
unfoldable pub new_client :
    (Bytes → Result (Unit {0})) → Result (Unit {0}) → Bytes → Stream → Result ℕ × Stream
new_client on_subscribe upgraded key sm = elim (on_subscribe key) [
  | err e ↦ (err e, sm)
  | ok _ ↦ elim upgraded [
    | err e ↦ (err e, sm)
    | ok _ ↦ let (client, sm') = new key sm in (ok client, sm')
  ]
]

-- `Close`: an index of -1 panics
unfoldable pub close : Bytes → ℕ → Stream → Outcome Stream
close key client sm = elim (find_pool key sm.pools) [
  | none ↦ panics
  | some i ↦ returns (record sm {
    pools =
        update_pool i (λ p. record p { connections = keep (λ v. not (v == client)) p.connections })
          sm.pools;
  })
]

-- the text that `Write` sends
abbrev pub format_bool : Bool → Bytes
format_bool true = codes "true"
format_bool false = codes "false"

unfoldable pub frame_text : Bytes → Bool → ℤ → Bytes
frame_text content snapshot version =
    codes "{\"snapshot\": "
    ++ (format_bool snapshot
        ++ (codes ",\"version\": \""
            ++ (format_int version ++ (codes "\",\"data\": \"" ++ (content ++ codes "\"}")))))

-- `_setCache`
unfoldable pub set_pool_cache : ℤ → Bytes → Pool → Pool
set_pool_cache now content p = record p { cache = record { version = now; content = content } }

module _ (patcher : Patcher) where
  -- `Patch`: what is sent, and whether it is a snapshot. The cache is set on every branch.
  abbrev pub smaller : Bool → Bytes → Result Bytes → Bytes × Bool
  smaller force content (err e) = (content, true)
  smaller force content (ok operations) =
      if not force && ltb (length content) (length operations)
      then (content, true)
      else (operations, false)

  abbrev pub created : Bool → Bytes → Result patcher.Patch → Bytes × Bool
  created force content (err e) = (content, true)
  created force content (ok patch) = smaller force content (patcher.marshal patch)

  unfoldable pub patch : Bool → Bool → Pool → Bytes → Bytes × Bool
  patch no_patch force p content =
      if no_patch
      then (content, true)
      else created force content (patcher.create p.cache.content content)

  -- one round of the loop of `Broadcast`: the pool afterwards and the frames
  abbrev pub broadcast_data :
      (Bytes → Bytes) → ℤ → Bool → Bool → Pool → Result Bytes → Pool × List Frame
  broadcast_data encode now no_patch force p (err e) = (p, [])
  broadcast_data encode now no_patch force p (ok content) =
      let (modified, snapshot) = patch no_patch force p content in
      (
        set_pool_cache now content p,
        map (λ client. (client, frame_text (encode modified) snapshot now)) p.connections,
      )

  unfoldable pub broadcast_pool :
      (Bytes → Result Bytes) → (Bytes → Bytes) → ℤ → Bool → Bool → Bytes → Pool → Pool × List Frame
  broadcast_pool get encode now no_patch force path p =
      if peer p.key path then broadcast_data encode now no_patch force p (get p.key) else (p, [])

  -- the loop from an index on; `times` has the time at which each pool is served
  unfoldable pub broadcast_loop :
      (Bytes → Result Bytes)
      → (Bytes → Bytes)
      → (ℕ → ℤ)
      → Bool
      → Bool
      → Bytes
      → ℕ
      → List Pool
      → List Pool × List Frame
  broadcast_loop get encode times no_patch force path i [] = ([], [])
  broadcast_loop get encode times no_patch force path i (p ∷ ps) =
      let (p', sent) = broadcast_pool get encode (times i) no_patch force path p in
      let (ps', rest) = broadcast_loop get encode times no_patch force path (suc i) ps in
      (p' ∷ ps', sent ++ rest)

  -- `Broadcast` skips the pool of the clock, the first one.
  abbrev pub skip_clock :
      (ℕ → List Pool → List Pool × List Frame) → List Pool → List Pool × List Frame
  skip_clock loop [] = ([], [])
  skip_clock loop (p ∷ ps) = let (ps', sent) = loop 1 ps in (p ∷ ps', sent)

  unfoldable pub broadcast :
      (Bytes → Result Bytes) → (Bytes → Bytes) → (ℕ → ℤ) → Bytes → Stream → Stream × List Frame
  broadcast get encode times path sm =
      let (pools, sent) =
        skip_clock (broadcast_loop get encode times sm.no_patch sm.force_patch path) sm.pools in
      (record sm { pools = pools }, sent)

-- `BroadcastClock`: with no pool at all the index 0 panics
unfoldable pub broadcast_clock : Bytes → Stream → Outcome (List Frame)
broadcast_clock content sm = elim sm.pools [
  | [] ↦ panics
  | p ∷ _ ↦ returns (map (λ client. (client, content)) p.connections)
]

-- `setCache`, and the version that it returns
unfoldable pub set_cache : ℤ → Bytes → Bytes → Stream → ℤ × Stream
set_cache now key content sm = elim (find_pool key sm.pools) [
  | none ↦ (
    now,
    record sm {
      pools =
          sm.pools
          ++ record {
            key = key;
            cache = record { version = now; content = content };
            connections = [];
          }
            ∷ [];
    },
  )
  | some i ↦ (now, record sm { pools = update_pool i (set_pool_cache now content) sm.pools })
]

-- `GetCacheVersion`
abbrev pub version_of : Option Pool → Result ℤ
version_of none = err (codes "stream pool not found")
version_of (some p) =
    if bytes_eq p.cache.content []
    then err (codes "stream pool cache empty")
    else ok p.cache.version

unfoldable pub get_cache_version : Bytes → Stream → Result ℤ
get_cache_version key sm = elim (find_pool key sm.pools) [
  | none ↦ err (codes "stream pool not found")
  | some i ↦ version_of (pool_at sm.pools i)
]

-- `Refresh`
abbrev pub or_empty : Bytes → Bytes
or_empty [] = empty_object
or_empty (c ∷ s) = c ∷ s

abbrev pub refresh_version : ℤ → Bytes → Bytes → Stream → Result ℤ → Cache × Stream
refresh_version now path raw sm (ok version) = (record { version = version; content = raw }, sm)
refresh_version now path raw sm (err e) =
    let (version, sm') = set_cache now path raw sm in
    (record { version = version; content = raw }, sm')

abbrev pub refresh_data : ℤ → Bytes → Stream → Result Bytes → Result Cache × Stream
refresh_data now path sm (err e) = (err e, sm)
refresh_data now path sm (ok raw) =
    let (cache, sm') = refresh_version now path (or_empty raw) sm (get_cache_version path sm) in
    (ok cache, sm')

unfoldable pub refresh : ℤ → Bytes → (Bytes → Result Bytes) → Stream → Result Cache × Stream
refresh now path get sm = refresh_data now path sm (get path)
