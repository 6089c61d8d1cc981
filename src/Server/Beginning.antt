-- ===== src/Server/Beginning.antt =====
-- Where the histories of a running server begin: `Start` of katamari.go leaves what they ask for.
use katamari.Base.{
  ◌≡◌, ◌≢◌, ◌⊎◌, refl, sym, ◌∙◌, inl, inr, false, [], ◌∷◌, List, some, none, ℕ, suc, Result, ok,
  Result-cases,
}
use katamari.Base.Text.{Bytes}
use katamari.Objects.{Codec}
use katamari.Messages.{Patcher}
use katamari.Memory.Sorting.{SortSlice}
use katamari.Memory.{MemoryStorage}
use katamari.Memory
use katamari.Stream.Pools.{Frame, Pool, pool_at}
use katamari.Stream.{init_clock, clock_pool, or_empty}
use katamari.Server.{Request, connected, get_filtered_data}
use katamari.Server.Rest.{read}
use katamari.Server.InMemory.{memory_database}
use katamari.Server.Lifecycle.{
  Application, runs, start, defaults, default_settings, wait_listen, wait_start,
}
use katamari.Server.Starting.{running, configuration, runs_inj, fatal_runs}
use katamari.Server.Queue.{Site, Reach}
use katamari.Server.Waiting.{Pending}
use katamari.Server.Consistency.{IsLoud}
use katamari.Server.Settling.{stale-Pending}
use katamari.Server.Watching.{seen, Stays}
use katamari.Server.Subscribing.{subscriber-Same}
use katamari.Server.Opening.{IsSubscribing}
use katamari.Stream.Sync.{IsFaithful}
use katamari.Stream.Mirror.{receive}
use katamari.Base.Int.{ℤ}

module _ {W : Type 0} (codec : Codec) (sorter : SortSlice) (patcher : Patcher)
    (listen : Bytes → Result Bytes) where
  started_running :
      (address : Bytes) (a a' : Application MemoryStorage W)
      → a.server.active ≡ false
      → start (memory_database codec sorter) listen address a ≡ runs a'
      → (at : Bytes) × (a' ≡ running at (configuration address a))
  unfolding start wait_listen wait_start defaults Memory.start Memory.is_active
  started_running address a a' idle ran = elim (Result-cases (listen address)) [
    | inl (e, refused) ↦ absurd (fatal_runs _ a' (rw (idle, refused) at ran))
    | inr (at, listens) ↦ (at, runs_inj _ _ (sym ran ∙ rw (idle, listens) refl))
  ]

  -- what the histories ask of the server that `Start` leaves
  started_ready :
      (address : Bytes) (a a' : Application MemoryStorage W)
      → a.server.active ≡ false
      → a.settings.no_broadcast_keys ≡ []
      → a.server.stream.pools ≡ []
      → start (memory_database codec sorter) listen address a ≡ runs a'
      → IsLoud a'.server.storage × (a'.server.stream.pools ≡ clock_pool ∷ [])
  unfolding defaults default_settings Memory.start init_clock
  started_ready address a a' idle quiet fresh ran =
      let (at, same) = started_running address a a' idle ran in
      rw same (record { loud = quiet; on = refl; wired = refl }, rw fresh refl)

  -- A server that was never started, and whose settings name no key that is not broadcast, was
  -- started. Whatever requests and broadcasts followed, in whatever order the workers took the events:
  -- a cache that holds anything holds what the read filters make of the data as they are, unless an
  -- event waits whose broadcast concerns the cache's key. A removal names one key with no star, or a
  -- glob such that each pool but the clock's has a key that is a peer of the glob, or that matches no
  -- stored key together with it. The pool of the clock is left aside.
  pub start-Pending :
      (address : Bytes) (a a' : Application MemoryStorage W) (b : Site W) (j : ℕ) (p : Pool)
      (doc : Bytes)
      → a.server.active ≡ false
      → a.settings.no_broadcast_keys ≡ []
      → a.server.stream.pools ≡ []
      → start (memory_database codec sorter) listen address a ≡ runs a'
      → Reach codec sorter patcher (record { server = a'.server; waiting = [] }) b
      → pool_at b.server.stream.pools (suc j) ≡ some p
      → p.cache.content ≢ []
      → get_filtered_data (memory_database codec sorter) b.server p.key ≡ ok doc
      → (p.cache.content ≡ or_empty doc) ⊎ Pending b.waiting p.key
  unfolding get_filtered_data
  start-Pending address a a' b j p doc idle quiet fresh ran r there full got =
      let (loud, clocked) = started_ready address a a' idle quiet fresh ran in
      stale-Pending codec sorter patcher (record { server = a'.server; waiting = [] }) b j p doc
        loud clocked r there full got

  -- A server that was never started, and whose settings name no key that is not broadcast, was
  -- started. Any requests to store, to remove, to read, for websockets and for the clock, connections
  -- that left and broadcasts followed, each whole before the next; a removal names one key with no
  -- star, or a glob such that each pool but the clock's has a key that is a peer of the glob, or that
  -- matches no stored key together with it.
  -- Then a client asks for a websocket of a valid key for which no event waits; it is approved and
  -- upgraded, the request has no version, and the read filters accept the key's data. Its first
  -- message is a snapshot. If it reads this message before any frame of a broadcast, then after any
  -- more such steps that leave its connection open it has applied every frame that a broadcast sent
  -- to it without an error, and its document is the one that the read filters make of the key's data
  -- as they are, unless an event waits whose broadcast concerns the key. The filters make no empty
  -- text, and the libraries are taken to be faithful. Nothing is said of other removals by a glob,
  -- behind which a client of an overlapping glob may stay with old data.
  pub start-Same :
      {Same : Bytes → Bytes → Type 0} (h : IsFaithful codec patcher Same) (address : Bytes)
      (a a' : Application MemoryStorage W) (now : ℤ) (req : Request) (served : Bytes) (b c : Site W)
      → a.server.active ≡ false
      → a.settings.no_broadcast_keys ≡ []
      → a.server.stream.pools ≡ []
      → start (memory_database codec sorter) listen address a ≡ runs a'
      → Reach codec sorter patcher (record { server = a'.server; waiting = [] }) b
      → (Pending b.waiting req.key → ⊥)
      → IsSubscribing codec sorter req b.server served
      → (r : Reach codec sorter patcher
          (record b { server = (read (memory_database codec sorter) codec now req b.server).1 })
          c)
      → Stays codec sorter patcher b.server.stream.next r
      → (first : List Frame) × (cache : Bytes) × (cache' : Bytes) × ((read
            (memory_database codec sorter)
            codec
            now
            req
            b.server).0
          ≡ connected first)
        × (receive codec patcher b.server.stream.next first [] ≡ (cache, none))
        × (seen codec sorter patcher b.server.stream.next r cache ≡ (cache', none))
        × ((doc : Bytes)
            → get_filtered_data (memory_database codec sorter) c.server req.key ≡ ok doc
            → Same doc cache' ⊎ Pending c.waiting req.key)
  unfolding get_filtered_data
  start-Same h address a a' now req served b c idle quiet fresh ran before settled i r stays =
      let (loud, clocked) = started_ready address a a' idle quiet fresh ran in
      subscriber-Same sorter h now req served (record { server = a'.server; waiting = [] }) b c loud
        clocked before settled i r stays
