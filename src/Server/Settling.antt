-- ===== src/Server/Settling.antt =====
-- How stale a cache of the streams may be, and that the workers alone bring all of them up to date:
-- a server that runs with the storage of memory.go.
use katamari.Base.{
  some_inj, ℕ, zero, suc, ◌≡◌, ◌≢◌, refl, sym, ap, subst, ◌⊎◌, inl, inr, List, [], ◌∷◌, some, All,
  Bool-cases, ok,
}
use katamari.Base.Int.{ℤ}
use katamari.Base.Text.{Bytes, bytes_eq, codes, contains}
use katamari.Objects.{Codec}
use katamari.Storage.{StorageEvent}
use katamari.Messages.{Patcher}
use katamari.Memory.Sorting.{SortSlice}
use katamari.Memory.{MemoryStorage}
use katamari.Stream.Pools.{Pool, Stream, pool_at}
use katamari.Stream.{or_empty, clock_pool}
use katamari.Stream.Coherent.{AllBehind, Cached, close-IsCoherent, new-IsCoherent}
use katamari.Server.{Server, get_filtered_data, watch}
use katamari.Server.InMemory.{memory_database}
use katamari.Server.Reading.{read-Streams, clock-Streams}
use katamari.Server.Queue.{
  Site, Step, Reach, OnlyWorks, here, next, publishes, unpublishes, reads, clocks, leaves, works,
}
use katamari.Server.Waiting.{Pending}
use katamari.Server.Globs.{globs-IsConsistent}
use katamari.Server.Consistency.{
  IsLoud, IsConsistent, Fresh, publishes-IsConsistent, unpublishes-IsConsistent, works-IsConsistent,
  Streams-IsConsistent, refresh-Fresh,
}

module _ (P : Pool → Type 0) where
  All-pool_at : (ps : List Pool) (j : ℕ) (p : Pool) → All P ps → pool_at ps j ≡ some p → P p
  All-pool_at [] j p h at = absurd (cc)
  All-pool_at (o ∷ ps) zero p h at = subst P (some_inj at) h.0
  All-pool_at (o ∷ ps) (suc j) p h at = All-pool_at ps j p h.1 at

  AllBehind-pool_at :
      (ps : List Pool) (j : ℕ) (p : Pool) → AllBehind P ps → pool_at ps (suc j) ≡ some p → P p
  AllBehind-pool_at [] j p h at = absurd (cc)
  AllBehind-pool_at (o ∷ ps) j p h at = All-pool_at ps j p h at

module _ {W : Type 0} (codec : Codec) (sorter : SortSlice) (patcher : Patcher) where
  step-IsConsistent :
      (a b : Site W)
      → IsConsistent codec sorter a
      → Step codec sorter patcher a b
      → IsConsistent codec sorter b
  unfolding get_filtered_data
  step-IsConsistent a b c (publishes built now req resp app e moved) =
      rw moved (publishes-IsConsistent codec sorter patcher built now req resp a app e c)
  step-IsConsistent a b c (unpublishes req resp app told e moved) =
      elim (Bool-cases (contains req.key (codes "*"))) [
        | inl glob ↦ rw moved (globs-IsConsistent codec sorter req resp a app glob (told glob) e c)
        | inr one ↦ rw moved (unpublishes-IsConsistent codec sorter patcher req resp a app one e c)
      ]
  step-IsConsistent a b c (reads now req moved) = rw moved (
      Streams-IsConsistent codec sorter a _ c.storage (
        read-Streams _ codec _ a.server (new-IsCoherent _)
          (refresh-Fresh codec sorter a.server a.waiting) now req c.coherent))
  step-IsConsistent a b c (clocks time req moved) = rw moved (
      Streams-IsConsistent codec sorter a _ c.storage (
        clock-Streams _ codec _ a.server (new-IsCoherent _)
          (refresh-Fresh codec sorter a.server a.waiting) time req c.coherent))
  step-IsConsistent a b c (leaves key client sm e moved) = rw moved (record {
    storage = c.storage;
    coherent = close-IsCoherent _ key client a.server.stream sm e c.coherent;
  })
  step-IsConsistent a b c (works times before after ev waits moved) =
      rw moved (works-IsConsistent codec sorter patcher times before after ev a waits c)

  pub fresh-IsConsistent :
      (a : Site W)
      → IsLoud a.server.storage
      → a.server.stream.pools ≡ clock_pool ∷ []
      → IsConsistent codec sorter a
  fresh-IsConsistent a l clocked = record { storage = l; coherent = rw clocked tt }

  pub Reach-IsConsistent :
      (a b : Site W)
      → IsConsistent codec sorter a
      → Reach codec sorter patcher a b
      → IsConsistent codec sorter b
  Reach-IsConsistent a b c here = c
  Reach-IsConsistent a b c (next r step) = step-IsConsistent _ b (Reach-IsConsistent a _ c r) step

  -- From a server that just started, whose storage sends the events of every key, whatever requests
  -- and broadcasts follow, in whatever order the workers take the events: a cache that holds anything
  -- holds what the read filters make of the data as they are, unless an event waits whose broadcast
  -- concerns the cache's key. Removals are as `Step` says, and the pool of the clock is left aside.
  pub stale-Pending :
      (a b : Site W) (j : ℕ) (p : Pool) (doc : Bytes)
      → IsLoud a.server.storage
      → a.server.stream.pools ≡ clock_pool ∷ []
      → Reach codec sorter patcher a b
      → pool_at b.server.stream.pools (suc j) ≡ some p
      → p.cache.content ≢ []
      → get_filtered_data (memory_database codec sorter) b.server p.key ≡ ok doc
      → (p.cache.content ≡ or_empty doc) ⊎ Pending b.waiting p.key
  unfolding get_filtered_data
  stale-Pending a b j p doc l clocked r at full there =
      let c = Reach-IsConsistent a b (fresh-IsConsistent a l clocked) r in
      AllBehind-pool_at (Cached (Fresh codec sorter b.server b.waiting)) b.server.stream.pools j p
        c.coherent at full doc there

  pub Reach-trans :
      (a b c : Site W)
      → Reach codec sorter patcher a b
      → Reach codec sorter patcher b c
      → Reach codec sorter patcher a c
  Reach-trans a b c r here = r
  Reach-trans a b c r (next s step) = next (Reach-trans a b _ r s) step

  OnlyWorks-trans :
      (a b c : Site W) (r : Reach codec sorter patcher a b) (s : Reach codec sorter patcher b c)
      → OnlyWorks codec sorter patcher r
      → OnlyWorks codec sorter patcher s
      → OnlyWorks codec sorter patcher (Reach-trans a b c r s)
  unfolding Reach-trans
  OnlyWorks-trans a b c r here h k = h
  OnlyWorks-trans a b c r (next s step) h k = (OnlyWorks-trans a b _ r s h k.0, k.1)

  watch-stream :
      (times : ℕ → ℤ) (ev : StorageEvent) (app : Server MemoryStorage W)
      → (sm : Stream) × ((watch (memory_database codec sorter) codec patcher times ev app).0
          ≡ record app { stream = sm })
  unfolding watch get_filtered_data
  watch-stream times ev app = elim (Bool-cases (bytes_eq ev.key [])) [
    | inl skipped ↦ rw skipped (app.stream, refl)
    | inr named ↦ rw named (_, refl)
  ]

  -- The workers take the events in their order.
  drain :
      (times : ℕ → ℤ) (waiting : List StorageEvent) (app : Server MemoryStorage W)
      → (sm : Stream) × (r : Reach codec sorter patcher
          (record { server = app; waiting = waiting })
          (record { server = record app { stream = sm }; waiting = [] }))
        × OnlyWorks codec sorter patcher r
  drain times [] app = (app.stream, here, tt)
  drain times (ev ∷ evs) app =
      let (sm, worked) = watch-stream times ev app in
      let (sm', rest, only) = drain times evs (record app { stream = sm }) in
      let first = next here (
        works times [] evs ev refl (ap (λ s. record { server = s; waiting = evs }) (sym worked))) in
      (sm', Reach-trans _ _ _ first rest, OnlyWorks-trans _ _ _ first rest (tt, tt) only)

  -- A cache of the streams that holds anything, other than the clock's, holds what the read filters
  -- make of the data as they are.
  abbrev pub IsSettled : Server MemoryStorage W → Type 0
  IsSettled app =
      (j : ℕ) (p : Pool) (doc : Bytes)
      → pool_at app.stream.pools (suc j) ≡ some p
      → p.cache.content ≢ []
      → get_filtered_data (memory_database codec sorter) app p.key ≡ ok doc
      → p.cache.content ≡ or_empty doc

  quiet-IsSettled :
      (a b : Site W)
      → IsLoud a.server.storage
      → a.server.stream.pools ≡ clock_pool ∷ []
      → Reach codec sorter patcher a b
      → b.waiting ≡ []
      → IsSettled b.server
  quiet-IsSettled a b l clocked r quiet j p doc at full there =
      elim (stale-Pending a b j p doc l clocked r at full there) [
        | inl fresh ↦ fresh
        | inr pending ↦ let (ev, nothing, _, _) = rw quiet at pending in absurd nothing
      ]

  -- A server that just started, whose storage sends the events of every key, has had any number of
  -- requests to store, to remove, to read, for websockets and for the clock, of connections that left
  -- and of broadcasts; a removal names one key with no star, or a glob such that each pool but the
  -- clock's has a key that is a peer of the glob, or that matches no stored key together with it. Then
  -- its workers, with no other step
  -- between, can take every event that waits, and nothing but the streams changes on the way. Every
  -- site that is reached with no event waiting, so also theirs and in whatever order the events are
  -- taken, has caches that are empty or hold what the read filters make of the data as they are;
  -- the clock's is left aside.
  pub caches_settle :
      (times : ℕ → ℤ) (a b : Site W)
      → IsLoud a.server.storage
      → a.server.stream.pools ≡ clock_pool ∷ []
      → Reach codec sorter patcher a b
      → ((sm : Stream) × (w : Reach codec sorter patcher b
            (record { server = record b.server { stream = sm }; waiting = [] }))
          × OnlyWorks codec sorter patcher w
          × IsSettled (record b.server { stream = sm }))
        × ((c : Site W) → Reach codec sorter patcher b c → c.waiting ≡ [] → IsSettled c.server)
  caches_settle times a b l clocked r =
      let (sm, worked, only) = drain times b.waiting b.server in
      (
        (
          sm,
          worked,
          only,
          quiet-IsSettled a (record { server = record b.server { stream = sm }; waiting = [] }) l
              clocked (Reach-trans a b _ r worked) refl,
        ),
        λ c w quiet. quiet-IsSettled a c l clocked (Reach-trans a b c r w) quiet,
      )
