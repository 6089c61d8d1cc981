-- ===== src/Server/Watching.antt =====
-- A client of a server that runs with the storage of memory.go: the frames that the broadcasts send
-- to its connection, applied to its document as they come.
use katamari.Base.{
  ℕ, ◌≡◌, ◌≢◌, refl, ap, ◌∙◌, inl, inr, false, List, [], ◌∷◌, Option, none, ◌==◌, Bool-cases,
  Result, ok, err, Error,
}
use katamari.Base.Int.{ℤ}
use katamari.Base.Text.{Bytes, bytes_eq}
use katamari.Objects.{Codec}
use katamari.Storage.{StorageEvent}
use katamari.Filters.{check}
use katamari.Messages.{Patcher}
use katamari.Memory.Sorting.{SortSlice}
use katamari.Memory.{MemoryStorage, get}
use katamari.Stream.Pools.{Frame}
use katamari.Stream.Sync.{IsFaithful}
use katamari.Stream.Mirror.{receive, on_success}
use katamari.Stream.Attached.{IsAttached, new-IsAttached, close-IsAttached, refresh-IsAttached}
use katamari.Stream.Attending.{broadcast-IsAttached}
use katamari.Server.{Server, get_filtered_data, raw_data, watch}
use katamari.Server.InMemory.{memory_database}
use katamari.Server.Publishing.{publish-stored, unpublish-stored}
use katamari.Server.Reading.{Streams, read-Streams, clock-Streams}
use katamari.Server.Queue.{
  Site, Step, Reach, here, next, publishes, unpublishes, reads, clocks, leaves, works,
}

module _ {W : Type 0} (codec : Codec) (sorter : SortSlice) (patcher : Patcher) where
  -- the frames that a worker's broadcast writes
  abbrev pub step_frames : {a b : Site W} → Step codec sorter patcher a b → List Frame
  step_frames {a} (works times before after ev waits moved) =
      (watch (memory_database codec sorter) codec patcher times ev a.server).1
  step_frames (publishes built now req resp app e moved) = []
  step_frames (unpublishes req resp app one e moved) = []
  step_frames (reads now req moved) = []
  step_frames (clocks time req moved) = []
  step_frames (leaves key other sm e moved) = []

  -- the client's document after all of them, and its first error
  unfoldable pub seen :
      {a b : Site W} → ℕ → Reach codec sorter patcher a b → Bytes → Bytes × Option Error
  seen client here cache = (cache, none)
  seen client (next r step) cache =
      on_success (seen client r cache) (receive codec patcher client (step_frames step))

  -- The connection is not closed on the way.
  abbrev pub StepStays : {a b : Site W} → ℕ → Step codec sorter patcher a b → Type 0
  StepStays client (leaves key other sm e moved) = (other == client) ≡ false
  StepStays client (publishes built now req resp app e moved) = Unit
  StepStays client (unpublishes req resp app one e moved) = Unit
  StepStays client (reads now req moved) = Unit
  StepStays client (clocks time req moved) = Unit
  StepStays client (works times before after ev waits moved) = Unit

  abbrev pub Stays : {a b : Site W} → ℕ → Reach codec sorter patcher a b → Type 0
  Stays client here = Unit
  Stays client (next r step) = Stays client r × StepStays client step

-- The read filters make no empty text of the key's data.
abbrev pub Serves : {W : Type 0} → Bytes → Server MemoryStorage W → Type 0
Serves key app = (raw : Bytes) → raw ≢ [] → check app.filters.on_read key raw app.is_static ≢ ok []

raw_data-ne : (r : Result Bytes) → raw_data r ≢ []
raw_data-ne (ok []) h = cc
raw_data-ne (ok (c ∷ s)) h = cc
raw_data-ne (err e) h = cc

module _ {W : Type 0} {codec : Codec} {patcher : Patcher} {Same : Bytes → Bytes → Type 0}
    (sorter : SortSlice) (h : IsFaithful codec patcher Same) (key : Bytes) (client : ℕ) where
  pub served-ne :
      (app : Server MemoryStorage W) (content : Bytes)
      → Serves key app
      → get_filtered_data (memory_database codec sorter) app key ≡ ok content
      → content ≢ []
  unfolding get_filtered_data
  served-ne app content serves there empty =
      serves _ (raw_data-ne (get codec sorter key app.storage)) (there ∙ ap ok empty)

  -- what holds of a client whose document was `cache` after a step that left the server `app`
  abbrev pub Watches : Bytes → List Frame → Server MemoryStorage W → Type 0
  Watches cache frames app =
      (cache' : Bytes) × (receive codec patcher client frames cache ≡ (cache', none))
      × IsAttached Same key client cache' app.stream
      × Serves key app

  quiet-Watches :
      (cache : Bytes) (app : Server MemoryStorage W)
      → IsAttached Same key client cache app.stream
      → Serves key app
      → Watches cache [] app
  quiet-Watches cache app a serves = (cache, unfold receive in refl, a, serves)

  Streams-Watches :
      (cache : Bytes) (app after : Server MemoryStorage W)
      → Serves key app
      → Streams (IsAttached Same key client cache) app after
      → Watches cache [] after
  Streams-Watches cache app after serves (sm, same, a) =
      rw same (quiet-Watches cache (record app { stream = sm }) a serves)

  watch-Watches :
      (times : ℕ → ℤ) (ev : StorageEvent) (cache : Bytes) (app : Server MemoryStorage W)
      → key ≢ []
      → Serves key app
      → IsAttached Same key client cache app.stream
      → let (app', frames) = watch (memory_database codec sorter) codec patcher times ev app in
        Watches cache frames app'
  unfolding watch get_filtered_data
  watch-Watches times ev cache app named serves a = elim (Bool-cases (bytes_eq ev.key [])) [
    | inl skipped ↦ rw skipped (quiet-Watches cache app a serves)
    | inr other ↦
        let (cache', applied, a') =
          broadcast-IsAttached h (get_filtered_data (memory_database codec sorter) app) times ev.key
            key client cache app.stream (λ content. served-ne app content serves) named a in
        rw other (cache', applied, a', serves)
  ]

  step-Watches :
      (a b : Site W) (step : Step codec sorter patcher a b) (cache : Bytes)
      → key ≢ []
      → StepStays codec sorter patcher client step
      → Serves key a.server
      → IsAttached Same key client cache a.server.stream
      → Watches cache (step_frames codec sorter patcher step) b.server
  step-Watches a b (publishes built now req resp app e moved) cache named stays serves t =
      rw
        (
          moved,
          publish-stored (memory_database codec sorter) codec patcher built now req resp a.server
              app e,
        )
        (quiet-Watches cache (record a.server { storage = app.storage; world = app.world }) t
          serves)
  step-Watches a b (unpublishes req resp app one e moved) cache named stays serves t =
      rw (moved, unpublish-stored (memory_database codec sorter) req resp a.server app e)
        (quiet-Watches cache (record a.server { storage = app.storage; world = app.world }) t
          serves)
  step-Watches a b (reads now req moved) cache named stays serves t = rw moved (
      Streams-Watches cache a.server _ serves (
        read-Streams (memory_database codec sorter) codec (IsAttached Same key client cache)
          a.server (new-IsAttached Same key client cache)
          (λ now path sm. refresh-IsAttached Same key client cache now path _ sm) now req t))
  step-Watches a b (clocks time req moved) cache named stays serves t = rw moved (
      Streams-Watches cache a.server _ serves (
        clock-Streams (memory_database codec sorter) codec (IsAttached Same key client cache)
          a.server (new-IsAttached Same key client cache)
          (λ now path sm. refresh-IsAttached Same key client cache now path _ sm) time req t))
  step-Watches a b (leaves path other sm e moved) cache named stays serves t = rw moved (
      quiet-Watches cache (record a.server { stream = sm })
        (close-IsAttached Same key client cache path other a.server.stream sm stays e t) serves)
  step-Watches a b (works times before after ev waits moved) cache named stays serves t =
      rw moved (watch-Watches times ev cache a.server named serves t)

  pub Reach-Watches :
      (a b : Site W) (r : Reach codec sorter patcher a b) (cache : Bytes)
      → key ≢ []
      → Stays codec sorter patcher client r
      → Serves key a.server
      → IsAttached Same key client cache a.server.stream
      → (cache' : Bytes) × (seen codec sorter patcher client r cache ≡ (cache', none))
        × IsAttached Same key client cache' b.server.stream
        × Serves key b.server
  unfolding seen
  Reach-Watches a b here cache named stays serves t = (cache, refl, t, serves)
  Reach-Watches a b (next r step) cache named stays serves t =
      let (cache1, before, t1, serves1) = Reach-Watches a _ r cache named stays.0 serves t in
      let (cache2, applied, t2, serves2) = step-Watches _ b step cache1 named stays.1 serves1 t1 in
      (cache2, rw (seen, before) applied, t2, serves2)
