-- ===== src/Server/Serving.antt =====
-- What was stored by one request is what the next request reads, with the storage of memory.go.
use katamari.Base.{
  ◌≡◌, refl, sym, ap, ◌∙◌, inl, inr, true, false, some, Result-cases, Result, ok, Outcome, returns,
  panics, blocks,
}
use katamari.Base.Int.{ℤ}
use katamari.Base.Text.{Bytes, codes, contains, bytes_eq}
use katamari.Key.{build, is_valid, last_index}
use katamari.Objects.{Codec, new, empty_object}
use katamari.Filters.{check, check_watchers}
use katamari.Filters.Checks.{check-ok}
use katamari.Messages.{Patcher}
use katamari.Memory.Map.{load}
use katamari.Memory.Sorting.{SortSlice}
use katamari.Memory.Spec.{spec_step, sets, next_object}
use katamari.Memory.Refine.{view, IsStarted, exec, state_of, set-Implements}
use katamari.Memory.Stamps.{contents-sets}
use katamari.Memory.Answers.{get_lem}
use katamari.Memory.{MemoryStorage, set, with_result, get}
use katamari.Stream.Pools.{Stream}
use katamari.Stream.{refresh, get_cache_version, or_empty, set_cache}
use katamari.Server.{Request, answered, Server, get_filtered_data, fetch}
use katamari.Server.InMemory.{memory_database}
use katamari.Server.Rest.{created_response, publish, read}
use katamari.Server.Publishing.{Accepts}

pub with_result-state_of :
    {A : Type 0} (a : A) (o : Outcome MemoryStorage) (db : MemoryStorage)
    → state_of (with_result a o) ≡ returns db
    → with_result a o ≡ returns (a, db)
with_result-state_of a (returns db1) db h = cc
with_result-state_of a panics db h = cc
with_result-state_of a blocks db h = cc

-- what `Set` stores under a key
abbrev pub stored : Codec → ℤ → Bytes → Bytes → MemoryStorage → Bytes
stored codec now key content db = new codec (next_object codec now key content (load key db.mem))

pub set-stored :
    (codec : Codec) (now : ℤ) (key content : Bytes) (db : MemoryStorage)
    → IsStarted db
    → (db' : MemoryStorage) × (set codec now key content db ≡ returns (last_index key, db'))
      × (load key db'.mem ≡ some (stored codec now key content db))
      × (view db' ≡ spec_step codec (sets now key content) (view db))
unfolding exec view set
set-stored codec now key content db s =
    let (db', ran, _, viewed) = set-Implements codec now key content db s in
    (
      db',
      with_result-state_of (last_index key) _ db' ran,
      ap (λ a. a.contents key) viewed ∙ contents-sets codec now key content (view db),
      viewed,
    )

-- `Refresh` answers with the data that it was given, whatever is in the cache.
pub refresh-content :
    (now : ℤ) (path raw : Bytes) (get_data : Bytes → Result Bytes) (sm : Stream)
    → get_data path ≡ ok raw
    → (version : ℤ) × ((refresh now path get_data sm).0
        ≡ ok (record { version = version; content = or_empty raw }))
unfolding refresh
refresh-content now path raw get_data sm h = elim (Result-cases (get_cache_version path sm)) [
  | inl (e, missing) ↦ ((set_cache now path (or_empty raw) sm).0, rw (h, missing))
  | inr (version, there) ↦ (version, rw (h, there))
]

module _ {W : Type 0} (codec : Codec) (sorter : SortSlice) (patcher : Patcher) where
  -- Reading a key with no glob, which holds `v`, serves what the read filters make of `v`.
  read-served :
      (now : ℤ) (req : Request) (app : Server MemoryStorage W) (v served : Bytes)
      → is_valid req.key ≡ true
      → app.audit req ≡ true
      → req.is_websocket ≡ false
      → contains req.key (codes "*") ≡ false
      → load req.key app.storage.mem ≡ some v
      → check app.filters.on_read req.key (or_empty v) app.is_static ≡ ok served
      → bytes_eq (or_empty served) empty_object ≡ false
      → (read (memory_database codec sorter) codec now req app).0
        ≡ answered (record { status = 200; body = or_empty served })
  unfolding read fetch get_filtered_data
  read-served now req app v served valid approved plain one holds filtered full =
      let got : get codec sorter req.key app.storage ≡ ok v =
        ((get_lem codec sorter req.key app.storage).1 one).0 _ holds in
      let fresh : get_filtered_data (memory_database codec sorter) app req.key ≡ ok served =
        rw got filtered in
      let (version, refreshed) =
        refresh-content now req.key served (get_filtered_data (memory_database codec sorter) app)
          app.stream fresh in
      rw (read, valid, approved, plain, fetch, check-ok _ _ _ _ _ filtered, refreshed, full) refl

  -- An accepted request to publish under a key with no glob answers 200 with the index, and an
  -- approved GET of that key that comes next answers 200 with what the read filters make of the
  -- stored object, whatever the streams had cached. The storage was started, the key is valid, and
  -- the filters let the object through and do not make it the empty object.
  pub publish-read :
      (built now later : ℤ) (req req' : Request) (app : Server MemoryStorage W)
      (content served : Bytes)
      → IsStarted app.storage
      → Accepts codec patcher built req app content
      → req'.key ≡ build built req.key
      → is_valid req'.key ≡ true
      → app.audit req' ≡ true
      → req'.is_websocket ≡ false
      → contains req'.key (codes "*") ≡ false
      → check app.filters.on_read req'.key
          (or_empty (stored codec now req'.key content app.storage))
          app.is_static
        ≡ ok served
      → bytes_eq (or_empty served) empty_object ≡ false
      → (app' : Server MemoryStorage W) × (publish
            (memory_database codec sorter)
            codec
            patcher
            built
            now
            req
            app
          ≡ returns (created_response (last_index req'.key), app'))
        × ((read (memory_database codec sorter) codec later req' app').0
            ≡ answered (record { status = 200; body = or_empty served }))
  unfolding publish
  publish-read built now later req req' app content served s a same valid approved plain one
        filtered full =
      let (db', wrote, holds, _) = set-stored codec now req'.key content app.storage s in
      let app' = record app {
        storage = db';
        world = check_watchers app.filters.after_write req'.key app.world;
      } in
      (
        app',
        rw (publish, a.publishable, a.approved, a.decoded, a.filtered, sym same, wrote) refl,
        read-served later req' app' (stored codec now req'.key content app.storage) served valid
            approved plain one holds filtered full,
      )
