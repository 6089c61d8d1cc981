-- ===== src/Server/Removing.antt =====
-- What was removed by one request is not there for the next, with the storage of memory.go.
use katamari.Base.{◌≡◌, refl, sym, ap, ◌∙◌, true, false, none, some, ok, err, returns, ◌++◌}
use katamari.Base.Int.{ℤ}
use katamari.Base.Text.{Bytes, codes, contains, bytes_eq, bytes_eq_refl}
use katamari.Key.{is_valid, match}
use katamari.Objects.{Codec, empty_object}
use katamari.Filters.{check, check_hooks}
use katamari.Filters.Checks.{check-ok}
use katamari.Memory.Map.{load, delete}
use katamari.Memory.Sorting.{SortSlice}
use katamari.Memory.Spec.{announce, deletes, forget, spec_step}
use katamari.Memory.Refine.{view, IsStarted, exec, state_of}
use katamari.Memory.Runs.{exec-Implements}
use katamari.Memory.Stamps.{contents_at}
use katamari.Memory.Answers.{get_lem}
use katamari.Memory.{MemoryStorage, del, get, notify, with_result}
use katamari.Server.{Request, answered, Server, get_filtered_data, fetch}
use katamari.Server.InMemory.{memory_database}
use katamari.Server.Rest.{unpublish, read}
use katamari.Server.Serving.{refresh-content, with_result-state_of}

match_self : (path : Bytes) → match path path ≡ true
unfolding match
match_self path = rw (match, bytes_eq_refl path) refl

del-gone :
    (codec : Codec) (key v : Bytes) (db : MemoryStorage)
    → IsStarted db
    → contains key (codes "*") ≡ false
    → load key db.mem ≡ some v
    → (db' : MemoryStorage) × (del key db ≡ returns (ok tt, db')) × (load key db'.mem ≡ none)
unfolding exec view del spec_step
del-gone codec key v db s one there =
    let (db', ran, _, viewed) = exec-Implements codec (deletes key) db s in
    let told = notify key (codes "del") (record db { mem = delete key db.mem }) in
    let step : del key db ≡ with_result (ok tt) told = rw (del, one, there) refl in
    let kept : spec_step codec (deletes key) (view db)
        ≡ announce key (codes "del") (forget key (view db)) =
      rw there refl in
    (
      db',
      step ∙ with_result-state_of (ok tt) told db' (sym (ap state_of step) ∙ ran),
      ap (λ a. a.contents key) (viewed ∙ kept)
          ∙ contents_at key (codes "del") (forget key (view db))
          ∙ rw (match_self key) refl,
    )

module _ {W : Type 0} (codec : Codec) (sorter : SortSlice) where
  read-missing :
      (later : ℤ) (req : Request) (app : Server MemoryStorage W)
      → is_valid req.key ≡ true
      → app.audit req ≡ true
      → req.is_websocket ≡ false
      → contains req.key (codes "*") ≡ false
      → load req.key app.storage.mem ≡ none
      → check app.filters.on_read req.key empty_object app.is_static ≡ ok empty_object
      → (read (memory_database codec sorter) codec later req app).0
        ≡ answered (record { status = 404; body = codes "katamari: empty key" })
  unfolding read fetch get_filtered_data bytes_eq
  read-missing later req app valid approved plain one gone through =
      let missing : get codec sorter req.key app.storage ≡ err (codes "katamari: not found") =
        ((get_lem codec sorter req.key app.storage).1 one).1 gone in
      let empty : get_filtered_data (memory_database codec sorter) app req.key ≡ ok empty_object =
        rw missing through in
      let (version, refreshed) =
        refresh-content later req.key empty_object
          (get_filtered_data (memory_database codec sorter) app) app.stream empty in
      rw (read, valid, approved, plain, fetch, check-ok _ _ _ _ _ through, refreshed) refl

  -- A request to remove a key with no glob that holds a value, which is valid, approved and kept by
  -- no filter, answers 204, and an approved GET of the key that comes next answers 404. The storage
  -- was started, and the read filters let the empty object through as it is.
  pub unpublish-read :
      (later : ℤ) (req req' : Request) (app : Server MemoryStorage W) (v : Bytes)
      → IsStarted app.storage
      → is_valid req.key ≡ true
      → app.audit req ≡ true
      → check_hooks app.filters.on_delete req.key app.is_static ≡ ok tt
      → contains req.key (codes "*") ≡ false
      → load req.key app.storage.mem ≡ some v
      → req'.key ≡ req.key
      → app.audit req' ≡ true
      → req'.is_websocket ≡ false
      → check app.filters.on_read req.key empty_object app.is_static ≡ ok empty_object
      → (app' : Server MemoryStorage W) × (unpublish (memory_database codec sorter) req app
          ≡ returns (record { status = 204; body = codes "unpublish " ++ req.key }, app'))
        × ((read (memory_database codec sorter) codec later req' app').0
            ≡ answered (record { status = 404; body = codes "katamari: empty key" }))
  unfolding unpublish
  unpublish-read later req req' app v s valid approved free one holds same approved' plain through =
      let (db', deleted, gone) = del-gone codec req.key v app.storage s one holds in
      let app' = record app { storage = db' } in
      (
        app',
        rw (unpublish, valid, approved, free, deleted) refl,
        read-missing later req' app' (rw same valid) approved' plain (rw same one) (rw same gone)
            (rw same through),
      )
