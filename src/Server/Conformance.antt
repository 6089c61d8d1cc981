-- ===== src/Server/Conformance.antt =====
-- The storage of memory.go under the test of storageTest.go.
use katamari.Base.{
  ◌≡◌, refl, ap, ◌∙◌, true, false, Option, none, some, ok, Outcome, returns, panics, blocks,
}
use katamari.Base.Int.{ℤ, pos}
use katamari.Base.Text.{Bytes, codes, bytes_eq, bytes_eq_refl, contains, after_last_index}
use katamari.Key.{last_index}
use katamari.Objects.{Object, Codec, decode_raw, new}
use katamari.Storage.Suite.{path, second_part, third_part, storage_object_test}
use katamari.Memory.Map.{load, delete, load-delete, load-restrict}
use katamari.Memory.Sorting.{SortSlice}
use katamari.Memory.Spec.{Store, dated, next_object}
use katamari.Memory.Refine.{
  view, IsStarted, notified, notify-notified, notified-IsStarted, view-notified, state_of, exec,
  set-Implements, restrict-IsStarted,
}
use katamari.Memory.Stamps.{RoundTrips, contents_at, contents-sets, written}
use katamari.Memory.{MemoryStorage, set, del, clear, get, with_result}
use katamari.Server.InMemory.{memory_database}

with_result-state :
    {A : Type 0} (a : A) (m : Outcome MemoryStorage) (db : MemoryStorage)
    → state_of (with_result a m) ≡ returns db
    → with_result a m ≡ returns (a, db)
with_result-state a (returns d) db h = cc
with_result-state a panics db h = cc
with_result-state a blocks db h = cc

-- what a `Set` of a started storage returns and leaves under its key
set-load :
    (codec : Codec) (now : ℤ) (k content : Bytes) (db : MemoryStorage)
    → IsStarted db
    → (db' : MemoryStorage) × (set codec now k content db ≡ returns (last_index k, db'))
      × IsStarted db'
      × (load k db'.mem ≡ some (new codec (next_object codec now k content (load k db.mem))))
unfolding exec set view
set-load codec now k content db s =
    let (db', ran, s', viewed) = set-Implements codec now k content db s in
    (
      db',
      with_result-state (last_index k) _ db' ran,
      s',
      ap (λ (a : Store). a.contents k) viewed ∙ contents-sets codec now k content (view db),
    )

-- what a `Del` of a key that is there leaves under it
del-load :
    (k v : Bytes) (db : MemoryStorage)
    → IsStarted db
    → contains k (codes "*") ≡ false
    → load k db.mem ≡ some v
    → (db' : MemoryStorage) × (del k db ≡ returns (ok tt, db'))
      × IsStarted db'
      × (load k db'.mem ≡ none)
unfolding del delete view
del-load k v db s one there =
    let db1 = record db { mem = delete k db.mem } in
    let s1 : IsStarted db1 = restrict-IsStarted _ db s in
    (
      notified k (codes "del") db1,
      simp (del, one, there, notify-notified k (codes "del") db1 s1),
      notified-IsStarted k (codes "del") db1 s1,
      ap (λ (a : Store). a.contents k) (view-notified k (codes "del") db1)
          ∙ contents_at k (codes "del") (view db1)
          ∙ load-delete k k db.mem
          ∙ rw (bytes_eq_refl k) refl,
    )

dated-content :
    (now : ℤ) (k content : Bytes) (read : Object × Option Bytes)
    → (dated now k content read).content ≡ content
dated-content now k content (old, none) = refl
dated-content now k content (old, some e) = refl

next_object-content :
    (codec : Codec) (now : ℤ) (k content : Bytes) (o : Option Bytes)
    → (next_object codec now k content o).content ≡ content
next_object-content codec now k content none = refl
next_object-content codec now k content (some v) = dated-content now k content (decode_raw codec v)

module _ (codec : Codec) (sorter : SortSlice) (trips : RoundTrips codec) where
  -- the part of the test from its deletion on
  third_part-passes :
      (v : Bytes) (db : MemoryStorage)
      → IsStarted db
      → load path db.mem ≡ some v
      → (db' : MemoryStorage) × (third_part (memory_database codec sorter) codec db
          ≡ returns (true, db'))
        × IsStarted db'
  unfolding get contains
  third_part-passes v db s there =
      let (db1, ran, s1, gone) = del-load path v db s refl there in (db1, rw (ran, gone) refl, s1)

  -- the part of the test from its second write on
  second_part-passes :
      (later : ℤ) (v : Bytes) (db : MemoryStorage)
      → IsStarted db
      → load path db.mem ≡ some v
      → (db' : MemoryStorage) × (second_part (memory_database codec sorter) codec later db
          ≡ returns (true, db'))
        × IsStarted db'
  unfolding get contains bytes_eq last_index after_last_index decode_raw new
  second_part-passes later v db s there =
      let (db1, ran, s1, stored) = set-load codec later path (codes "test_update") db s in
      let (db2, passed, s2) = third_part-passes _ db1 s1 stored in
      (
        db2,
        rw
            (
              ran,
              stored,
              trips (next_object codec later path (codes "test_update") (load path db.mem)),
              next_object-content codec later path (codes "test_update") (load path db.mem),
            )
            passed,
        s2,
      )

  -- A started storage in memory passes StorageObjectTest, whatever it holds and at any two times,
  -- and is still started behind it: the first object that is set is read back, never updated, the
  -- second one is read back, and once it is deleted nothing is. JSON is taken to round-trip.
  pub storage_object_test-passes :
      (now later : ℤ) (db : MemoryStorage)
      → IsStarted db
      → (db' : MemoryStorage) × (storage_object_test
            (memory_database codec sorter)
            codec
            now
            later
            db
          ≡ returns (true, db'))
        × IsStarted db'
  unfolding storage_object_test get contains bytes_eq last_index after_last_index decode_raw new
      clear
  storage_object_test-passes now later db s =
      let (db1, ran, s1, stored) =
        set-load codec now path (codes "test") (clear db) (restrict-IsStarted (λ _. false) db s) in
      let empty : load path (clear db).mem ≡ none = load-restrict (λ _. false) path db.mem in
      let first : load path db1.mem ≡ some (new codec (written now (pos 0) path (codes "test"))) =
        stored ∙ ap (λ o. some (new codec (next_object codec now path (codes "test") o))) empty in
      let (db2, passed, s2) = second_part-passes later _ db1 s1 first in
      (db2, rw (ran, first, trips (written now (pos 0) path (codes "test"))) passed, s2)
