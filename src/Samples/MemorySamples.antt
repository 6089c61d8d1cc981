-- ===== src/Samples/MemorySamples.antt =====
-- Tests of the storage of memory.go, and its theorems at concrete inputs.
use katamari.Base.{
  ◌≡◌, refl, ◌↔◌, true, false, List, [], ◌∷◌, ◌++◌, some, none, ok, err, returns, In,
}
use mathlib.Core.List.{Perm}
use katamari.Base.Int.{ℤ, pos}
use katamari.Base.Text.{bytes_eq, count, after_last_index, Bytes, codes, contains}
use katamari.Key.Glob.{filepath_match}
use katamari.Key.{last_index, match}
use katamari.Objects.{decode_raw, sort_less, Object, new}
use katamari.Objects
use katamari.Memory.Map.{load}
use katamari.Memory.Sorting.{insert, insertion_sort, by_insertion, Ordered}
use katamari.Memory.Spec.{Command, sets, deletes, spec_run}
use katamari.Memory.Refine.{view, IsStarted}
use katamari.Memory.Runs.{run, run-spec_run, start-IsStarted}
use katamari.Memory.Queries.{IsNewest, Gathered, is_newer}
use katamari.Memory.Answers.{IsBetween, get_lem, IsGlob, get_n-IsNewest, keys_range_lem}
use katamari.Memory.Stamps.{written, writes, run-writes}
use katamari.Memory.{
  is_active, get, limited, MemoryStorage, fresh, start, collect, get_n, keys_range,
}
use katamari.Storage.{watch_storage_noop}
use katamari.Storage.Suite.{storage_object_test}
use katamari.Server.InMemory.{memory_database}
use katamari.Server.Conformance.{storage_object_test-passes}
use katamari.Samples.ToyCodec.{toy_list, toy_codec, toy_round_trips}

abbrev pub started : MemoryStorage
started = start (record { no_broadcast_keys = [] }) fresh

abbrev two_calls : List Command
two_calls = sets (pos 3) (codes "a/b") (codes "x") ∷ deletes (codes "a/*") ∷ []

pub started-IsStarted : IsStarted started
started-IsStarted = start-IsStarted (record { no_broadcast_keys = [] })

run-spec_run_example :
    (db' : MemoryStorage) × (run toy_codec two_calls started ≡ returns db')
    × IsStarted db'
    × (view db' ≡ spec_run toy_codec two_calls (view started))
run-spec_run_example = run-spec_run toy_codec two_calls started started-IsStarted

-- three entries, at the times 3, 5 and 8; the last of them does not match `a/*`
abbrev entry : Bytes → ℤ → Bytes × Bytes
entry k t = (k, new toy_codec (written t (pos 0) k (codes "x")))

abbrev filled : MemoryStorage
filled = record started {
  mem =
      entry (codes "a/3") (pos 3) ∷ entry (codes "a/5") (pos 5) ∷ entry (codes "b/8") (pos 8) ∷ [];
}

get_n-IsNewest_example :
    (all : List Object) × (res : List Object) × (get_n toy_codec by_insertion
        (codes "a/*")
        (pos 1)
        filled
      ≡ ok res)
    × Gathered (Objects.decode toy_codec) (codes "a/*") filled.mem all
    × IsNewest 1 res all
unfolding contains
get_n-IsNewest_example = get_n-IsNewest toy_codec by_insertion (codes "a/*") 0 filled refl

keys_range_lem_example :
    (res : List Bytes) × (keys_range (codes "a/*") (pos 0) (pos 4) filled ≡ ok res)
    × ((k : Bytes)
        → In k res ↔ (
            (v : Bytes) × (load k filled.mem ≡ some v)
            × (match (codes "a/*") k ≡ true)
            × IsBetween (pos 0) (pos 4) k))
unfolding contains
keys_range_lem_example = keys_range_lem (codes "a/*") (pos 0) (pos 4) filled refl refl

run-writes_example :
    (db' : MemoryStorage) × (run toy_codec
        (sets (pos 3) (codes "a") (codes "x") ∷ writes (codes "a") []
          ++ sets (pos 8) (codes "a") (codes "y") ∷ [])
        started
      ≡ returns db')
    × (load (codes "a") db'.mem
        ≡ some (new toy_codec (written (pos 3) (pos 8) (codes "a") (codes "y"))))
unfolding load start
run-writes_example =
    run-writes toy_codec toy_round_trips (codes "a") (pos 3) (pos 8) (codes "x") (codes "y") []
      started started-IsStarted refl

get_lem_example :
    (IsGlob (codes "a/*")
      → (all : List Object) × (objs : List Object) × (get toy_codec by_insertion
            (codes "a/*")
            filled
          ≡ ok (toy_list objs))
        × Gathered (decode_raw toy_codec) (codes "a/*") filled.mem all
        × Perm objs all
        × Ordered is_newer objs)
    × (contains (codes "a/*") (codes "*") ≡ false
        → ((v : Bytes)
            → load (codes "a/*") filled.mem ≡ some v
            → get toy_codec by_insertion (codes "a/*") filled ≡ ok v)
          × (load (codes "a/*") filled.mem ≡ none
              → get toy_codec by_insertion (codes "a/*") filled
                ≡ err (codes "katamari: not found")))
get_lem_example = get_lem toy_codec by_insertion (codes "a/*") filled

newest_test :
    get_n toy_codec by_insertion (codes "a/*") (pos 1) filled
    ≡ ok (written (pos 5) (pos 0) (codes "a/5") (codes "x") ∷ [])
unfolding get_n contains collect match bytes_eq filepath_match count insertion_sort insert sort_less
    last_index after_last_index new Objects.decode limited
newest_test = refl

filled-IsStarted : IsStarted filled
unfolding start load bytes_eq
filled-IsStarted = record {
  distinct = (refl, (refl, (refl, tt)));
  started = λ e. cc;
  channel = λ e. refl;
}

storage_object_test-passes_example :
    (db' : MemoryStorage) × (storage_object_test
        (memory_database toy_codec by_insertion)
        toy_codec
        (pos 9)
        (pos 9)
        filled
      ≡ returns (true, db'))
    × IsStarted db'
storage_object_test-passes_example =
    storage_object_test-passes toy_codec by_insertion toy_round_trips (pos 9) (pos 9) filled
      filled-IsStarted

-- the first event that finds the storage closed ends the reader
noop_test :
    watch_storage_noop
      (memory_database toy_codec by_insertion)
      (started ∷ record started { active = some false } ∷ filled ∷ [])
    ≡ returns (filled ∷ [])
unfolding watch_storage_noop is_active start
noop_test = refl
