-- ===== src/Memory/Answers.antt =====
-- The answers of the reading calls of memory.go, errors included.
use mathlib.Core.List.{Perm}
use katamari.Base.{
  ℕ, zero, suc, ◌≡◌, ap, ◌∙◌, ◌↔◌, none, true, false, ◌&&◌, List, some, arith, keep, In, In-keep,
  In-keep_inv, ok, err, and_iff,
}
use katamari.Base.Int.{ℤ, pos, negsuc, ltℤ}
use katamari.Base.Text.{Bytes, codes, contains}
use katamari.Key.{match}
use katamari.Objects.{encode-marshal, Object, Codec, sort_less, decode_raw}
use katamari.Objects
use katamari.Memory.Map.{load, keys}
use katamari.Memory.Sorting.{SortSlice, Ordered}
use katamari.Memory.Queries.{
  Gathered, collect-Gathered, is_newer, IsNewest, limited-IsNewest, sorted-Ordered, keys-load,
  load-keys,
}
use katamari.Memory.{
  MemoryStorage, collect, in_range, created_at, keys_range, get, get_n, get_n_range, found,
  invalid_pattern, invalid_limit,
}

-- A path without a star, or one of them.
abbrev pub IsGlob : Bytes → Type 0
IsGlob path = contains path (codes "*") ≡ true

module _ (codec : Codec) (sorter : SortSlice) where
  get-found :
      (path : Bytes) (db : MemoryStorage)
      → contains path (codes "*") ≡ false
      → get codec sorter path db ≡ found codec sorter (load path db.mem)
  unfolding get
  get-found path db one = rw (get, one)

  pub get-list :
      (path : Bytes) (db : MemoryStorage)
      → IsGlob path
      → get codec sorter path db
        ≡ codec.marshal_list
            (sorter.sort sort_less (collect (decode_raw codec) (match path) db.mem))
  unfolding get
  get-list path db glob =
      rw (get, glob)
        (encode-marshal codec.marshal_list
          (sorter.sort sort_less (collect (decode_raw codec) (match path) db.mem)))

  -- `Get` of a glob encodes the objects of the entries that match it and decode, one of each, those
  -- with the later time of creation or update first. `Get` of any other path returns what is stored
  -- under it, or "katamari: not found".
  pub get_lem :
      (path : Bytes) (db : MemoryStorage)
      → (IsGlob path
          → (all : List Object) × (objs : List Object) × (get codec sorter path db
              ≡ codec.marshal_list objs)
            × Gathered (decode_raw codec) path db.mem all
            × Perm objs all
            × Ordered is_newer objs)
        × (contains path (codes "*") ≡ false
            → ((v : Bytes) → load path db.mem ≡ some v → get codec sorter path db ≡ ok v)
              × (load path db.mem ≡ none
                  → get codec sorter path db ≡ err (codes "katamari: not found")))
  get_lem path db = (
    λ glob.
        let all = collect (decode_raw codec) (match path) db.mem in
        (
          all,
          sorter.sort sort_less all,
          get-list path db glob,
          collect-Gathered (decode_raw codec) path db.mem,
          sorter.sort-Perm sort_less all,
          sorted-Ordered sorter all,
        ),
    λ one. (
      λ v there. get-found path db one ∙ ap (found codec sorter) there,
      λ gone. get-found path db one ∙ ap (found codec sorter) gone,
    ),
  )

  -- `GetN` with a limit n ≥ 1 on a glob returns the n newest of the objects of the entries that match
  -- it and decode, those with the later time of creation or update first, or all of them where there
  -- are fewer.
  pub get_n-IsNewest :
      (path : Bytes) (n : ℕ) (db : MemoryStorage)
      → IsGlob path
      → (all : List Object) × (res : List Object) × (get_n codec sorter path (pos (suc n)) db
          ≡ ok res)
        × Gathered (Objects.decode codec) path db.mem all
        × IsNewest (suc n) res all
  unfolding get_n
  get_n-IsNewest path n db glob = (
    _,
    _,
    rw (get_n, glob),
    collect-Gathered (Objects.decode codec) path db.mem,
    limited-IsNewest sorter (suc n) _,
  )

  -- `GetNRange` with a limit n ≥ 1 on a glob returns the n newest, newest first, of the matching
  -- objects whose keys have their time in the range, or all of them where there are fewer.
  get_n_range-IsNewest :
      (path : Bytes) (n : ℕ) (from to : ℤ) (db : MemoryStorage)
      → IsGlob path
      → (res : List Object) × (get_n_range codec sorter path (pos (suc n)) from to db ≡ ok res)
        × IsNewest (suc n) res (
            collect
              (Objects.decode codec)
              (λ k. match path k && match path k && in_range from to k)
              db.mem)
  unfolding get_n_range
  get_n_range-IsNewest path n from to db glob =
      (_, rw (get_n_range, glob), limited-IsNewest sorter (suc n) _)

  -- `GetN` and `GetNRange` both answer a path without a star with "invalid pattern", and a glob
  -- with a limit of zero or less with "invalid limit".
  get_n_refuses :
      (path : Bytes) (limit from to : ℤ) (db : MemoryStorage)
      → (contains path (codes "*") ≡ false
          → (get_n codec sorter path limit db ≡ err invalid_pattern)
            × (get_n_range codec sorter path limit from to db ≡ err invalid_pattern))
        × (IsGlob path
            → ltℤ (pos 0) limit ≡ false
            → (get_n codec sorter path limit db ≡ err invalid_limit)
              × (get_n_range codec sorter path limit from to db ≡ err invalid_limit))
  unfolding get_n get_n_range
  get_n_refuses path (pos zero) from to db = (
    λ one. (rw (get_n, one), rw (get_n_range, one)),
    λ glob h. (rw (get_n, glob), rw (get_n_range, glob)),
  )
  get_n_refuses path (pos (suc n)) from to db =
      (λ one. (rw (get_n, one), rw (get_n_range, one)), λ glob h. absurd (ground arith))
  get_n_refuses path (negsuc n) from to db = (
    λ one. (rw (get_n, one), rw (get_n_range, one)),
    λ glob h. (rw (get_n, glob), rw (get_n_range, glob)),
  )

-- The time in the last segment of the key is not before `from` and not after `to`.
abbrev pub IsBetween : ℤ → ℤ → Bytes → Type 0
IsBetween from to k = (ltℤ (created_at k) from ≡ false) × (ltℤ to (created_at k) ≡ false)

in_range_iff : (from to : ℤ) (k : Bytes) → (in_range from to k ≡ true) ↔ IsBetween from to k
unfolding in_range
in_range_iff from to k = (λ h. ground arith, λ h. ground arith)

-- `KeysRange` of a glob and a range that is not empty lists exactly the stored keys that match the
-- path and have their time in the range.
pub keys_range_lem :
    (path : Bytes) (from to : ℤ) (db : MemoryStorage)
    → IsGlob path
    → ltℤ to from ≡ false
    → (res : List Bytes) × (keys_range path from to db ≡ ok res)
      × ((k : Bytes)
          → In k res ↔ (
              (v : Bytes) × (load k db.mem ≡ some v) × (match path k ≡ true) × IsBetween from to k))
unfolding keys_range
keys_range_lem path from to db glob range = (
  keep (λ k. match path k && in_range from to k) (keys db.mem),
  rw (keys_range, glob, range),
  λ k. (
    λ h.
        let (i, t) = In-keep_inv _ k (keys db.mem) h in
        let (v, e) = keys-load k db.mem i in
        let (m, r) = (and_iff (match path k) _).0 t in (v, e, m, (in_range_iff from to k).0 r),
    λ (v, e, m, r).
        In-keep _ k (keys db.mem) (load-keys k db.mem v e)
          ((and_iff (match path k) _).1 (m, (in_range_iff from to k).1 r)),
  ),
)
