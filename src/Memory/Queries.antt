-- ===== src/Memory/Queries.antt =====
-- What the reading calls of memory.go return: `Get`, `GetN`, `GetNRange` and `KeysRange`.
use mathlib.Core.List.{Perm}
use katamari.Base.{
  ℕ, ◌≤◌, ◌≡◌, refl, sym, ap, subst, if◌then◌else◌, ◌∙◌, ◌↔◌, false≢true, ◌⊎◌, inl, inr, Bool, true,
  false, List, [], ◌∷◌, ◌++◌, Option, none, some, length, drop, length-take-le, In, All, Bool-cases,
}
use katamari.Base.Int.{ℤ, ltℤ}
use katamari.Base.Picked.{Picked, ends, gives, drops}
use katamari.Key.{match}
use katamari.Base.Text.{Bytes, bytes_eq, bytes_eq_iff}
use katamari.Objects.{Object, max, sort_less}
use katamari.Memory.Map.{Entries, load, keys}
use katamari.Memory.Sorting.{SortSlice, Ordered}
use katamari.Memory.Order.{
  sort_less-IsWeakOrder, take-append-drop, Ordered-take, Ordered-cut, cut-full, limited-take,
}
use katamari.Memory.{collect, limited, add_decoded}

-- the later of the times at which an object was created and updated
abbrev pub latest : Object → ℤ
latest o = if ltℤ o.created o.updated then o.updated else o.created

abbrev pub is_newer : Object → Object → Bool
is_newer a b = ltℤ (latest b) (latest a)

-- The code's order is this one.
sort_less-is_newer : sort_less ≡ is_newer
unfolding sort_less max
sort_less-is_newer = refl

-- `res` holds the `n` newest of `all`, newest first; `rest` are the others.
pub record IsNewest (n : ℕ) (res all : List Object) : Type 0 where
  pub rest : List Object
  pub parts : Perm (res ++ rest) all
  pub ordered : Ordered is_newer res
  pub newest : All (λ y. All (λ x. is_newer y x ≡ false) res) rest
  pub bounded : length res ≤ n
  pub full : (length res ≡ n) ⊎ (rest ≡ [])

module _ (sorter : SortSlice) where
  abbrev pub sorted : List Object → List Object
  sorted all = sorter.sort sort_less all

  pub sorted-Ordered : (all : List Object) → Ordered is_newer (sorted all)
  sorted-Ordered all =
      subst (λ less. Ordered less (sorted all)) sort_less-is_newer
        (sorter.sort-Ordered sort_less all sort_less-IsWeakOrder)

  pub limited-IsNewest :
      (n : ℕ) (all : List Object) → IsNewest n (limited n (sorter.sort sort_less all)) all
  limited-IsNewest n all = rw limited-take (record {
    rest = drop n (sorted all);
    parts = rw take-append-drop (sorter.sort-Perm sort_less all);
    ordered = Ordered-take is_newer n (sorted all) (sorted-Ordered all);
    newest = Ordered-cut is_newer n (sorted all) (sorted-Ordered all);
    bounded = length-take-le n (sorted all);
    full = cut-full n (sorted all);
  })

-- `all` are the objects of the entries that match the path and decode, one of each.
abbrev pub Gathered : (Bytes → Object × Option Bytes) → Bytes → Entries → List Object → Type 0
Gathered read path =
    Picked (λ e o. (match path e.0 ≡ true) × (read e.1 ≡ (o, none)))
      (λ e. (match path e.0 ≡ false) ⊎ ((o : Object) × (x : Bytes) × (read e.1 ≡ (o, some x))))

read_cases :
    (r : Object × Option Bytes)
    → ((o : Object) × (r ≡ (o, none))) ⊎ ((o : Object) × (x : Bytes) × (r ≡ (o, some x)))
read_cases (o, none) = inl (o, refl)
read_cases (o, some x) = inr (o, x, refl)

pub collect-Gathered :
    (read : Bytes → Object × Option Bytes) (path : Bytes) (m : Entries)
    → Gathered read path m (collect read (match path) m)
unfolding collect
collect-Gathered read path [] = ends
collect-Gathered read path ((k, v) ∷ m) = elim (Bool-cases (match path k)) [
  | inr other ↦ rw other (drops (inl other) (collect-Gathered read path m))
  | inl matches ↦ elim (read_cases (read v)) [
    | inl (o, fine) ↦ rw (matches, fine) (gives (matches, fine) (collect-Gathered read path m))
    | inr (o, x, failed) ↦
        rw (matches, failed) (drops (inr (o, x, failed)) (collect-Gathered read path m))
  ]
]

-- an object that decodes joins the result, and nothing else does
add_decoded_cases :
    (r : Object × Option Bytes) (o : Object) (rest : List Object)
    → In o (add_decoded r rest)
    → (r ≡ (o, none)) ⊎ In o rest
add_decoded_cases (obj, none) o rest (inl e) = inl (rw e)
add_decoded_cases (obj, none) o rest (inr i) = inr i
add_decoded_cases (obj, some e) o rest i = inr i

add_decoded_self :
    (r : Object × Option Bytes) (o : Object) (rest : List Object)
    → r ≡ (o, none)
    → In o (add_decoded r rest)
add_decoded_self r o rest e = rw e (inl refl)

add_decoded_rest :
    (r : Object × Option Bytes) (o : Object) (rest : List Object)
    → In o rest
    → In o (add_decoded r rest)
add_decoded_rest (obj, none) o rest i = inr i
add_decoded_rest (obj, some e) o rest i = i

-- `o` is read from an entry whose key passes the test.
abbrev pub ReadFrom : (Bytes → Object × Option Bytes) → (Bytes → Bool) → Entries → Object → Type 0
ReadFrom read test m o =
    (k : Bytes) × (v : Bytes) × In (k, v) m × (test k ≡ true) × (read v ≡ (o, none))

module _ (read : Bytes → Object × Option Bytes) (test : Bytes → Bool) where
  collect-ReadFrom :
      (m : Entries) (o : Object) → In o (collect read test m) → ReadFrom read test m o
  unfolding collect
  collect-ReadFrom [] o h = absurd h
  collect-ReadFrom ((k, v) ∷ m) o h = elim (Bool-cases (test k)) [
    | inl t ↦ elim (add_decoded_cases (read v) o _ (rw t at h)) [
      | inl e ↦ (k, v, inl refl, t, e)
      | inr i ↦ let (j, w, there, p, e) = collect-ReadFrom m o i in (j, w, inr there, p, e)
    ]
    | inr f ↦ let (j, w, there, p, e) = collect-ReadFrom m o (rw f at h) in (j, w, inr there, p, e)
  ]

  ReadFrom-collect :
      (m : Entries) (o : Object) → ReadFrom read test m o → In o (collect read test m)
  unfolding collect
  ReadFrom-collect [] o (k, v, there, p, e) = absurd there
  ReadFrom-collect ((j, w) ∷ m) o (k, v, inl q, p, e) =
      let p' : test j ≡ true = ap test (sym (ap (λ (x : Bytes × Bytes). x.0) q)) ∙ p in
      let e' : read w ≡ (o, none) = ap read (sym (ap (λ (x : Bytes × Bytes). x.1) q)) ∙ e in
      rw p' (add_decoded_self (read w) o _ e')
  ReadFrom-collect ((j, w) ∷ m) o (k, v, inr i, p, e) =
      let ih = ReadFrom-collect m o (k, v, i, p, e) in
      elim (Bool-cases (test j)) [
        | inl t ↦ rw t (add_decoded_rest (read w) o _ ih)
        | inr f ↦ rw f ih
      ]

  -- The objects that `Get`, `GetN` and `GetNRange` gather are those of the entries that match and
  -- decode, each of them and no other.
  collect_iff : (m : Entries) (o : Object) → In o (collect read test m) ↔ ReadFrom read test m o
  collect_iff m o = (collect-ReadFrom m o, ReadFrom-collect m o)

pub keys-load : (k : Bytes) (m : Entries) → In k (keys m) → (v : Bytes) × (load k m ≡ some v)
unfolding keys load
keys-load k [] h = absurd h
keys-load k ((j, w) ∷ m) h = elim (Bool-cases (bytes_eq j k)) [
  | inl e ↦ (w, rw e)
  | inr n ↦ rw n (
      keys-load k m
        (elim h [ inl q ↦ absurd (false≢true (sym n ∙ (bytes_eq_iff j k).1 (sym q))) | inr i ↦ i ]))
]

pub load-keys : (k : Bytes) (m : Entries) (v : Bytes) → load k m ≡ some v → In k (keys m)
unfolding keys load
load-keys k [] v h = absurd (cc)
load-keys k ((j, w) ∷ m) v h = elim (Bool-cases (bytes_eq j k)) [
  | inl e ↦ inl (sym ((bytes_eq_iff j k).0 e))
  | inr n ↦ inr (load-keys k m v (rw n at h))
]
