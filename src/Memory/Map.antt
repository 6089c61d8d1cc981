-- ===== src/Memory/Map.antt =====
-- sync.Map, as memory.go uses it: entries in the order in which `Range` visits them, which the
-- documentation leaves open, so nothing is proved of that order.
use katamari.Base.{
  ◌≡◌, refl, Bool, true, false, List, [], ◌∷◌, Option, none, some, arith, if◌then◌else◌, Bool-cases,
  inl, inr, ◌∙◌,
}
use katamari.Base.Text.{Bytes, bytes_eq, bytes_eq_iff}

abbrev pub Entries : Type 0
Entries = List (Bytes × Bytes)

-- mem.Load(key)
unfoldable pub load : Bytes → Entries → Option Bytes
load k [] = none
load k ((j, v) ∷ m) = if bytes_eq j k then some v else load k m

-- mem.Store(key, value)
unfoldable pub store : Bytes → Bytes → Entries → Entries
store k v [] = (k, v) ∷ []
store k v ((j, w) ∷ m) = if bytes_eq j k then (k, v) ∷ m else (j, w) ∷ store k v m

-- the entries whose key passes the test: the others are given to mem.Delete
unfoldable pub restrict : (Bytes → Bool) → Entries → Entries
restrict p [] = []
restrict p ((j, w) ∷ m) = let rest = restrict p m in if p j then (j, w) ∷ rest else rest

abbrev pub other_than : Bytes → Bytes → Bool
other_than k j = if bytes_eq j k then false else true

-- mem.Delete(key)
unfoldable pub delete : Bytes → Entries → Entries
unfolding restrict
delete k m = restrict (other_than k) m

unfoldable pub keys : Entries → List Bytes
keys [] = []
keys ((j, w) ∷ m) = j ∷ keys m

pub load-store :
    (k j v : Bytes) (m : Entries)
    → load j (store k v m) ≡ (if bytes_eq k j then some v else load j m)
unfolding load store
load-store k j v [] = refl
load-store k j v ((i, w) ∷ m) =
    ground (arith, bytes_eq_iff k j, bytes_eq_iff i k, bytes_eq_iff i j, load-store k j v m)

pub load-restrict :
    (p : Bytes → Bool) (j : Bytes) (m : Entries)
    → load j (restrict p m) ≡ (if p j then load j m else none)
unfolding load restrict
load-restrict p j [] = ground arith
load-restrict p j ((i, w) ∷ m) = ground (arith, bytes_eq_iff i j, load-restrict p j m)

pub load-delete :
    (k j : Bytes) (m : Entries) → load j (delete k m) ≡ (if bytes_eq j k then none else load j m)
unfolding delete
load-delete k j m = ground (arith, load-restrict (other_than k) j m)

-- No key stands twice.
abbrev pub Absent : Bytes → Entries → Type 0
Absent k m = load k m ≡ none

abbrev pub Distinct : Entries → Type 0
Distinct [] = Unit
Distinct ((k, v) ∷ m) = Absent k m × Distinct m

pub store-Distinct : (k v : Bytes) (m : Entries) → Distinct m → Distinct (store k v m)
unfolding store load
store-Distinct k v [] h = (refl, tt)
store-Distinct k v ((j, w) ∷ m) h = elim (Bool-cases (bytes_eq j k)) [
  | inl e ↦ rw e (rw ((bytes_eq_iff j k).0 e) at h.0, h.1)
  | inr e ↦
      let e' : bytes_eq k j ≡ false = ground (arith, bytes_eq_iff k j, bytes_eq_iff j k) in
      rw e (rw (load-store, e') h.0, store-Distinct k v m h.1)
]

pub restrict-Distinct : (p : Bytes → Bool) (m : Entries) → Distinct m → Distinct (restrict p m)
unfolding restrict
restrict-Distinct p [] h = tt
restrict-Distinct p ((j, w) ∷ m) h = elim (Bool-cases (p j)) [
  | inl e ↦ rw e (load-restrict p j m ∙ rw e h.0, restrict-Distinct p m h.1)
  | inr e ↦ rw e (restrict-Distinct p m h.1)
]
