-- ===== src/Memory/Sorting.antt =====
-- sort.Slice, which memory.go calls: a permutation of the slice in which no element goes before
-- one that stands earlier. The order of equal elements is left open, as its documentation says.
use mathlib.Core.List.{Perm}
use mathlib.Core.List.Perm
use katamari.Base.{◌≡◌, Bool, true, false, List, [], ◌∷◌, if◌then◌else◌, Bool-cases, inl, inr, All}

-- No element may go before one that stands earlier.
abbrev pub Ordered : {A : Type 0} → (A → A → Bool) → List A → Type 0
Ordered less [] = Unit
Ordered less (x ∷ xs) = All (λ y. less y x ≡ false) xs × Ordered less xs

-- `less` is a strict weak order, as sort.Slice asks.
pub record IsWeakOrder {A : Type 0} (less : A → A → Bool) : Type 0 where
  pub asymm : (a b : A) → less a b ≡ true → less b a ≡ false
  pub cotrans : (a b c : A) → less b a ≡ false → less c b ≡ false → less c a ≡ false

pub record SortSlice : Type 1 where
  pub sort : {A : Type 0} → (A → A → Bool) → List A → List A
  pub sort-Perm : {A : Type 0} (less : A → A → Bool) (xs : List A) → Perm (sort less xs) xs
  pub sort-Ordered :
      {A : Type 0} (less : A → A → Bool) (xs : List A)
      → IsWeakOrder less
      → Ordered less (sort less xs)

-- Insertion sort has these properties.
module _ {A : Type 0} (less : A → A → Bool) where
  unfoldable pub insert : A → List A → List A
  insert x [] = x ∷ []
  insert x (y ∷ ys) = if less y x then y ∷ insert x ys else x ∷ y ∷ ys

  unfoldable pub insertion_sort : List A → List A
  insertion_sort [] = []
  insertion_sort (x ∷ xs) = insert x (insertion_sort xs)

  insert-Perm : (x : A) (ys : List A) → Perm (insert x ys) (x ∷ ys)
  unfolding insert
  insert-Perm x [] = Perm.refl (x ∷ [])
  insert-Perm x (y ∷ ys) = elim (Bool-cases (less y x)) [
    | inl e ↦ rw e (Perm.trans (Perm.cons y (insert-Perm x ys)) (Perm.swap x y ys))
    | inr e ↦ rw e (Perm.refl _)
  ]

  pub insertion_sort-Perm : (xs : List A) → Perm (insertion_sort xs) xs
  unfolding insertion_sort
  insertion_sort-Perm [] = Perm.refl []
  insertion_sort-Perm (x ∷ xs) =
      Perm.trans (insert-Perm x (insertion_sort xs)) (Perm.cons x (insertion_sort-Perm xs))

  All-insert : (P : A → Type 0) (x : A) (ys : List A) → P x → All P ys → All P (insert x ys)
  unfolding insert
  All-insert P x [] h k = (h, tt)
  All-insert P x (y ∷ ys) h k = elim (Bool-cases (less y x)) [
    | inl e ↦ rw e (k.0, All-insert P x ys h k.1)
    | inr e ↦ rw e (h, k)
  ]

  All-weaken :
      (w : IsWeakOrder less) (x y : A) (ys : List A)
      → less y x ≡ false
      → All (λ z. less z y ≡ false) ys
      → All (λ z. less z x ≡ false) ys
  All-weaken w x y [] h k = tt
  All-weaken w x y (z ∷ zs) h k = (w.cotrans x y z h k.0, All-weaken w x y zs h k.1)

  insert-Ordered :
      (w : IsWeakOrder less) (x : A) (ys : List A) → Ordered less ys → Ordered less (insert x ys)
  unfolding insert
  insert-Ordered w x [] h = (tt, tt)
  insert-Ordered w x (y ∷ ys) h = elim (Bool-cases (less y x)) [
    | inl e ↦ rw e (All-insert _ x ys (w.asymm y x e) h.0, insert-Ordered w x ys h.1)
    | inr e ↦ rw e ((e, All-weaken w x y ys e h.0), h)
  ]

  pub insertion_sort-Ordered : (xs : List A) → IsWeakOrder less → Ordered less (insertion_sort xs)
  unfolding insertion_sort
  insertion_sort-Ordered [] w = tt
  insertion_sort-Ordered (x ∷ xs) w =
      insert-Ordered w x (insertion_sort xs) (insertion_sort-Ordered xs w)

abbrev pub by_insertion : SortSlice
by_insertion = record {
  sort = insertion_sort;
  sort-Perm = insertion_sort-Perm;
  sort-Ordered = insertion_sort-Ordered;
}
