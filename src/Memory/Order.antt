-- ===== src/Memory/Order.antt =====
-- The order of `Sort` in objects/objects.go, and the first elements of an ordered slice.
use katamari.Base.{
  ℕ, zero, suc, ◌≤◌, ◌≡◌, refl, sym, ◌⊎◌, inl, inr, Bool, false, List, [], ◌∷◌, ◌++◌, arith, ltb,
  length, take, drop, All, Bool-cases,
}
use katamari.Base.Int.{ltℤ-asymm, ltℤ-cotrans}
use katamari.Objects.{Object, max, sort_less}
use katamari.Memory.Sorting.{IsWeakOrder, Ordered}
use katamari.Memory.{limited}

sort_less-cotrans :
    (a b c : Object) → sort_less b a ≡ false → sort_less c b ≡ false → sort_less c a ≡ false
unfolding sort_less
sort_less-cotrans a b c h k =
    ltℤ-cotrans (max a.updated a.created) (max b.updated b.created) (max c.updated c.created) h k

-- The order by the later timestamp is a strict weak order, as sort.Slice asks.
pub sort_less-IsWeakOrder : IsWeakOrder sort_less
unfolding sort_less
sort_less-IsWeakOrder = record {
  asymm = λ a b h. ltℤ-asymm (max b.updated b.created) (max a.updated a.created) h;
  cotrans = sort_less-cotrans;
}

module _ {A : Type 0} where
  take_all : (n : ℕ) (xs : List A) → length xs ≤ n → take n xs ≡ xs
  take_all zero [] h = refl
  take_all zero (x ∷ xs) h = absurd (omega arith)
  take_all (suc n) [] h = refl
  take_all (suc n) (x ∷ xs) h = rw (take_all n xs (omega arith))

  pub take-append-drop : (n : ℕ) (xs : List A) → take n xs ++ drop n xs ≡ xs
  take-append-drop zero xs = refl
  take-append-drop (suc n) [] = refl
  take-append-drop (suc n) (x ∷ xs) = rw (take-append-drop n xs)

  All-take : (P : A → Type 0) (n : ℕ) (xs : List A) → All P xs → All P (take n xs)
  All-take P zero xs h = tt
  All-take P (suc n) [] h = tt
  All-take P (suc n) (x ∷ xs) h = (h.0, All-take P n xs h.1)

  All-drop : (P : A → Type 0) (n : ℕ) (xs : List A) → All P xs → All P (drop n xs)
  All-drop P zero xs h = h
  All-drop P (suc n) [] h = tt
  All-drop P (suc n) (x ∷ xs) h = All-drop P n xs h.1

  All-both : (P Q : A → Type 0) (xs : List A) → All P xs → All Q xs → All (λ x. P x × Q x) xs
  All-both P Q [] h k = tt
  All-both P Q (x ∷ xs) h k = ((h.0, k.0), All-both P Q xs h.1 k.1)

  All-always : (P : A → Type 0) (xs : List A) → ((x : A) → P x) → All P xs
  All-always P [] h = tt
  All-always P (x ∷ xs) h = (h x, All-always P xs h)

  pub Ordered-take :
      (less : A → A → Bool) (n : ℕ) (xs : List A) → Ordered less xs → Ordered less (take n xs)
  Ordered-take less zero xs h = tt
  Ordered-take less (suc n) [] h = tt
  Ordered-take less (suc n) (x ∷ xs) h =
      (All-take (λ y. less y x ≡ false) n xs h.0, Ordered-take less n xs h.1)

  -- What is cut off goes before nothing that is kept.
  pub Ordered-cut :
      (less : A → A → Bool) (n : ℕ) (xs : List A)
      → Ordered less xs
      → All (λ y. All (λ x. less y x ≡ false) (take n xs)) (drop n xs)
  Ordered-cut less zero xs h = All-always _ xs (λ x. tt)
  Ordered-cut less (suc n) [] h = tt
  Ordered-cut less (suc n) (x ∷ xs) h =
      All-both (λ y. less y x ≡ false) _ (drop n xs) (All-drop _ n xs h.0)
        (Ordered-cut less n xs h.1)

  pub cut-full : (n : ℕ) (xs : List A) → (length (take n xs) ≡ n) ⊎ (drop n xs ≡ [])
  cut-full zero xs = inl refl
  cut-full (suc n) [] = inr refl
  cut-full (suc n) (x ∷ xs) = elim (cut-full n xs) [ inl e ↦ inl (rw e) | inr e ↦ inr e ]

pub limited-take : (n : ℕ) (xs : List Object) → limited n xs ≡ take n xs
unfolding limited
limited-take n xs = elim (Bool-cases (ltb n (length xs))) [
  | inl e ↦ rw e
  | inr e ↦ rw (limited, e) (sym (take_all n xs (ground arith)))
]
