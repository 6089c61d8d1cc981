-- ===== src/Base/Picked.antt =====
-- A list that is picked from another one: some items give one each, in their order, the rest none.
use mathlib.Core.List.{List, [], ◌∷◌}

-- `Gives a b`: the item `a` gives `b`; `Drops a`: it gives nothing.
pub data Picked {A B : Type 0} (Gives : A → B → Type 0) (Drops : A → Type 0)
    : List A → List B → Type 0 where
  ends : Picked Gives Drops [] []
  gives :
      {a : A} {b : B} {xs : List A} {ys : List B}
      → Gives a b
      → Picked Gives Drops xs ys
      → Picked Gives Drops (a ∷ xs) (b ∷ ys)
  drops :
      {a : A} {xs : List A} {ys : List B}
      → Drops a
      → Picked Gives Drops xs ys
      → Picked Gives Drops (a ∷ xs) ys
