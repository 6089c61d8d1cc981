-- ===== src/Client/Width.antt =====
-- The managers of two, three and four channels against each other.
use katamari.Base.{◌≡◌, refl, ap, List, [], ◌∷◌, map}
use katamari.Client.{
  Meta, MultiState, Arrival2, Arrival3, Arrival4, manage2, manage3, manage4, fresh, kept,
}

module _ {T1 T2 T3 T4 : Type 0} where
  -- the same arrival at a manager of four channels, and the states without the further ones
  abbrev pub widen3 : Arrival3 T1 T2 T3 → Arrival4 T1 T2 T3 T4
  widen3 Arrival3.cancelled = Arrival4.cancelled
  widen3 (Arrival3.from1 m) = Arrival4.from1 m
  widen3 (Arrival3.from2 m) = Arrival4.from2 m
  widen3 (Arrival3.from3 m) = Arrival4.from3 m

  abbrev pub widen2 : Arrival2 T1 T2 → Arrival4 T1 T2 T3 T4
  widen2 Arrival2.cancelled = Arrival4.cancelled
  widen2 (Arrival2.from1 m) = Arrival4.from1 m
  widen2 (Arrival2.from2 m) = Arrival4.from2 m

  abbrev pub narrow3 :
      MultiState T1 × MultiState T2 × MultiState T3 × MultiState T4
      → MultiState T1 × MultiState T2 × MultiState T3
  narrow3 (a, b, c, d) = (a, b, c)

  abbrev pub narrow2 :
      MultiState T1 × MultiState T2 × MultiState T3 × MultiState T4 → MultiState T1 × MultiState T2
  narrow2 (a, b, c, d) = (a, b)

  manage3-widen :
      (s1 : List (Meta T1)) (s2 : List (Meta T2)) (s3 : List (Meta T3)) (s4 : List (Meta T4))
      (es : List (Arrival3 T1 T2 T3))
      → manage3 s1 s2 s3 es ≡ map narrow3 (manage4 s1 s2 s3 s4 (map widen3 es))
  unfolding manage3 manage4
  manage3-widen s1 s2 s3 s4 [] = refl
  manage3-widen s1 s2 s3 s4 (Arrival3.cancelled ∷ es) = refl
  manage3-widen s1 s2 s3 s4 (Arrival3.from1 m ∷ es) =
      ap (λ cs. (fresh m, kept s2, kept s3) ∷ cs) (manage3-widen m s2 s3 s4 es)
  manage3-widen s1 s2 s3 s4 (Arrival3.from2 m ∷ es) =
      ap (λ cs. (kept s1, fresh m, kept s3) ∷ cs) (manage3-widen s1 m s3 s4 es)
  manage3-widen s1 s2 s3 s4 (Arrival3.from3 m ∷ es) =
      ap (λ cs. (kept s1, kept s2, fresh m) ∷ cs) (manage3-widen s1 s2 m s4 es)

  manage2-widen :
      (s1 : List (Meta T1)) (s2 : List (Meta T2)) (s3 : List (Meta T3)) (s4 : List (Meta T4))
      (es : List (Arrival2 T1 T2))
      → manage2 s1 s2 es ≡ map narrow2 (manage4 s1 s2 s3 s4 (map widen2 es))
  unfolding manage2 manage4
  manage2-widen s1 s2 s3 s4 [] = refl
  manage2-widen s1 s2 s3 s4 (Arrival2.cancelled ∷ es) = refl
  manage2-widen s1 s2 s3 s4 (Arrival2.from1 m ∷ es) =
      ap (λ cs. (fresh m, kept s2) ∷ cs) (manage2-widen m s2 s3 s4 es)
  manage2-widen s1 s2 s3 s4 (Arrival2.from2 m ∷ es) =
      ap (λ cs. (kept s1, fresh m) ∷ cs) (manage2-widen s1 m s3 s4 es)

  -- The managers of two and of three channels call back as that of four channels does, where the
  -- further channels have no message; only the states of those are left out of the calls.
  narrow_lem :
      (s1 : List (Meta T1)) (s2 : List (Meta T2)) (s3 : List (Meta T3)) (s4 : List (Meta T4))
      → ((es : List (Arrival2 T1 T2))
          → manage2 s1 s2 es ≡ map narrow2 (manage4 s1 s2 s3 s4 (map widen2 es)))
        × ((es : List (Arrival3 T1 T2 T3))
            → manage3 s1 s2 s3 es ≡ map narrow3 (manage4 s1 s2 s3 s4 (map widen3 es)))
  narrow_lem s1 s2 s3 s4 = (manage2-widen s1 s2 s3 s4, manage3-widen s1 s2 s3 s4)
