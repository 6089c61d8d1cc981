-- ===== src/Client/Latest.antt =====
-- Each call of the callback has, for each channel, the latest message of that channel, and marks
-- the channel whose message it is.
use katamari.Base.{◌≡◌, refl, ap, Bool, true, false, List, [], ◌∷◌, ◌++◌, Option, none, some, All}
use katamari.Client.{
  Meta, MultiState, Arrival2, Arrival3, Arrival4, manage2, manage3, manage4, fresh, kept,
}

-- the latest of the messages that a channel has among the arrivals, and the first state if none
abbrev pub or_earlier : {B : Type 0} → B → Option B → B
or_earlier b none = b
or_earlier b (some c) = c

unfoldable pub latest : {A B : Type 0} → (A → Option B) → B → List A → B
latest channel b [] = b
latest channel b (a ∷ rest) = latest channel (or_earlier b (channel a)) rest

abbrev pub is_some : {B : Type 0} → Option B → Bool
is_some none = false
is_some (some b) = true

-- what the callback is to see of a channel when `e` arrives after `before`
abbrev pub seen :
    {A T : Type 0} → (A → Option (List (Meta T))) → List (Meta T) → List A → A → MultiState T
seen channel s before e = record {
  content = latest channel s (before ++ e ∷ []);
  updated = is_some (channel e);
}

module _ {T1 T2 : Type 0} where
  abbrev pub channel1_of2 : Arrival2 T1 T2 → Option (List (Meta T1))
  channel1_of2 (Arrival2.from1 m) = some m
  channel1_of2 _ = none

  abbrev pub channel2_of2 : Arrival2 T1 T2 → Option (List (Meta T2))
  channel2_of2 (Arrival2.from2 m) = some m
  channel2_of2 _ = none

  abbrev pub IsMessage2 : Arrival2 T1 T2 → Type 0
  IsMessage2 Arrival2.cancelled = ⊥
  IsMessage2 _ = Unit {0}

  pub manage2-latest :
      (s1 : List (Meta T1)) (s2 : List (Meta T2)) (before : List (Arrival2 T1 T2))
      (e : Arrival2 T1 T2)
      → All IsMessage2 before
      → IsMessage2 e
      → manage2 s1 s2 (before ++ e ∷ [])
        ≡ manage2 s1 s2 before
          ++ (seen channel1_of2 s1 before e, seen channel2_of2 s2 before e) ∷ []
  unfolding manage2 latest
  manage2-latest s1 s2 [] Arrival2.cancelled _ i = elim i [ ]
  manage2-latest s1 s2 (Arrival2.cancelled ∷ es) e (absent, h) i = elim absent [ ]
  manage2-latest s1 s2 [] (Arrival2.from1 m) _ _ = refl
  manage2-latest s1 s2 [] (Arrival2.from2 m) _ _ = refl
  manage2-latest s1 s2 (Arrival2.from1 m ∷ es) e (_, h) i =
      ap (λ cs. (fresh m, kept s2) ∷ cs) (manage2-latest m s2 es e h i)
  manage2-latest s1 s2 (Arrival2.from2 m ∷ es) e (_, h) i =
      ap (λ cs. (kept s1, fresh m) ∷ cs) (manage2-latest s1 m es e h i)

module _ {T1 T2 T3 : Type 0} where
  abbrev pub channel1_of3 : Arrival3 T1 T2 T3 → Option (List (Meta T1))
  channel1_of3 (Arrival3.from1 m) = some m
  channel1_of3 _ = none

  abbrev pub channel2_of3 : Arrival3 T1 T2 T3 → Option (List (Meta T2))
  channel2_of3 (Arrival3.from2 m) = some m
  channel2_of3 _ = none

  abbrev pub channel3_of3 : Arrival3 T1 T2 T3 → Option (List (Meta T3))
  channel3_of3 (Arrival3.from3 m) = some m
  channel3_of3 _ = none

  abbrev pub IsMessage3 : Arrival3 T1 T2 T3 → Type 0
  IsMessage3 Arrival3.cancelled = ⊥
  IsMessage3 _ = Unit {0}

  pub manage3-latest :
      (s1 : List (Meta T1)) (s2 : List (Meta T2)) (s3 : List (Meta T3))
      (before : List (Arrival3 T1 T2 T3)) (e : Arrival3 T1 T2 T3)
      → All IsMessage3 before
      → IsMessage3 e
      → manage3 s1 s2 s3 (before ++ e ∷ [])
        ≡ manage3 s1 s2 s3 before
          ++ (
            seen channel1_of3 s1 before e,
            seen channel2_of3 s2 before e,
            seen channel3_of3 s3 before e,
          )
            ∷ []
  unfolding manage3 latest
  manage3-latest s1 s2 s3 [] Arrival3.cancelled _ i = elim i [ ]
  manage3-latest s1 s2 s3 (Arrival3.cancelled ∷ es) e (absent, h) i = elim absent [ ]
  manage3-latest s1 s2 s3 [] (Arrival3.from1 m) _ _ = refl
  manage3-latest s1 s2 s3 [] (Arrival3.from2 m) _ _ = refl
  manage3-latest s1 s2 s3 [] (Arrival3.from3 m) _ _ = refl
  manage3-latest s1 s2 s3 (Arrival3.from1 m ∷ es) e (_, h) i =
      ap (λ cs. (fresh m, kept s2, kept s3) ∷ cs) (manage3-latest m s2 s3 es e h i)
  manage3-latest s1 s2 s3 (Arrival3.from2 m ∷ es) e (_, h) i =
      ap (λ cs. (kept s1, fresh m, kept s3) ∷ cs) (manage3-latest s1 m s3 es e h i)
  manage3-latest s1 s2 s3 (Arrival3.from3 m ∷ es) e (_, h) i =
      ap (λ cs. (kept s1, kept s2, fresh m) ∷ cs) (manage3-latest s1 s2 m es e h i)

module _ {T1 T2 T3 T4 : Type 0} where
  abbrev pub channel1 : Arrival4 T1 T2 T3 T4 → Option (List (Meta T1))
  channel1 (Arrival4.from1 m) = some m
  channel1 _ = none

  abbrev pub channel2 : Arrival4 T1 T2 T3 T4 → Option (List (Meta T2))
  channel2 (Arrival4.from2 m) = some m
  channel2 _ = none

  abbrev pub channel3 : Arrival4 T1 T2 T3 T4 → Option (List (Meta T3))
  channel3 (Arrival4.from3 m) = some m
  channel3 _ = none

  abbrev pub channel4 : Arrival4 T1 T2 T3 T4 → Option (List (Meta T4))
  channel4 (Arrival4.from4 m) = some m
  channel4 _ = none

  abbrev pub IsMessage4 : Arrival4 T1 T2 T3 T4 → Type 0
  IsMessage4 Arrival4.cancelled = ⊥
  IsMessage4 _ = Unit {0}

  -- Where only messages arrived, and then the message `e`, the call for `e` follows those for the
  -- messages before it. It has the latest message of every channel, or the state at the start where
  -- the channel has none yet, and only the channel of `e` is marked as updated.
  pub manage4-latest :
      (s1 : List (Meta T1)) (s2 : List (Meta T2)) (s3 : List (Meta T3)) (s4 : List (Meta T4))
      (before : List (Arrival4 T1 T2 T3 T4)) (e : Arrival4 T1 T2 T3 T4)
      → All IsMessage4 before
      → IsMessage4 e
      → manage4 s1 s2 s3 s4 (before ++ e ∷ [])
        ≡ manage4 s1 s2 s3 s4 before
          ++ (
            seen channel1 s1 before e,
            seen channel2 s2 before e,
            seen channel3 s3 before e,
            seen channel4 s4 before e,
          )
            ∷ []
  unfolding manage4 latest
  manage4-latest s1 s2 s3 s4 [] Arrival4.cancelled _ i = elim i [ ]
  manage4-latest s1 s2 s3 s4 (Arrival4.cancelled ∷ es) e (absent, h) i = elim absent [ ]
  manage4-latest s1 s2 s3 s4 [] (Arrival4.from1 m) _ _ = refl
  manage4-latest s1 s2 s3 s4 [] (Arrival4.from2 m) _ _ = refl
  manage4-latest s1 s2 s3 s4 [] (Arrival4.from3 m) _ _ = refl
  manage4-latest s1 s2 s3 s4 [] (Arrival4.from4 m) _ _ = refl
  manage4-latest s1 s2 s3 s4 (Arrival4.from1 m ∷ es) e (_, h) i =
      ap (λ cs. (fresh m, kept s2, kept s3, kept s4) ∷ cs) (manage4-latest m s2 s3 s4 es e h i)
  manage4-latest s1 s2 s3 s4 (Arrival4.from2 m ∷ es) e (_, h) i =
      ap (λ cs. (kept s1, fresh m, kept s3, kept s4) ∷ cs) (manage4-latest s1 m s3 s4 es e h i)
  manage4-latest s1 s2 s3 s4 (Arrival4.from3 m ∷ es) e (_, h) i =
      ap (λ cs. (kept s1, kept s2, fresh m, kept s4) ∷ cs) (manage4-latest s1 s2 m s4 es e h i)
  manage4-latest s1 s2 s3 s4 (Arrival4.from4 m ∷ es) e (_, h) i =
      ap (λ cs. (kept s1, kept s2, kept s3, fresh m) ∷ cs) (manage4-latest s1 s2 s3 m es e h i)

  -- After the context has ended, no call is made, whatever arrives.
  manage4-cancelled :
      (s1 : List (Meta T1)) (s2 : List (Meta T2)) (s3 : List (Meta T3)) (s4 : List (Meta T4))
      (before behind : List (Arrival4 T1 T2 T3 T4))
      → manage4 s1 s2 s3 s4 (before ++ Arrival4.cancelled ∷ behind) ≡ manage4 s1 s2 s3 s4 before
  unfolding manage4
  manage4-cancelled s1 s2 s3 s4 [] behind = refl
  manage4-cancelled s1 s2 s3 s4 (Arrival4.cancelled ∷ es) behind = refl
  manage4-cancelled s1 s2 s3 s4 (Arrival4.from1 m ∷ es) behind =
      ap (λ cs. (fresh m, kept s2, kept s3, kept s4) ∷ cs) (manage4-cancelled m s2 s3 s4 es behind)
  manage4-cancelled s1 s2 s3 s4 (Arrival4.from2 m ∷ es) behind =
      ap (λ cs. (kept s1, fresh m, kept s3, kept s4) ∷ cs) (manage4-cancelled s1 m s3 s4 es behind)
  manage4-cancelled s1 s2 s3 s4 (Arrival4.from3 m ∷ es) behind =
      ap (λ cs. (kept s1, kept s2, fresh m, kept s4) ∷ cs) (manage4-cancelled s1 s2 m s4 es behind)
  manage4-cancelled s1 s2 s3 s4 (Arrival4.from4 m ∷ es) behind =
      ap (λ cs. (kept s1, kept s2, kept s3, fresh m) ∷ cs) (manage4-cancelled s1 s2 s3 m es behind)
