-- ===== src/Samples/ClientSamples.antt =====
-- The theorems of client/subscribeMultiple.go at concrete arrivals.
use katamari.Base.{ℕ, ◌≡◌, refl, List, [], ◌∷◌, ◌++◌}
use katamari.Base.Int.{pos}
use katamari.Base.Text.{codes}
use katamari.Client.{Meta, Arrival4, manage4, fresh, kept}

abbrev item : ℕ → List (Meta ℕ)
item n = record { created = pos n; updated = pos 0; index = codes "a"; content = n } ∷ []

abbrev arrivals : List (Arrival4 ℕ ℕ ℕ ℕ)
arrivals = Arrival4.from1 (item 1) ∷ Arrival4.from3 (item 2) ∷ Arrival4.from1 (item 3) ∷ []

manage_test :
    manage4 [] [] [] [] (arrivals ++ Arrival4.from4 (item 4) ∷ Arrival4.cancelled ∷ arrivals)
    ≡ (fresh (item 1), kept [], kept [], kept [])
      ∷ (kept (item 1), kept [], fresh (item 2), kept [])
      ∷ (fresh (item 3), kept [], kept (item 2), kept [])
      ∷ (kept (item 3), kept [], kept (item 2), fresh (item 4))
      ∷ []
unfolding manage4
manage_test = refl
