-- ===== src/Samples/FilterSamples.antt =====
-- The theorems of filters.go at concrete inputs.
use katamari.Base.{◌≡◌, refl, ◌↔◌, ◌⊎◌, Bool, true, [], ◌∷◌, ok, err, if◌then◌else◌}
use katamari.Base.Text.{Bytes, codes, bytes_eq, contains, count}
use katamari.Key.{match}
use katamari.Key.Glob.{filepath_match}
use katamari.Filters.Choice.{first_match, Rule, covers, NoneCovers, IsFirst}
use katamari.Filters.Checks.{check_lem, check_static_iff}
use katamari.Filters.{Filters, Apply, ApplyDelete, check, check_static, undefined_route}

abbrev intercept : Rule Apply
intercept = record { path = codes "books/*"; apply = λ key content. ok (codes "intercepted") }

abbrev keep_books : Rule ApplyDelete
keep_books = record { path = codes "books/*"; apply = λ key. err (codes "can't delete") }

abbrev no_filters : Filters (Unit {0})
no_filters = record { on_write = []; on_read = []; on_delete = []; after_write = [] }

intercept_test :
    check (intercept ∷ []) (codes "books/taup") (codes "x") true ≡ ok (codes "intercepted")
unfolding check first_match covers match bytes_eq contains filepath_match count
intercept_test = refl

check_lem_example :
    ((r : Rule Apply)
      → IsFirst (codes "books/1") (intercept ∷ []) r
      → check (intercept ∷ []) (codes "books/1") (codes "x") true
        ≡ r.apply (codes "books/1") (codes "x"))
    × (NoneCovers (codes "books/1") (intercept ∷ [])
        → check (intercept ∷ []) (codes "books/1") (codes "x") true
          ≡ (if true then err (undefined_route (codes "books/1")) else ok (codes "x")))
    × (NoneCovers (codes "books/1") (intercept ∷ [])
        ⊎ ((r : Rule Apply) × IsFirst (codes "books/1") (intercept ∷ []) r))
check_lem_example = check_lem (intercept ∷ []) (codes "books/1") (codes "x") true

check_static_iff_example :
    ((check_static (intercept ∷ []) (codes "b") true ≡ err (undefined_route (codes "b")))
      ↔ (◌≡◌ {A = Bool} true true × NoneCovers (codes "b") (intercept ∷ [])))
    × (check_static (intercept ∷ []) (codes "b") true ≡ err (undefined_route (codes "b"))
        → (content : Bytes)
        → check (intercept ∷ []) (codes "b") content true ≡ err (undefined_route (codes "b")))
check_static_iff_example = check_static_iff (intercept ∷ []) (codes "b") true
