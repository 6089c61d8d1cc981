-- ===== src/Key/Glob.antt =====
-- path/filepath.Match, which `Match` of key/key.go calls, after its documented grammar:
-- `*` is any run of bytes but `/`, `?` any byte but `/`, `[lo-hi]` and `[^lo-hi]` a class,
-- `\x` and any other byte itself. `none` is ErrBadPattern.
use katamari.Base.{
  ℕ, zero, suc, Bool, true, false, not, ◌&&◌, ◌||◌, List, [], ◌∷◌, Option, none, some, leb, ◌==◌,
  if◌then◌else◌, length,
}
use katamari.Base.Text.{Bytes, slash, asterisk}

pub data Term : Type 0 where
  star : Term
  any_byte : Term
  lit : ℕ → Term
  class : Bool → List (ℕ × ℕ) → Term

abbrev backslash : ℕ
backslash = 92

-- getEsc: one byte of a class, escaped or not; something must follow it.
abbrev followed : ℕ → Bytes → Option (ℕ × Bytes)
followed c [] = none
followed c (d ∷ s) = some (c, d ∷ s)

get_esc : Bytes → Option (ℕ × Bytes)
get_esc [] = none
get_esc (c ∷ []) = none
get_esc (c ∷ d ∷ s) =
    if c == b'-' || c == b']'
    then none
    else if c == backslash
    then followed d s
    else some (c, d ∷ s)

-- the upper end of a range, if there is a dash
upper : ℕ → Bytes → Option (ℕ × Bytes)
unfolding get_esc
upper lo [] = none
upper lo (c ∷ s) = if c == b'-' then get_esc s else some (lo, c ∷ s)

-- the ranges of a class up to its `]`; at least one is there
closes : List (ℕ × ℕ) → Bytes → Option Bytes
closes [] s = none
closes (r ∷ rs) [] = none
closes (r ∷ rs) (c ∷ s) = if c == b']' then some s else none

parse_ranges : ℕ → Bytes → List (ℕ × ℕ) → Option (List (ℕ × ℕ) × Bytes)
unfolding get_esc upper closes
parse_ranges zero s rs = none
parse_ranges (suc f) s rs = elim (closes rs s) [
  | some rest ↦ some (rs, rest)
  | none ↦ elim (get_esc s) [
    | none ↦ none
    | some (lo, s1) ↦ elim (upper lo s1) [
      | none ↦ none
      | some (hi, s2) ↦ parse_ranges f s2 ((lo, hi) ∷ rs)
    ]
  ]
]

starts_negated : Bytes → Bool
starts_negated [] = false
starts_negated (c ∷ _) = c == b'^'

abbrev tail_if : Bool → Bytes → Bytes
tail_if true (_ ∷ s) = s
tail_if _ s = s

-- one term of a pattern that begins with the byte `c`, and the text after it
unfoldable pub next_term : ℕ → Bytes → Option (Term × Bytes)
unfolding parse_ranges starts_negated
next_term c s =
    if c == asterisk
    then some (star, s)
    else if c == b'?'
    then some (any_byte, s)
    else if c == b'['
    then elim (parse_ranges (suc (length s)) (tail_if (starts_negated s) s) []) [
      | none ↦ none
      | some (rs, rest) ↦ some (class (starts_negated s) rs, rest)
    ]
    else if c == backslash
    then elim s [ [] ↦ none | d ∷ rest ↦ some (lit d, rest) ]
    else some (lit c, s)

unfoldable pub parse_loop : ℕ → Bytes → Option (List Term)
parse_loop f [] = some []
parse_loop zero (c ∷ s) = none
parse_loop (suc f) (c ∷ s) = elim (next_term c s) [
  | none ↦ none
  | some (t, rest) ↦ elim (parse_loop f rest) [ none ↦ none | some ts ↦ some (t ∷ ts) ]
]

unfoldable pub parse : Bytes → Option (List Term)
unfolding parse_loop next_term
parse s = parse_loop (length s) s

in_ranges : List (ℕ × ℕ) → ℕ → Bool
in_ranges [] c = false
in_ranges ((lo, hi) ∷ rs) c = (leb lo c && leb c hi) || in_ranges rs c

-- a term other than a star, on one byte
unfoldable pub accepts : Term → ℕ → Bool
unfolding in_ranges
accepts star c = false
accepts any_byte c = not (c == slash)
accepts (lit d) c = d == c
accepts (class negated rs) c = if in_ranges rs c then not negated else negated

-- a star gives the bytes up to the next `/` one by one to what follows it
unfoldable pub after_star : (Bytes → Bool) → Bytes → Bool
after_star m [] = m []
after_star m (c ∷ s) = m (c ∷ s) || (not (c == slash) && after_star m s)

unfoldable pub matches_terms : List Term → Bytes → Bool
unfolding accepts after_star
matches_terms [] [] = true
matches_terms [] (c ∷ s) = false
matches_terms (star ∷ ts) s = after_star (matches_terms ts) s
matches_terms (t ∷ ts) [] = false
matches_terms (t ∷ ts) (c ∷ s) = accepts t c && matches_terms ts s

unfoldable pub filepath_match : Bytes → Bytes → Option Bool
unfolding parse matches_terms
filepath_match path key = elim (parse path) [ none ↦ none | some ts ↦ some (matches_terms ts key) ]
