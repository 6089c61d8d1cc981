-- ===== src/Key.antt =====
-- key/key.go: which keys are valid, which keys a glob path covers, and the keys made from the
-- time. `GlobRegex` is written out as the tests that its two alternatives make.
pub mod Glob
pub mod Number
pub mod Segments
pub mod Covers
pub mod Roundtrip
pub mod Build
use katamari.Base.{
  ℕ, zero, suc, ◌+◌, ◌≡◌, refl, Bool, true, false, not, ◌&&◌, ◌||◌, List, [], ◌∷◌, ◌++◌, Option,
  none, some, leb, ◌==◌, if◌then◌else◌, length, drop,
}
use katamari.Base.Int.{ℤ}
use katamari.Base.Text.{
  Bytes, codes, slash, asterisk, bytes_eq, contains, count, after_last_index, replace_first,
}
use Glob.{filepath_match}
use Number.{format_int, parse_int}

-- [a-zA-Z\*\d]
unfoldable pub key_char : ℕ → Bool
key_char c =
    (leb b'a' c && leb c b'z')
    || (leb b'A' c && leb c b'Z')
    || c == asterisk
    || (leb b'0' c && leb c b'9')

-- [a-zA-Z\*\d\/]
unfoldable pub path_char : ℕ → Bool
unfolding key_char
path_char c = key_char c || c == slash

-- [a-zA-Z\*\d\/]+[a-zA-Z\*\d]$, after the first byte
rest_matches : Bytes → Bool
unfolding path_char
rest_matches [] = false
rest_matches (c ∷ []) = false
rest_matches (c ∷ d ∷ []) = path_char c && key_char d
rest_matches (c ∷ d ∷ e ∷ s) = path_char c && rest_matches (d ∷ e ∷ s)

-- GlobRegex.MatchString(key)
unfoldable pub glob_regex : Bytes → Bool
unfolding rest_matches
glob_regex [] = false
glob_regex (c ∷ []) = key_char c
glob_regex (c ∷ d ∷ s) = key_char c && rest_matches (d ∷ s)

unfoldable pub is_valid : Bytes → Bool
unfolding glob_regex contains
is_valid key =
    if contains key (codes "//") || contains key (codes "**") then false else glob_regex key

-- `Match`
abbrev matched : Option Bool → Bool → Bool
matched none same_depth = false
matched (some m) same_depth = m && same_depth

unfoldable pub match : Bytes → Bytes → Bool
match path key =
    if bytes_eq path key
    then true
    else if not (contains path (codes "*"))
    then false
    else matched (filepath_match path key) (count path slash == count key slash)

unfoldable pub peer : Bytes → Bytes → Bool
unfolding match
peer a b = match a b || match b a

unfoldable pub last_index : Bytes → Bytes
last_index key = drop (after_last_index key slash) key

-- `Build` at the time `now`
unfoldable pub build : ℤ → Bytes → Bytes
build now key =
    if not (contains key (codes "*"))
    then key
    else replace_first key (codes "/*") (codes "/" ++ format_int now)

unfoldable pub decode : Bytes → ℤ
decode key = elim (parse_int key) [ none ↦ ℤ.pos 0 | some n ↦ n ]

-- `Contains`
unfoldable pub contains_peer : List Bytes → Bytes → Bool
unfolding peer
contains_peer [] e = false
contains_peer (a ∷ s) e = if peer a e then true else contains_peer s e
