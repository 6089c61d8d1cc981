-- ===== src/Samples/KeySamples.antt =====
-- Tests of the functions of key/key.go, and its theorems at concrete inputs.
use katamari.Base.{◌≡◌, refl, true, false, ◌++◌, none, some, ◌↔◌, arith}
use katamari.Base.Int.{pos, negsuc}
use katamari.Base.Text.{codes, replace_first, slash, split, contains, count, bytes_eq}
use katamari.Key.Glob.{filepath_match}
use katamari.Key.Number.{
  format_int, digits, hex_digit, parse_int, parse_uint, parse_digits, digit_value,
}
use katamari.Key.Segments.{CoversEach}
use katamari.Key.Covers.{match-CoversEach}
use katamari.Key.Build.{NoStar, build_glob_lem}
use katamari.Key.{is_valid, match, peer, build, last_index, decode, path_char}

glob_test : filepath_match (codes "a/*/[b-d]?\\*") (codes "a/xyz/cq*") ≡ some true
unfolding filepath_match
glob_test = refl

slash_test : filepath_match (codes "a/*") (codes "a/b/c") ≡ some false
unfolding filepath_match
slash_test = refl

bad_test : filepath_match (codes "a[") (codes "a") ≡ none
unfolding filepath_match
bad_test = refl

format_int_test : format_int (pos 1700000000000000000) ≡ codes "17979cfe362a0000"
unfolding format_int digits hex_digit
format_int_test = refl

parse_int_test : parse_int (codes "-17979CFE362A0000") ≡ some (negsuc 1699999999999999999)
unfolding parse_int parse_uint parse_digits digit_value
parse_int_test = refl

valid_test : is_valid (codes "test/*") ≡ true
unfolding is_valid
valid_test = refl

double_slash_test : is_valid (codes "a//b") ≡ false
unfolding is_valid
double_slash_test = refl

two_bytes_test : is_valid (codes "ab") ≡ false
unfolding is_valid
two_bytes_test = refl

match_test : match (codes "test/*") (codes "test/1") ≡ true
unfolding match bytes_eq contains filepath_match count
match_test = refl

-- two globs that cover one key and are not peers
overlap_test :
    (match (codes "a/*") (codes "a/b") ≡ true)
    × (match (codes "*/b") (codes "a/b") ≡ true)
    × (peer (codes "*/b") (codes "a/*") ≡ false)
unfolding match bytes_eq contains filepath_match count peer
overlap_test = (refl, refl, refl)

-- a whole key put below `test` again is no match of `test/*`
nested_test :
    (build (pos 17) (codes "test/*") ≡ codes "test/11")
    × (match (codes "test/*") (codes "test/test/11") ≡ false)
unfolding match bytes_eq contains filepath_match count build replace_first format_int digits
    hex_digit
nested_test = (refl, refl)

match-CoversEach_example :
    (match (codes "a/*") (codes "a/b") ≡ true)
    ↔ CoversEach (split (codes "a/*") slash) (split (codes "a/b") slash)
unfolding path_char
match-CoversEach_example = match-CoversEach (codes "a/*") (codes "a/b") (refl, (refl, (refl, tt)))

build_glob_lem_example :
    (match (codes "a" ++ codes "/*") (build (pos 255) (codes "a" ++ codes "/*")) ≡ true)
    × NoStar (build (pos 255) (codes "a" ++ codes "/*"))
    × (decode (last_index (build (pos 255) (codes "a" ++ codes "/*"))) ≡ pos 255)
unfolding path_char contains
build_glob_lem_example = build_glob_lem 255 (codes "a") (omega arith) (refl, tt) refl
