-- ===== src/Key/Number.antt =====
-- strconv.FormatInt(n, 16) and strconv.ParseInt(s, 16, 64), which `Build` and `Decode` of
-- key/key.go call. An int64 has at most sixteen hexadecimal digits.
use katamari.Base.{
  ℕ, zero, suc, ◌+◌, ◌-◌, ◌*◌, ◌/◌, ◌%◌, ◌^◌, ◌&&◌, [], ◌∷◌, Option, none, some, leb, ltb, ◌==◌,
  if◌then◌else◌,
}
use katamari.Base.Int.{ℤ, pos, negsuc}
use katamari.Base.Text.{Bytes}

unfoldable pub hex_digit : ℕ → ℕ
hex_digit d = if ltb d 10 then b'0' + d else b'a' + (d - 10)

-- the digits of `n` in front of `acc`; the first argument bounds their number
unfoldable pub digits : ℕ → ℕ → Bytes → Bytes
digits zero n acc = acc
digits (suc f) n acc =
    let here = hex_digit (n % 16) ∷ acc in
    let more = digits f (n / 16) here in if ltb n 16 then here else more

unfoldable pub format_int : ℤ → Bytes
format_int (pos n) = digits 16 n []
format_int (negsuc n) = b'-' ∷ digits 16 (suc n) []

unfoldable pub digit_value : ℕ → Option ℕ
digit_value c =
    if leb b'0' c && leb c b'9'
    then some (c - b'0')
    else if leb b'a' c && leb c b'f'
    then some (c - b'a' + 10)
    else if leb b'A' c && leb c b'F'
    then some (c - b'A' + 10)
    else none

-- ParseUint's loop. It stops at an overflow with an error, as the caller does at the end here.
unfoldable pub parse_digits : ℕ → Bytes → Option ℕ
parse_digits n [] = some n
parse_digits n (c ∷ s) = elim (digit_value c) [ none ↦ none | some d ↦ parse_digits (n * 16 + d) s ]

unfoldable pub parse_uint : Bytes → Option ℕ
parse_uint [] = none
parse_uint (c ∷ s) = parse_digits 0 (c ∷ s)

abbrev pub positive : Option ℕ → Option ℤ
positive none = none
positive (some n) = if ltb n (2 ^ 63) then some (pos n) else none

abbrev pub negative : Option ℕ → Option ℤ
negative none = none
negative (some zero) = some (pos 0)
negative (some (suc n)) = if ltb n (2 ^ 63) then some (negsuc n) else none

unfoldable pub parse_int : Bytes → Option ℤ
parse_int [] = none
parse_int (c ∷ s) =
    if c == b'-'
    then negative (parse_uint s)
    else if c == b'+'
    then positive (parse_uint s)
    else positive (parse_uint (c ∷ s))
