-- ===== src/Key/Roundtrip.antt =====
-- The key that `Build` of key/key.go makes from the time, and `Decode` of it.
use katamari.Base.{
  ℕ, zero, suc, ◌+◌, ◌*◌, ◌/◌, ◌%◌, ◌^◌, ◌<◌, ◌≡◌, refl, ap, true, false, [], ◌∷◌, some, arith, ltb,
  ◌==◌, All, Bool-cases, inl, inr, ◌∙◌,
}
use native.Mathlib.Nat.{pow-suc}
use katamari.Base.Int.{ℤ, pos, negsuc, InInt64}
use katamari.Base.Text.{Bytes, slash, asterisk, quote}
use katamari.Key.Number.{
  hex_digit, digits, format_int, digit_value, parse_digits, parse_uint, parse_int, positive,
  negative,
}
use katamari.Key.{decode}

digit_value-hex_digit : (d : ℕ) → d < 16 → digit_value (hex_digit d) ≡ some d
unfolding digit_value hex_digit
digit_value-hex_digit d h = ground arith

-- A digit is neither a sign nor a slash nor a star nor a quote.
abbrev pub IsDigit : ℕ → Type 0
IsDigit c =
    ((c == b'-') ≡ false)
    × ((c == b'+') ≡ false)
    × ((c == slash) ≡ false)
    × ((c == asterisk) ≡ false)
    × ((c == quote) ≡ false)

hex_digit-IsDigit : (d : ℕ) → IsDigit (hex_digit (d % 16))
unfolding hex_digit
hex_digit-IsDigit d = ground arith

-- A digit, and digits after it.
abbrev pub IsNumeral : Bytes → Type 0
IsNumeral [] = ⊥
IsNumeral (c ∷ s) = IsDigit c × All IsDigit s

pub digits-IsNumeral : (f n : ℕ) (acc : Bytes) → All IsDigit acc → IsNumeral (digits (suc f) n acc)
unfolding digits
digits-IsNumeral zero n acc h = elim (Bool-cases (ltb n 16)) [
  | inl e ↦ rw e (hex_digit-IsDigit n, h)
  | inr e ↦ rw e (hex_digit-IsDigit n, h)
]
digits-IsNumeral (suc f) n acc h = elim (Bool-cases (ltb n 16)) [
  | inl e ↦ rw e (hex_digit-IsDigit n, h)
  | inr e ↦ rw e (digits-IsNumeral f (n / 16) _ (hex_digit-IsDigit n, h))
]

parse_digits-hex_digit :
    (a d : ℕ) (acc : Bytes)
    → d < 16
    → parse_digits a (hex_digit d ∷ acc) ≡ parse_digits (a * 16 + d) acc
unfolding parse_digits
parse_digits-hex_digit a d acc h = rw (parse_digits, digit_value-hex_digit d h)

digits_small :
    (f n : ℕ) (acc : Bytes) → ltb n 16 ≡ true → digits (suc f) n acc ≡ hex_digit (n % 16) ∷ acc
unfolding digits
digits_small f n acc e = rw e

digits_large :
    (f n : ℕ) (acc : Bytes)
    → ltb n 16 ≡ false
    → digits (suc f) n acc ≡ digits f (n / 16) (hex_digit (n % 16) ∷ acc)
unfolding digits
digits_large f n acc e = rw e

parse-small :
    (f n : ℕ) (acc : Bytes)
    → ltb n 16 ≡ true
    → parse_digits 0 (digits (suc f) n acc) ≡ parse_digits n acc
parse-small f n acc e =
    rw (digits_small f n acc e, parse_digits-hex_digit 0 (n % 16) acc (omega arith))
      (ap (λ k. parse_digits k acc) (ground arith))

-- `f` digits suffice below 16 ^ f.
parse_digits-digits :
    (f n : ℕ) (acc : Bytes)
    → n < 16 ^ suc f
    → parse_digits 0 (digits (suc f) n acc) ≡ parse_digits n acc
parse_digits-digits zero n acc h = parse-small zero n acc (ground arith)
parse_digits-digits (suc f) n acc h = elim (Bool-cases (ltb n 16)) [
  | inl e ↦ parse-small (suc f) n acc e
  | inr e ↦
      let below : n / 16 < 16 ^ suc f = omega (arith, pow-suc 16 (suc f)) in
      rw
        (
          digits_large (suc f) n acc e,
          parse_digits-digits f (n / 16) _ below,
          parse_digits-hex_digit (n / 16) (n % 16) acc (omega arith),
        )
        (ap (λ k. parse_digits k acc) (omega arith))
]

parse_uint-numeral : (s : Bytes) → IsNumeral s → parse_uint s ≡ parse_digits 0 s
unfolding parse_uint
parse_uint-numeral [] h = absurd h
parse_uint-numeral (c ∷ s) h = refl

parse_int-numeral : (s : Bytes) → IsNumeral s → parse_int s ≡ positive (parse_uint s)
unfolding parse_int
parse_int-numeral [] h = absurd h
parse_int-numeral (c ∷ s) h = rw (h.0.0, h.0.1)

parse_uint-digits : (f n : ℕ) → n < 16 ^ suc f → parse_uint (digits (suc f) n []) ≡ some n
parse_uint-digits f n h =
    parse_uint-numeral _ (digits-IsNumeral f n [] tt)
    ∙ parse_digits-digits f n [] h
    ∙ (unfold parse_digits in refl)

parse_int-digits :
    (f n : ℕ) → n < 16 ^ suc f → n < 2 ^ 63 → parse_int (digits (suc f) n []) ≡ some (pos n)
parse_int-digits f n h b =
    let fits : ltb n (2 ^ 63) ≡ true = ground arith in
    parse_int-numeral _ (digits-IsNumeral f n [] tt) ∙ rw (parse_uint-digits f n h, fits)

parse_int-minus : (s : Bytes) → parse_int (b'-' ∷ s) ≡ negative (parse_uint s)
unfolding parse_int
parse_int-minus s = refl

parse_int-format_int : (n : ℤ) → InInt64 n → parse_int (format_int n) ≡ some n
unfolding format_int
parse_int-format_int (pos n) h = parse_int-digits 15 n (omega arith) h
parse_int-format_int (negsuc n) h =
    let fits : ltb n (2 ^ 63) ≡ true = ground arith in
    parse_int-minus _ ∙ rw (parse_uint-digits 15 (suc n) (omega arith), fits)

-- `Decode` reads back every int64 that `FormatInt` prints, the negative ones included.
pub decode-format_int : (n : ℤ) → InInt64 n → decode (format_int n) ≡ n
unfolding decode
decode-format_int n h = rw (decode, parse_int-format_int n h)

pub format_int-IsNumeral : (n : ℕ) → IsNumeral (format_int (pos n))
unfolding format_int
format_int-IsNumeral n = digits-IsNumeral 15 n [] tt
