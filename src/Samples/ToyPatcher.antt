-- ===== src/Samples/ToyPatcher.antt =====
-- A JSON patch library that is faithful, for the examples: a patch is the new document without the
-- newlines around it, between two marks, and a message is read back field by field.
use katamari.Base.{
  ℕ, suc, ◌≡◌, refl, ap, Bool, true, false, [], ◌∷◌, ◌++◌, append_assoc, Option, none, some, ◌==◌,
  if◌then◌else◌, drop, All, Result, ok, Error, arith,
}
use katamari.Base.Int.{ℤ, pos, negsuc}
use katamari.Base.Text.{Bytes, codes, quote}
use katamari.Key.Number.{format_int}
use katamari.Key.Roundtrip.{IsDigit, IsNumeral, digits-IsNumeral}
use katamari.Messages.{Message, Patcher, trim, trim_right}
use katamari.Stream.{frame_text}
use katamari.Stream.Sync.{IsFaithful}
use katamari.Samples.ToyCodec.{toy_codec}

abbrev pub take_until : ℕ → Bytes → Bytes
take_until q [] = []
take_until q (c ∷ s) = let rest = take_until q s in if c == q then [] else c ∷ rest

abbrev pub drop_until : ℕ → Bytes → Bytes
drop_until q [] = []
drop_until q (c ∷ s) = if c == q then c ∷ s else drop_until q s

abbrev pub init : Bytes → Bytes
init [] = []
init (c ∷ []) = []
init (c ∷ d ∷ s) = c ∷ init (d ∷ s)

abbrev pub first_is : ℕ → Bytes → Bool
first_is q [] = false
first_is q (c ∷ s) = c == q

abbrev pub read_rest : Bool → Bytes → Message
read_rest snapshot s = record {
  content = init (init (drop 11 (drop_until quote s)));
  version = take_until quote s;
  snapshot = snapshot;
}

abbrev pub toy_unmarshal : Bytes → Message × Option Error
toy_unmarshal raw =
    if first_is b't' (drop 13 raw)
    then (read_rest true (drop 30 raw), none)
    else (read_rest false (drop 31 raw), none)

abbrev mark : ℕ
mark = b'x'

abbrev pub unmark : Bytes → Result (Option Bytes)
unmark [] = ok none
unmark (c ∷ s) = ok (some (init s))

abbrev pub toy_patcher : Patcher
toy_patcher = record {
  Patch = Bytes;
  create = λ a b. ok (trim b);
  marshal = λ p. ok (mark ∷ p ++ mark ∷ []);
  decode_patch = unmark;
  apply = λ p c. ok (some p);
  unmarshal_message = toy_unmarshal;
  read_message = toy_unmarshal;
}

-- One text is the other without the newlines around it.
abbrev pub SameTrim : Bytes → Bytes → Type 0
SameTrim a b = trim a ≡ b

init-last : (s : Bytes) (c : ℕ) → init (s ++ c ∷ []) ≡ s
init-last [] c = refl
init-last (d ∷ []) c = refl
init-last (d ∷ e ∷ s) c = ap (λ t. d ∷ t) (init-last (e ∷ s) c)

init-last_two : (s : Bytes) (c d : ℕ) → init (init (s ++ c ∷ d ∷ [])) ≡ s
init-last_two s c d = rw (← append_assoc s (c ∷ []) (d ∷ []), init-last, init-last)

trim_right-mark : (s : Bytes) → trim_right (s ++ mark ∷ []) ≡ s ++ mark ∷ []
unfolding trim_right
trim_right-mark [] = refl
trim_right-mark (c ∷ []) = refl
trim_right-mark (c ∷ d ∷ s) = ground (arith, trim_right-mark (d ∷ s))

trim-marked : (s : Bytes) → trim (mark ∷ s ++ mark ∷ []) ≡ mark ∷ s ++ mark ∷ []
unfolding trim
trim-marked s = ground (arith, trim_right-mark s)

abbrev NotQuote : ℕ → Type 0
NotQuote c = (c == quote) ≡ false

NotQuote-digits : (s : Bytes) → All IsDigit s → All NotQuote s
NotQuote-digits [] h = tt
NotQuote-digits (c ∷ s) h = (h.0.4, NotQuote-digits s h.1)

NotQuote-numeral : (s : Bytes) → IsNumeral s → All NotQuote s
NotQuote-numeral [] h = absurd h
NotQuote-numeral (c ∷ s) h = (h.0.4, NotQuote-digits s h.1)

format_int-NotQuote : (v : ℤ) → All NotQuote (format_int v)
unfolding format_int
format_int-NotQuote (pos n) = NotQuote-numeral _ (digits-IsNumeral 15 n [] tt)
format_int-NotQuote (negsuc n) = (refl, NotQuote-numeral _ (digits-IsNumeral 15 (suc n) [] tt))

until-quote :
    (s r : Bytes)
    → All NotQuote s
    → (take_until quote (s ++ quote ∷ r) ≡ s) × (drop_until quote (s ++ quote ∷ r) ≡ quote ∷ r)
until-quote [] r h = (refl, refl)
until-quote (c ∷ s) r h = let (t, d) = until-quote s r h.1 in rw h.0 (ap (λ u. c ∷ u) t, d)

abbrev tail_of : Bytes → Bytes
tail_of s = codes ",\"data\": \"" ++ (s ++ codes "\"}")

reads_rest :
    (s : Bytes) (snapshot : Bool) (v : ℤ)
    → read_rest snapshot (format_int v ++ quote ∷ tail_of s)
      ≡ record { content = s; version = format_int v; snapshot = snapshot }
reads_rest s snapshot v =
    let (version, rest) = until-quote (format_int v) (tail_of s) (format_int-NotQuote v) in
    rw (read_rest, version, rest, init-last_two s quote b'}')

toy_reads :
    (s : Bytes) (snapshot : Bool) (v : ℤ)
    → toy_unmarshal (frame_text s snapshot v)
      ≡ (record { content = s; version = format_int v; snapshot = snapshot }, none)
unfolding frame_text
toy_reads s true v = ap (λ (m : Message). (m, none)) (reads_rest s true v)
toy_reads s false v = ap (λ (m : Message). (m, none)) (reads_rest s false v)

toy-unmark :
    (a b c operations p : Bytes)
    → ◌≡◌ {A = Result Bytes} (ok (trim b)) (ok p)
    → ◌≡◌ {A = Result Bytes} (ok (mark ∷ p ++ mark ∷ [])) (ok operations)
    → unmark (trim operations) ≡ ok (some (trim b))
toy-unmark a b c operations p made encoded =
    let same : trim b ≡ p = cc in
    let text : mark ∷ p ++ mark ∷ [] ≡ operations = cc in
    rw (← text, trim-marked p, init-last p mark, same)

toy-never_empty :
    (operations p : Bytes)
    → ◌≡◌ {A = Result Bytes} (ok (mark ∷ p ++ mark ∷ [])) (ok operations)
    → trim operations ≡ codes "[]"
    → ⊥
toy-never_empty operations p encoded empty =
    let text : mark ∷ p ++ mark ∷ [] ≡ operations = cc in
    ground (arith, rw (← text, trim-marked p) at empty)

pub toy-IsFaithful : IsFaithful toy_codec toy_patcher SameTrim
toy-IsFaithful = record {
  decode64_encode64 = λ s. refl;
  message = toy_reads;
  same-trim = λ a. refl;
  patched = λ a b c operations p made encoded same.
      (trim b, trim b, toy-unmark a b c operations p made encoded, refl, refl);
  unchanged = λ a b c operations p made encoded empty same.
      absurd (toy-never_empty operations p encoded empty);
}
