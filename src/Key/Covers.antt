-- ===== src/Key/Covers.antt =====
-- The segments of a path and of a key tell whether `Match` of key/key.go holds.
use katamari.Base.{ℕ, ◌≡◌, ◌≢◌, ◌↔◌, inl, inr, true, [], ◌∷◌, arith, ◌==◌, Bool-cases}
use katamari.Base.Text.{Bytes, slash, asterisk, split}
use katamari.Key.{match}
use katamari.Key.Segments.{
  IsPlain, Glob, done, same, skip, grow, match-Glob, CoversEach, split_first, Glob-CoversEach,
}

empty_segment : {d : ℕ} {k : Bytes} → Glob [] (d ∷ k) → ⊥
empty_segment g = elim g [ ]

-- What a pattern's first byte says of an empty text.
covers_nil : {c : ℕ} {p : Bytes} → Glob (c ∷ p) [] → (c ≡ asterisk) × Glob p []
covers_nil (skip e g) = (e, g)

data First (c : ℕ) (p : Bytes) (d : ℕ) (k : Bytes) : Type 0 where
  is_same : c ≢ asterisk → d ≡ c → Glob p k → First c p d k
  is_skip : c ≡ asterisk → Glob p (d ∷ k) → First c p d k
  is_grow : c ≡ asterisk → d ≢ slash → Glob (c ∷ p) k → First c p d k

first : {c : ℕ} {p : Bytes} {d : ℕ} {k : Bytes} → Glob (c ∷ p) (d ∷ k) → First c p d k
first (same n e g) = is_same n e g
first (skip e g) = is_skip e g
first (grow e n g) = is_grow e n g

-- A pattern whose segments are all used up covers no further segment.
none_left : (p : Bytes) → CoversEach (split p slash) [] → ⊥
none_left p h = let (w, ws, q) = split_first p in rw q at h

none_left_over : (k : Bytes) → CoversEach [] (split k slash) → ⊥
none_left_over k h = let (v, vs, r) = split_first k in rw r at h

CoversEach-Glob : (p k : Bytes) → CoversEach (split p slash) (split k slash) → Glob p k
unfolding split
CoversEach-Glob [] [] h = done
CoversEach-Glob [] (d ∷ k) h = elim (Bool-cases (d == slash)) [
  | inl t ↦ absurd (none_left_over k (rw t at h).1)
  | inr f ↦ let (v, vs, r) = split_first k in absurd (empty_segment (rw (f, r) at h).0)
]
CoversEach-Glob (c ∷ p) [] h = elim (Bool-cases (c == slash)) [
  | inl t ↦ absurd (none_left p (rw t at h).1)
  | inr f ↦
      let (w, ws, q) = split_first p in
      let h' = rw (f, q) at h in
      let (e, g) = covers_nil h'.0 in skip e (CoversEach-Glob p [] (rw q (g, h'.1)))
]
CoversEach-Glob (c ∷ p) (d ∷ k) h = elim (Bool-cases (c == slash)) [
  | inl t ↦ elim (Bool-cases (d == slash)) [
    | inl u ↦ same (λ q. ground arith) (ground arith) (CoversEach-Glob p k (rw (t, u) at h).1)
    | inr u ↦ let (v, vs, r) = split_first k in absurd (empty_segment (rw (t, u, r) at h).0)
  ]
  | inr f ↦
      let (w, ws, q) = split_first p in
      let (v, vs, r) = split_first k in
      elim (Bool-cases (d == slash)) [
        | inl u ↦
            let h' = rw (f, q, u) at h in
            let (e, g) = covers_nil h'.0 in skip e (CoversEach-Glob p (d ∷ k) (rw (q, u) (g, h'.1)))
        | inr u ↦
            let h' = rw (f, q, u, r) at h in
            elim (first h'.0) [
              | is_same n e g ↦ same n e (CoversEach-Glob p k (rw (q, r) (g, h'.1)))
              | is_skip e g ↦ skip e (CoversEach-Glob p (d ∷ k) (rw (q, u, r) (g, h'.1)))
              | is_grow e n g ↦ grow e n (CoversEach-Glob (c ∷ p) k (rw (f, q, r) (g, h'.1)))
            ]
      ]
]

-- `Match path key` holds exactly when path and key have equally many segments and each segment of
-- the path covers that of the key: a star stands for any run of bytes inside its own segment. The
-- path is written in the key alphabet; the key may be any text.
pub match-CoversEach :
    (path key : Bytes)
    → IsPlain path
    → (match path key ≡ true) ↔ CoversEach (split path slash) (split key slash)
match-CoversEach path key a =
    let (to, from) = match-Glob path key a in
    (λ h. Glob-CoversEach (to h), λ c. from (CoversEach-Glob path key c))
