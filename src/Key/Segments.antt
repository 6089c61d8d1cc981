-- ===== src/Key/Segments.antt =====
-- What `Match` of key/key.go decides: a glob covers a key segment by segment.
use katamari.Base.{
  ℕ, zero, suc, ◌≤◌, ◌≡◌, refl, ◌≢◌, ◌↔◌, inl, inr, Bool, true, false, not, List, [], ◌∷◌, map,
  some, arith, ◌==◌, if◌then◌else◌, length, All, Bool-cases, or_cases, and_iff,
}
use katamari.Base.Text.{
  Bytes, codes, slash, asterisk, bytes_eq, bytes_eq_iff, contains, count, split,
}
use katamari.Key.Glob.{
  Term, star, lit, parse, parse_loop, next_term, after_star, matches_terms, filepath_match,
}
use katamari.Key.{path_char, match}

-- The alphabet of keys and paths.
abbrev pub IsPlain : Bytes → Type 0
IsPlain = All (λ c. path_char c ≡ true)

-- `p` covers `k`: a star stands for any run of bytes without a slash.
pub data Glob : Bytes → Bytes → Type 0 where
  done : Glob [] []
  same : {c d : ℕ} {p k : Bytes} → c ≢ asterisk → d ≡ c → Glob p k → Glob (c ∷ p) (d ∷ k)
  skip : {c : ℕ} {p k : Bytes} → c ≡ asterisk → Glob p k → Glob (c ∷ p) k
  grow : {c d : ℕ} {p k : Bytes} → c ≡ asterisk → d ≢ slash → Glob (c ∷ p) k → Glob (c ∷ p) (d ∷ k)

abbrev term_of : ℕ → Term
term_of c = if c == asterisk then star else lit c

next_term-plain : (c : ℕ) (s : Bytes) → path_char c ≡ true → next_term c s ≡ some (term_of c, s)
unfolding next_term path_char
next_term-plain c s h = ground arith

parse_loop-plain :
    (f : ℕ) (s : Bytes) → length s ≤ f → IsPlain s → parse_loop f s ≡ some (map term_of s)
unfolding parse_loop
parse_loop-plain zero [] h a = refl
parse_loop-plain (suc f) [] h a = refl
parse_loop-plain zero (c ∷ s) h a = absurd (omega arith)
parse_loop-plain (suc f) (c ∷ s) h a =
    rw (parse_loop, next_term-plain c s a.0, parse_loop-plain f s (omega arith) a.1)

filepath_match-plain :
    (p k : Bytes) → IsPlain p → filepath_match p k ≡ some (matches_terms (map term_of p) k)
unfolding filepath_match parse
filepath_match-plain p k a = rw (filepath_match, parse_loop-plain (length p) p (omega arith) a)

after_star-Glob :
    (c : ℕ) (p k : Bytes)
    → c ≡ asterisk
    → ((s : Bytes) → matches_terms (map term_of p) s ≡ true → Glob p s)
    → after_star (matches_terms (map term_of p)) k ≡ true
    → Glob (c ∷ p) k
unfolding after_star
after_star-Glob c p [] e m h = skip e (m [] h)
after_star-Glob c p (d ∷ k) e m h = elim (or_cases (matches_terms (map term_of p) (d ∷ k)) _ h) [
  | inl now ↦ skip e (m (d ∷ k) now)
  | inr later ↦
      let (d_not_slash, rest) = (and_iff (not (d == slash)) _).0 later in
      grow e (λ q. ground arith) (after_star-Glob c p k e m rest)
]

lit_inv :
    (c : ℕ) (ts : List Term) (k : Bytes)
    → matches_terms (lit c ∷ ts) k ≡ true
    → (d : ℕ) × (r : Bytes) × (k ≡ d ∷ r) × (d ≡ c) × (matches_terms ts r ≡ true)
unfolding matches_terms
lit_inv c ts [] h = ground arith
lit_inv c ts (d ∷ k) h = (d, k, refl, ground arith, ground arith)

matches_terms-Glob : (p k : Bytes) → matches_terms (map term_of p) k ≡ true → Glob p k
unfolding matches_terms
matches_terms-Glob [] [] h = done
matches_terms-Glob [] (d ∷ k) h = ground arith
matches_terms-Glob (c ∷ p) k h = elim (Bool-cases (c == asterisk)) [
  | inl e ↦ after_star-Glob c p k (ground arith) (matches_terms-Glob p) (rw e at h)
  | inr e ↦
      let (d, r, k_eq, d_eq, m) = lit_inv c (map term_of p) k (rw e at h) in
      rw k_eq (same (λ q. ground arith) d_eq (matches_terms-Glob p r m))
]

after_star_now : (m : Bytes → Bool) (k : Bytes) → m k ≡ true → after_star m k ≡ true
unfolding after_star
after_star_now m [] h = h
after_star_now m (d ∷ k) h = rw h

Glob-matches_terms : {p k : Bytes} → Glob p k → matches_terms (map term_of p) k ≡ true
unfolding matches_terms
Glob-matches_terms done = refl
Glob-matches_terms (same {c = c} {d = d} {p = p} {k = k} n e g) =
    let f : (c == asterisk) ≡ false = ground arith in rw f (ground (arith, Glob-matches_terms g))
Glob-matches_terms (skip {c = c} {p = p} {k = k} e g) =
    let t : (c == asterisk) ≡ true = ground arith in
    rw t (after_star_now (matches_terms (map term_of p)) k (Glob-matches_terms g))
Glob-matches_terms (grow {c = c} {d = d} {p = p} {k = k} e n g) =
    let t : (c == asterisk) ≡ true = ground arith in
    let n' : (d == slash) ≡ false = ground arith in
    rw (t, n') (ground (arith, rw t at (Glob-matches_terms g)))

-- A star stays within its segment, so both texts are equally deep.
pub count-Glob : {p k : Bytes} → Glob p k → count p slash ≡ count k slash
unfolding count
count-Glob done = refl
count-Glob (same n e g) = ground (arith, count-Glob g)
count-Glob (skip e g) = ground (arith, count-Glob g)
count-Glob (grow e n g) = ground (arith, count-Glob g)

pub Glob-refl : (k : Bytes) → Glob k k
Glob-refl [] = done
Glob-refl (c ∷ k) = elim (Bool-cases (c == asterisk)) [
  | inl e ↦ grow (ground arith) (λ q. ground arith) (skip (ground arith) (Glob-refl k))
  | inr e ↦ same (λ q. ground arith) refl (Glob-refl k)
]

-- Without a star only the text itself is covered.
Glob-no_star : {p k : Bytes} → Glob p k → contains p (codes "*") ≡ false → p ≡ k
unfolding contains
Glob-no_star done h = refl
Glob-no_star (same n e g) h = ground (arith, Glob-no_star g)
Glob-no_star (skip e g) h = ground arith
Glob-no_star (grow e n g) h = ground arith

-- `Match` decides the relation.
pub match-Glob : (path key : Bytes) → IsPlain path → (match path key ≡ true) ↔ Glob path key
unfolding match
match-Glob path key a = (to, from)
  where
    to : match path key ≡ true → Glob path key
    to h = elim (Bool-cases (bytes_eq path key)) [
      | inl e ↦ rw ((bytes_eq_iff path key).0 e) (Glob-refl key)
      | inr e ↦ matches_terms-Glob path key (ground (arith, filepath_match-plain path key a))
    ]

    from : Glob path key → match path key ≡ true
    from g = ground (
      arith,
      bytes_eq_iff path key,
      Glob-no_star g,
      filepath_match-plain path key a,
      Glob-matches_terms g,
      count-Glob g,
    )

-- The segments of a glob cover those of a key, one by one.
abbrev pub CoversEach : List Bytes → List Bytes → Type 0
CoversEach [] [] = Unit
CoversEach [] (_ ∷ _) = ⊥
CoversEach (_ ∷ _) [] = ⊥
CoversEach (p ∷ ps) (k ∷ ks) = Glob p k × CoversEach ps ks

-- Splitting gives at least one segment.
pub split_first : (s : Bytes) → (w : Bytes) × (ws : List Bytes) × (split s slash ≡ w ∷ ws)
unfolding split
split_first [] = ([], [], refl)
split_first (c ∷ s) = elim (Bool-cases (c == slash)) [
  | inl e ↦ ([], split s slash, rw e)
  | inr e ↦ let (w, ws, q) = split_first s in (c ∷ w, ws, rw (e, q))
]

pub Glob-CoversEach : {p k : Bytes} → Glob p k → CoversEach (split p slash) (split k slash)
unfolding split
Glob-CoversEach done = (done, tt)
Glob-CoversEach (same {c = c} {d = d} {p = p} {k = k} n e g) =
    rw e (elim (Bool-cases (c == slash)) [
      | inl t ↦ rw t (done, Glob-CoversEach g)
      | inr f ↦
          let (w, ws, q) = split_first p in
          let (v, vs, r) = split_first k in
          let ih = rw (q, r) at (Glob-CoversEach g) in rw (f, q, r) (same n refl ih.0, ih.1)
    ])
Glob-CoversEach (skip {c = c} {p = p} {k = k} e g) =
    let f : (c == slash) ≡ false = ground arith in
    let (w, ws, q) = split_first p in
    let (v, vs, r) = split_first k in
    let ih = rw (q, r) at (Glob-CoversEach g) in rw (f, q, r) (skip e ih.0, ih.1)
Glob-CoversEach (grow {c = c} {d = d} {p = p} {k = k} e n g) =
    let f : (c == slash) ≡ false = ground arith in
    let f' : (d == slash) ≡ false = ground arith in
    let (w, ws, q) = split_first p in
    let (v, vs, r) = split_first k in
    let ih = rw (f, q, r) at (Glob-CoversEach g) in rw (f, f', q, r) (grow e n ih.0, ih.1)
