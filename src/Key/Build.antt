-- ===== src/Key/Build.antt =====
-- `Build` of key/key.go: the key that it makes of a path, and the paths that it leaves alone.
use katamari.Base.{
  ℕ, suc, ◌<◌, ◌^◌, ◌≡◌, refl, true, false, [], ◌∷◌, ◌++◌, arith, length, drop, All, Bool-cases,
  inl, inr, append-nil, ◌≢◌,
}
use katamari.Base.Int.{ℤ, pos}
use katamari.Base.Text.{
  Bytes, bytes_eq, codes, slash, contains, has_prefix, after_last_index, replace_first,
}
use katamari.Key.Number.{format_int}
use katamari.Key.Roundtrip.{IsDigit, IsNumeral, format_int-IsNumeral, decode-format_int}
use katamari.Key.Segments.{IsPlain, Glob, done, same, skip, grow, match-Glob}
use katamari.Key.{last_index, build, decode, match, path_char}

-- No star in the text.
abbrev pub NoStar : Bytes → Type 0
NoStar s = contains s (codes "*") ≡ false

contains-ends_in_star : (p : Bytes) → contains (p ++ codes "*") (codes "*") ≡ true
unfolding contains
contains-ends_in_star [] = refl
contains-ends_in_star (c ∷ p) = ground (arith, contains-ends_in_star p)

replace_first-glob :
    (p new : Bytes) → NoStar p → replace_first (p ++ codes "/*") (codes "/*") new ≡ p ++ new
unfolding replace_first contains has_prefix
replace_first-glob [] new h = append-nil new
replace_first-glob (c ∷ []) new h = ground (arith, replace_first-glob [] new)
replace_first-glob (c ∷ d ∷ p) new h = ground (arith, replace_first-glob (d ∷ p) new)

All-NoStar : (w : Bytes) → All IsDigit w → NoStar w
unfolding contains
All-NoStar [] h = refl
All-NoStar (c ∷ w) h = ground (arith, All-NoStar w)

NoStar-append : (p w : Bytes) → NoStar p → NoStar w → NoStar (p ++ w)
unfolding contains
NoStar-append [] w h k = k
NoStar-append (c ∷ p) w h k = ground (arith, NoStar-append p w)

no_slash : (w : Bytes) → All IsDigit w → after_last_index w slash ≡ 0
unfolding after_last_index
no_slash [] h = refl
no_slash (c ∷ w) h = ground (arith, no_slash w)

after_last_index-slash :
    (p w : Bytes) → All IsDigit w → after_last_index (p ++ slash ∷ w) slash ≡ suc (length p)
unfolding after_last_index
after_last_index-slash [] w h = ground (arith, no_slash w)
after_last_index-slash (c ∷ p) w h = ground (arith, after_last_index-slash p w)

pub drop-past : (p w : Bytes) → drop (suc (length p)) (p ++ slash ∷ w) ≡ w
drop-past [] w = refl
drop-past (c ∷ p) w = drop-past p w

last_index-slash : (p w : Bytes) → All IsDigit w → last_index (p ++ slash ∷ w) ≡ w
unfolding last_index
last_index-slash p w h = rw (last_index, after_last_index-slash p w h) (drop-past p w)

star_covers : (w : Bytes) → All IsDigit w → Glob (codes "*") w
star_covers [] h = skip refl done
star_covers (c ∷ w) h = grow refl (λ q. ground arith) (star_covers w h.1)

Glob-covers : (p w : Bytes) → NoStar p → All IsDigit w → Glob (p ++ codes "/*") (p ++ slash ∷ w)
unfolding contains
Glob-covers [] w h k = same (λ q. ground arith) refl (star_covers w k)
Glob-covers (c ∷ p) w h k = same (λ q. ground arith) refl (Glob-covers p w (ground arith) k)

IsPlain-glob : (p : Bytes) → IsPlain p → IsPlain (p ++ codes "/*")
unfolding path_char
IsPlain-glob [] h = (refl, (refl, tt))
IsPlain-glob (c ∷ p) h = (h.0, IsPlain-glob p h.1)

NoStar-slash : (w : Bytes) → NoStar w → NoStar (slash ∷ w)
unfolding contains
NoStar-slash w h = ground arith

IsNumeral-digits : (w : Bytes) → IsNumeral w → All IsDigit w
IsNumeral-digits [] h = tt
IsNumeral-digits (c ∷ w) h = h

contains-glob : (p : Bytes) → contains (p ++ codes "/*") (codes "*") ≡ true
unfolding contains
contains-glob [] = refl
contains-glob (c ∷ p) = ground (arith, contains-glob p)

-- `Build` puts the time in place of the star that ends a path.
pub build-glob :
    (now : ℤ) (p : Bytes) → NoStar p → build now (p ++ codes "/*") ≡ p ++ slash ∷ format_int now
unfolding build
build-glob now p h =
    rw (build, contains-glob p) (replace_first-glob p (codes "/" ++ format_int now) h)

-- For every path `p/*` whose prefix has no star, and every time of an int64 from 0 on: the key
-- that `Build` makes is covered by the path, it has no star, and `Decode` of its last segment is
-- the time.
pub build_glob_lem :
    (t : ℕ) (p : Bytes)
    → t < 2 ^ 63
    → IsPlain p
    → NoStar p
    → (match (p ++ codes "/*") (build (pos t) (p ++ codes "/*")) ≡ true)
      × NoStar (build (pos t) (p ++ codes "/*"))
      × (decode (last_index (build (pos t) (p ++ codes "/*"))) ≡ pos t)
build_glob_lem t p b plain h =
    let w = format_int (pos t) in
    let digits : All IsDigit w = IsNumeral-digits w (format_int-IsNumeral t) in
    rw (build-glob (pos t) p h) (
      (match-Glob _ _ (IsPlain-glob p plain)).1 (Glob-covers p w h digits),
      NoStar-append p (slash ∷ w) h (NoStar-slash w (All-NoStar w digits)),
      rw (last_index-slash p w digits) (decode-format_int (pos t) b),
    )

replace_first_absent : (s old new : Bytes) → contains s old ≡ false → replace_first s old new ≡ s
unfolding replace_first contains
replace_first_absent [] old new h = refl
replace_first_absent (c ∷ s) old new h = ground (arith, replace_first_absent s old new)

-- `Build` changes only a path in which a segment begins with a star: a star that stands elsewhere,
-- as in `a*`, or a path that is `*` alone, stays in the key.
build-unchanged :
    (now : ℤ) (path : Bytes) → contains path (codes "/*") ≡ false → build now path ≡ path
unfolding build
build-unchanged now path h = elim (Bool-cases (contains path (codes "*"))) [
  | inl e ↦ rw (build, e) (replace_first_absent path (codes "/*") _ h)
  | inr e ↦ rw (build, e)
]

replace_first-named :
    (c : ℕ) (s rest : Bytes)
    → bytes_eq (replace_first (c ∷ s) (codes "/*") (codes "/" ++ rest)) [] ≡ false
unfolding replace_first bytes_eq
replace_first-named c s rest = elim (Bool-cases (has_prefix (c ∷ s) (codes "/*"))) [
  | inl e ↦ rw e refl
  | inr e ↦ rw e refl
]

-- The key that `Build` makes of a path that is not empty is not empty.
pub build-named : (now : ℤ) (path : Bytes) → path ≢ [] → bytes_eq (build now path) [] ≡ false
unfolding build bytes_eq
build-named now [] named = absurd (named refl)
build-named now (c ∷ path) named = elim (Bool-cases (contains (c ∷ path) (codes "*"))) [
  | inl e ↦ rw (build, e) (replace_first-named c path (format_int now))
  | inr e ↦ rw (build, e) refl
]
