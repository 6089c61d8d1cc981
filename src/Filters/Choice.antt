-- ===== src/Filters/Choice.antt =====
-- The search that every `check` of filters.go begins with: the first rule, in the order of
-- registration, whose path is the key or covers it.
use katamari.Base.{
  ◌≡◌, refl, ◌⊎◌, inl, inr, Bool, true, false, ◌||◌, List, [], ◌∷◌, ◌++◌, Option, none, some,
  if◌then◌else◌, Bool-cases, append_assoc, ap,
}
use katamari.Base.Text.{Bytes, bytes_eq}
use katamari.Key.{match}

-- `filter`, `hook` and `watch`
pub record Rule {ℓ} (A : Type ℓ) : Type ℓ where
  pub path : Bytes
  pub apply : A

-- filter.path == path || key.Match(filter.path, path)
unfoldable pub covers {ℓ} : {A : Type ℓ} → Bytes → Rule A → Bool
covers path r = bytes_eq r.path path || match r.path path

-- The loop that looks for `match`, and `r[match].apply`; `none` stands for -1.
unfoldable pub first_match {ℓ} : {A : Type ℓ} → Bytes → List (Rule A) → Option A
first_match path [] = none
first_match path (r ∷ rs) = if covers path r then some r.apply else first_match path rs

module _ {ℓ} {A : Type ℓ} where
  -- No rule of the list covers the path.
  abbrev pub NoneCovers : Bytes → List (Rule A) → Type 0
  NoneCovers path [] = Unit
  NoneCovers path (r ∷ rs) = (covers path r ≡ false) × NoneCovers path rs

  -- `r` covers the path, and no rule before it does.
  pub record IsFirst (path : Bytes) (rs : List (Rule A)) (r : Rule A) : Type ℓ where
    pub before : List (Rule A)
    pub behind : List (Rule A)
    pub place : rs ≡ before ++ r ∷ behind
    pub skipped : NoneCovers path before
    pub covered : covers path r ≡ true

  first_behind :
      (path : Bytes) (before behind : List (Rule A)) (r : Rule A)
      → NoneCovers path before
      → covers path r ≡ true
      → first_match path (before ++ r ∷ behind) ≡ some r.apply
  unfolding first_match
  first_behind path [] behind r h c = rw c
  first_behind path (q ∷ before) behind r h c = rw h.0 (first_behind path before behind r h.1 c)

  pub first_match-IsFirst :
      (path : Bytes) (rs : List (Rule A)) (r : Rule A)
      → IsFirst path rs r
      → first_match path rs ≡ some r.apply
  first_match-IsFirst path rs r f =
      rw f.place (first_behind path f.before f.behind r f.skipped f.covered)

  pub first_match-none :
      (path : Bytes) (rs : List (Rule A)) → NoneCovers path rs → first_match path rs ≡ none
  unfolding first_match
  first_match-none path [] h = refl
  first_match-none path (r ∷ rs) h = rw h.0 (first_match-none path rs h.1)

  -- One of the two is the case.
  pub IsFirst-or_none :
      (path : Bytes) (rs : List (Rule A)) → NoneCovers path rs ⊎ ((r : Rule A) × IsFirst path rs r)
  IsFirst-or_none path [] = inl tt
  IsFirst-or_none path (r ∷ rs) = elim (Bool-cases (covers path r)) [
    | inl c ↦ inr (r, record { before = []; behind = rs; place = refl; skipped = tt; covered = c })
    | inr n ↦ elim (IsFirst-or_none path rs) [
      | inl none_covers ↦ inl (n, none_covers)
      | inr (q, f) ↦ inr (
        q,
        record {
          before = r ∷ f.before;
          behind = f.behind;
          place = ap (λ t. r ∷ t) f.place;
          skipped = (n, f.skipped);
          covered = f.covered;
        },
      )
    ]
  ]

  -- A rule registered later takes nothing from an earlier one.
  pub IsFirst-append :
      (path : Bytes) (rs : List (Rule A)) (r q : Rule A)
      → IsFirst path rs r
      → IsFirst path (rs ++ q ∷ []) r
  IsFirst-append path rs r q f = record {
    before = f.before;
    behind = f.behind ++ q ∷ [];
    place = rw f.place (append_assoc f.before (r ∷ f.behind) (q ∷ []));
    skipped = f.skipped;
    covered = f.covered;
  }

  -- It is the first where none covered the path before.
  pub IsFirst-added :
      (path : Bytes) (rs : List (Rule A)) (q : Rule A)
      → NoneCovers path rs
      → covers path q ≡ true
      → IsFirst path (rs ++ q ∷ []) q
  IsFirst-added path rs q n c = record {
    before = rs;
    behind = [];
    place = refl;
    skipped = n;
    covered = c;
  }
