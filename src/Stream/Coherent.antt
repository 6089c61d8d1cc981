-- ===== src/Stream/Coherent.antt =====
-- What the caches of the pools are known to hold, through every call that changes a stream.
use katamari.Base.{
  returns_inj, ℕ, zero, suc, ◌≡◌, refl, sym, ◌≢◌, Bool, false, List, [], ◌∷◌, ◌++◌, some, arith,
  All, Result, ok, err, returns, subst, Bool-cases, Option-cases, Result-cases, inl, inr,
}
use katamari.Base.Int.{ℤ}
use katamari.Base.Text.{Bytes, bytes_eq, bytes_eq_iff}
use katamari.Key.{peer}
use katamari.Messages.{Patcher}
use katamari.Stream.Pools.{Pool, Stream, find_pool, update_pool}
use katamari.Stream.{
  new, close, set_cache, refresh, or_empty, get_cache_version, set_pool_cache, broadcast_pool,
  skip_clock, broadcast_loop, broadcast,
}

-- of every pool but the first, which is the clock's
abbrev pub AllBehind {κ} : (Pool → Type κ) → List Pool → Type κ
AllBehind P [] = Unit
AllBehind P (p ∷ ps) = All P ps

module _ {κ} (P : Pool → Type κ) where
  All-add : (ps : List Pool) (p : Pool) → All P ps → P p → All P (ps ++ p ∷ [])
  All-add [] p h q = (q, tt)
  All-add (o ∷ ps) p h q = (h.0, All-add ps p h.1 q)

  AllBehind-add : (ps : List Pool) (p : Pool) → AllBehind P ps → P p → AllBehind P (ps ++ p ∷ [])
  AllBehind-add [] p h q = tt
  AllBehind-add (o ∷ ps) p h q = All-add ps p h q

  All-update :
      (key : Bytes) (f : Pool → Pool) (ps : List Pool) (i : ℕ)
      → find_pool key ps ≡ some i
      → ((p : Pool) → p.key ≡ key → P p → P (f p))
      → All P ps
      → All P (update_pool i f ps)
  unfolding update_pool find_pool
  All-update key f [] i found keeps h = tt
  All-update key f (p ∷ ps) i found keeps h = elim (Bool-cases (bytes_eq p.key key)) [
    | inl self ↦
        let first : i ≡ 0 = ground (arith, found, self) in
        rw first (keeps p ((bytes_eq_iff p.key key).0 self) h.0, h.1)
    | inr other ↦ elim (Option-cases (find_pool key ps)) [
      | inl missing ↦ absurd (ground (arith, found, other, missing))
      | inr (j, there) ↦
          let next : i ≡ suc j = ground (arith, found, other, there) in
          rw next (h.0, All-update key f ps j there keeps h.1)
    ]
  ]

  AllBehind-update :
      (key : Bytes) (f : Pool → Pool) (ps : List Pool) (i : ℕ)
      → find_pool key ps ≡ some i
      → ((p : Pool) → p.key ≡ key → P p → P (f p))
      → AllBehind P ps
      → AllBehind P (update_pool i f ps)
  unfolding update_pool find_pool
  AllBehind-update key f [] i found keeps h = tt
  AllBehind-update key f (p ∷ ps) zero found keeps h = h
  AllBehind-update key f (p ∷ ps) (suc i) found keeps h = elim (Option-cases (find_pool key ps)) [
    | inl missing ↦ absurd (ground (arith, found, missing))
    | inr (j, there) ↦
        let next : i ≡ j = ground (arith, found, there) in
        rw next (All-update key f ps j there keeps h)
  ]

module _ {κ} (Holds : Bytes → Bytes → Type κ) where
  -- A cache that holds anything holds what `Holds` allows for the key.
  abbrev pub Cached : Pool → Type κ
  Cached p = p.cache.content ≢ [] → Holds p.key p.cache.content

  abbrev pub IsCoherent : Stream → Type κ
  IsCoherent sm = AllBehind Cached sm.pools

  pub new-IsCoherent : (key : Bytes) (sm : Stream) → IsCoherent sm → IsCoherent (new key sm).1
  unfolding new
  new-IsCoherent key sm h = elim (Option-cases (find_pool key sm.pools)) [
    | inl missing ↦
        simp (new, missing) (AllBehind-add Cached sm.pools _ h (λ full. absurd (full refl)))
    | inr (i, there) ↦
        simp (new, there) (AllBehind-update Cached key _ sm.pools i there (λ p same held. held) h)
  ]

  pub close-IsCoherent :
      (key : Bytes) (client : ℕ) (sm sm' : Stream)
      → close key client sm ≡ returns sm'
      → IsCoherent sm
      → IsCoherent sm'
  unfolding close
  close-IsCoherent key client sm sm' closed h = elim (Option-cases (find_pool key sm.pools)) [
    | inl missing ↦ let stuck = rw (close, missing) at closed in cc
    | inr (i, there) ↦
        subst IsCoherent (returns_inj (rw (close, there) at closed))
          (AllBehind-update Cached key _ sm.pools i there (λ p same held. held) h)
  ]

  set_cache-IsCoherent :
      (now : ℤ) (key content : Bytes) (sm : Stream)
      → Holds key content
      → IsCoherent sm
      → IsCoherent (set_cache now key content sm).1
  unfolding set_cache set_pool_cache
  set_cache-IsCoherent now key content sm holds h = elim (Option-cases (find_pool key sm.pools)) [
    | inl missing ↦ simp (set_cache, missing) (AllBehind-add Cached sm.pools _ h (λ full. holds))
    | inr (i, there) ↦
        simp (set_cache, there)
          (AllBehind-update Cached key _ sm.pools i there
            (λ p same held full. subst (λ k. Holds k content) (sym same) holds) h)
  ]

  pub refresh-IsCoherent :
      (now : ℤ) (key : Bytes) (get : Bytes → Result Bytes) (sm : Stream)
      → ((raw : Bytes) → get key ≡ ok raw → Holds key (or_empty raw))
      → IsCoherent sm
      → IsCoherent (refresh now key get sm).1
  unfolding refresh
  refresh-IsCoherent now key get sm served h = elim (Result-cases (get key)) [
    | inl (e, filtered) ↦ simp (refresh, filtered) h
    | inr (raw, there) ↦ elim (Result-cases (get_cache_version key sm)) [
      | inl (e, missing) ↦
          simp (refresh, there, missing)
            (set_cache-IsCoherent now key (or_empty raw) sm (served raw there) h)
      | inr (version, had) ↦ simp (refresh, there, had) h
    ]
  ]

module _ {κ ℓ} (Holds : Bytes → Bytes → Type κ) (Holds' : Bytes → Bytes → Type ℓ) where
  All-weaken :
      (ps : List Pool)
      → ((key content : Bytes) → Holds key content → Holds' key content)
      → All (Cached Holds) ps
      → All (Cached Holds') ps
  All-weaken [] weaker h = tt
  All-weaken (p ∷ ps) weaker h = (λ full. weaker _ _ (h.0 full), All-weaken ps weaker h.1)

  -- The same pools, of which less is known.
  pub weaken-IsCoherent :
      (sm : Stream)
      → ((key content : Bytes) → Holds key content → Holds' key content)
      → IsCoherent Holds sm
      → IsCoherent Holds' sm
  weaken-IsCoherent sm weaker h = behind sm.pools weaker h
    where
      behind :
          (ps : List Pool)
          → ((key content : Bytes) → Holds key content → Holds' key content)
          → AllBehind (Cached Holds) ps
          → AllBehind (Cached Holds') ps
      behind [] weaker h = tt
      behind (p ∷ ps) weaker h = All-weaken ps weaker h

  module _ (patcher : Patcher) (get : Bytes → Result Bytes) (encode : Bytes → Bytes)
      (no_patch force : Bool) (path : Bytes)
      (apart : (key content : Bytes)
        → peer key path ≡ false
        → Holds key content
        → Holds' key content)
      (filtered : (key content e : Bytes)
        → get key ≡ err e
        → Holds key content
        → Holds' key content)
      (served : (key content : Bytes)
        → content ≢ []
        → get key ≡ ok content
        → Holds' key content) where
    broadcast_pool-Cached :
        (now : ℤ) (p : Pool)
        → Cached Holds p
        → Cached Holds' (broadcast_pool patcher get encode now no_patch force path p).0
    unfolding broadcast_pool set_pool_cache
    broadcast_pool-Cached now p held = elim (Bool-cases (peer p.key path)) [
      | inr other ↦ simp (broadcast_pool, other) (λ full. apart _ _ other (held full))
      | inl concerned ↦ elim (Result-cases (get p.key)) [
        | inl (e, failed) ↦
            simp (broadcast_pool, concerned, failed) (λ full. filtered _ _ e failed (held full))
        | inr (content, there) ↦
            simp (broadcast_pool, concerned, there) (λ full. served p.key content full there)
      ]
    ]

    broadcast_loop-Cached :
        (times : ℕ → ℤ) (i : ℕ) (ps : List Pool)
        → All (Cached Holds) ps
        → All (Cached Holds') (broadcast_loop patcher get encode times no_patch force path i ps).0
    unfolding broadcast_loop
    broadcast_loop-Cached times i [] h = tt
    broadcast_loop-Cached times i (p ∷ ps) h =
        (broadcast_pool-Cached (times i) p h.0, broadcast_loop-Cached times (suc i) ps h.1)

-- `Broadcast` where `Holds` was known before it and `Holds'` is to be known after it: of the pools
-- that it leaves alone, of those whose data are filtered, and of the others, which get their data.
pub broadcast-IsCoherent {κ ℓ} :
    (Holds : Bytes → Bytes → Type κ) (Holds' : Bytes → Bytes → Type ℓ) (patcher : Patcher)
    (get : Bytes → Result Bytes) (encode : Bytes → Bytes) (times : ℕ → ℤ) (path : Bytes)
    (sm : Stream)
    → ((key content : Bytes) → peer key path ≡ false → Holds key content → Holds' key content)
    → ((key content e : Bytes) → get key ≡ err e → Holds key content → Holds' key content)
    → ((key content : Bytes) → content ≢ [] → get key ≡ ok content → Holds' key content)
    → IsCoherent Holds sm
    → IsCoherent Holds' (broadcast patcher get encode times path sm).0
unfolding broadcast
broadcast-IsCoherent Holds Holds' patcher get encode times path sm apart filtered served h =
    behind sm.pools h
  where
    behind :
        (ps : List Pool)
        → AllBehind (Cached Holds) ps
        → AllBehind
            (Cached Holds')
            (skip_clock patcher
              (broadcast_loop patcher get encode times sm.no_patch sm.force_patch path)
              ps).0
    behind [] h = tt
    behind (p ∷ ps) h =
        broadcast_loop-Cached Holds Holds' patcher get encode sm.no_patch sm.force_patch path apart
          filtered served times 1 ps h
