-- ===== src/Stream/Extending.antt =====
-- Each call of stream/stream.go keeps the pools sound and the keys that they have.
use katamari.Base.{
  In, In-append_left, ◌≢◌, ℕ, suc, ◌+◌, ◌-◌, ◌≤◌, ◌≡◌, refl, inl, inr, Bool, not, List, [], ◌∷◌,
  ◌++◌, none, arith, ◌==◌, if◌then◌else◌, keep, Bool-cases, Option-cases, Result, Result-cases,
  returns,
}
use katamari.Base.Int.{ℤ}
use katamari.Base.Text.{Bytes, count, bytes_eq_iff}
use katamari.Key.{peer}
use katamari.Messages.{Patcher}
use katamari.Stream.Pools.{Pool, Stream, find_pool, update_pool, no_cache}
use katamari.Stream.{
  new, close, set_pool_cache, broadcast_pool, broadcast_loop, skip_clock, broadcast, set_cache,
  refresh, get_cache_version, or_empty,
}
use katamari.Stream.Sound.{
  IsSound, total, names, count-append_one, count-keep-le, total-update_pool, names-update_pool,
  names-append, changed-IsSound, added-IsSound,
}

-- What is sound stays so, and no key loses its pool.
pub record Extends (sm sm' : Stream) : Type 0 where
  pub sound : IsSound sm'
  pub known : (k : Bytes) → In k (names sm.pools) → In k (names sm'.pools)

same-Extends :
    (sm : Stream) (ps : List Pool) (n : ℕ)
    → IsSound sm
    → names ps ≡ names sm.pools
    → ((c : ℕ) → total c ps ≤ total c sm.pools + (if c == sm.next then n - sm.next else 0))
    → sm.next ≤ n
    → n ≤ suc sm.next
    → Extends sm (record sm { pools = ps; next = n })
same-Extends sm ps n s same within from to = record {
  sound = changed-IsSound sm ps n s same within from to;
  known = λ k i. rw same i;
}

added-Extends :
    (sm : Stream) (p : Pool) (n : ℕ)
    → IsSound sm
    → find_pool p.key sm.pools ≡ none
    → ((c : ℕ) → count p.connections c ≤ (if c == sm.next then n - sm.next else 0))
    → sm.next ≤ n
    → n ≤ suc sm.next
    → Extends sm (record sm { pools = sm.pools ++ p ∷ []; next = n })
added-Extends sm p n s missing within from to = record {
  sound = added-IsSound sm p n s missing within from to;
  known = λ k i. rw (names-append sm.pools p) (In-append_left k (names sm.pools) (p.key ∷ []) i);
}

-- a change of one pool that leaves its key and adds no place
kept-Extends :
    (sm : Stream) (i : ℕ) (f : Pool → Pool)
    → IsSound sm
    → ((p : Pool) → (f p).key ≡ p.key)
    → ((c : ℕ) (p : Pool) → count (f p).connections c ≤ count p.connections c)
    → Extends sm (record sm { pools = update_pool i f sm.pools })
kept-Extends sm i f s named fewer =
    same-Extends sm (update_pool i f sm.pools) sm.next s (names-update_pool i f sm.pools named)
      (λ c. ground (arith, total-update_pool c 0 i f sm.pools (λ p. omega (arith, fewer c p))))
      (omega arith) (omega arith)

pub new-Extends : (key : Bytes) (sm : Stream) → IsSound sm → Extends sm (new key sm).1
unfolding new
new-Extends key sm s = elim (Option-cases (find_pool key sm.pools)) [
  | inl missing ↦
      rw (new, missing)
        (added-Extends sm (record { key = key; cache = no_cache; connections = sm.next ∷ [] })
          (suc sm.next) s missing (λ c. unfold count in ground arith) (omega arith) (omega arith))
  | inr (i, there) ↦
      let join = λ (p : Pool). record p { connections = p.connections ++ sm.next ∷ [] } in
      rw (new, there)
        (same-Extends sm (update_pool i join sm.pools) (suc sm.next) s
          (names-update_pool i join sm.pools (λ p. refl))
          (λ c.
            total-update_pool c (if c == sm.next then suc sm.next - sm.next else 0) i join sm.pools
              (λ p. ground (arith, count-append_one p.connections sm.next c)))
          (omega arith) (omega arith))
]

In-names : (key : Bytes) (ps : List Pool) → In key (names ps) → find_pool key ps ≢ none
unfolding find_pool
In-names key [] i h = i
In-names key (p ∷ ps) i h = ground (arith, In-names key ps, bytes_eq_iff p.key key)

pub close-Extends :
    (key : Bytes) (client : ℕ) (sm : Stream)
    → IsSound sm
    → In key (names sm.pools)
    → (sm' : Stream) × (close key client sm ≡ returns sm') × Extends sm sm'
unfolding close
close-Extends key client sm s known = elim (Option-cases (find_pool key sm.pools)) [
  | inl missing ↦ absurd (In-names key sm.pools known missing)
  | inr (i, there) ↦
      let leave =
        λ (p : Pool). record p { connections = keep (λ v. not (v == client)) p.connections } in
      (
        record sm { pools = update_pool i leave sm.pools },
        rw (close, there) refl,
        kept-Extends sm i leave s (λ p. refl)
            (λ c p. count-keep-le (λ v. not (v == client)) p.connections c),
      )
]

set_cache-Extends :
    (now : ℤ) (key content : Bytes) (sm : Stream)
    → IsSound sm
    → Extends sm (set_cache now key content sm).1
unfolding set_cache set_pool_cache
set_cache-Extends now key content sm s = elim (Option-cases (find_pool key sm.pools)) [
  | inl missing ↦
      rw (set_cache, missing)
        (added-Extends sm
          (record {
            key = key;
            cache = record { version = now; content = content };
            connections = [];
          })
          sm.next s missing (λ c. unfold count in omega arith) (omega arith) (omega arith))
  | inr (i, there) ↦
      rw (set_cache, there)
        (kept-Extends sm i (set_pool_cache now content) s (λ p. refl) (λ c p. omega arith))
]

self-Extends : (sm : Stream) → IsSound sm → Extends sm sm
self-Extends sm s = record { sound = s; known = λ k i. i }

pub refresh-Extends :
    (now : ℤ) (key : Bytes) (get : Bytes → Result Bytes) (sm : Stream)
    → IsSound sm
    → Extends sm (refresh now key get sm).1
unfolding refresh
refresh-Extends now key get sm s = elim (Result-cases (get key)) [
  | inl (e, filtered) ↦ rw (refresh, filtered) (self-Extends sm s)
  | inr (raw, there) ↦ elim (Result-cases (get_cache_version key sm)) [
    | inl (e, missing) ↦
        rw (refresh, there, missing) (set_cache-Extends now key (or_empty raw) sm s)
    | inr (version, cached) ↦ rw (refresh, there, cached) (self-Extends sm s)
  ]
]

module _ (patcher : Patcher) (get : Bytes → Result Bytes) (encode : Bytes → Bytes) (times : ℕ → ℤ)
    (no_patch force : Bool) (path : Bytes) where
  pub broadcast_pool_same :
      (now : ℤ) (p : Pool)
      → let p' = (broadcast_pool patcher get encode now no_patch force path p).0 in
        (p'.key ≡ p.key) × (p'.connections ≡ p.connections)
  unfolding broadcast_pool set_pool_cache
  broadcast_pool_same now p = elim (Bool-cases (peer p.key path)) [
    | inl concerned ↦ elim (Result-cases (get p.key)) [
      | inl (e, filtered) ↦ rw (broadcast_pool, concerned, filtered) (refl, refl)
      | inr (content, there) ↦ rw (broadcast_pool, concerned, there) (refl, refl)
    ]
    | inr other ↦ rw (broadcast_pool, other) (refl, refl)
  ]

  broadcast_loop_same :
      (i : ℕ) (ps : List Pool)
      → let ps' = (broadcast_loop patcher get encode times no_patch force path i ps).0 in
        (names ps' ≡ names ps) × ((c : ℕ) → total c ps' ≡ total c ps)
  unfolding broadcast_loop total
  broadcast_loop_same i [] = (refl, λ c. refl)
  broadcast_loop_same i (p ∷ ps) =
      let (key, connections) = broadcast_pool_same (times i) p in
      let (keys, totals) = broadcast_loop_same (suc i) ps in
      (rw (key, keys) refl, λ c. rw (connections, totals c) refl)

  skip_clock_same :
      (ps : List Pool)
      → let ps' =
          (skip_clock patcher (broadcast_loop patcher get encode times no_patch force path) ps).0 in
        (names ps' ≡ names ps) × ((c : ℕ) → total c ps' ≡ total c ps)
  unfolding total
  skip_clock_same [] = (refl, λ c. refl)
  skip_clock_same (p ∷ ps) =
      let (keys, totals) = broadcast_loop_same 1 ps in (rw keys refl, λ c. rw (totals c) refl)

pub broadcast-Extends :
    (patcher : Patcher) (get : Bytes → Result Bytes) (encode : Bytes → Bytes) (times : ℕ → ℤ)
    (path : Bytes) (sm : Stream)
    → IsSound sm
    → Extends sm (broadcast patcher get encode times path sm).0
unfolding broadcast
broadcast-Extends patcher get encode times path sm s =
    let (keys, totals) =
      skip_clock_same patcher get encode times sm.no_patch sm.force_patch path sm.pools in
    same-Extends sm _ sm.next s keys (λ c. omega (arith, totals c)) (omega arith) (omega arith)
