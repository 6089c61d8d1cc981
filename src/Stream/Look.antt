-- ===== src/Stream/Look.antt =====
-- The pools as a map: the first pool of a key, and what a change at the index that `findPool` of
-- stream/stream.go returns means for it.
use katamari.Base.{
  ℕ, suc, ◌≡◌, refl, ◌∙◌, inl, inr, true, false, List, [], ◌∷◌, ◌++◌, Option, none, some, arith,
  if◌then◌else◌, Bool-cases, Option-cases,
}
use katamari.Base.Text.{Bytes, bytes_eq, bytes_eq_iff}
use katamari.Stream.Pools.{Pool, find_pool, pool_at, update_pool}

unfoldable pub look : Bytes → List Pool → Option Pool
look k [] = none
look k (p ∷ ps) = if bytes_eq p.key k then some p else look k ps

abbrev pub map_option {ℓ κ} : {A : Type ℓ} {B : Type κ} → (A → B) → Option A → Option B
map_option f none = none
map_option f (some a) = some (f a)

pub find_pool-none : (k : Bytes) (ps : List Pool) → find_pool k ps ≡ none → look k ps ≡ none
unfolding find_pool look
find_pool-none k [] h = refl
find_pool-none k (p ∷ ps) h = ground (arith, find_pool-none k ps)

find_pool_here :
    (k : Bytes) (p : Pool) (ps : List Pool) (i : ℕ)
    → bytes_eq p.key k ≡ true
    → find_pool k (p ∷ ps) ≡ some i
    → i ≡ 0
unfolding find_pool
find_pool_here k p ps i e h = ground (arith, rw (find_pool, e) at h)

find_pool_further :
    (k : Bytes) (p : Pool) (ps : List Pool) (i : ℕ)
    → bytes_eq p.key k ≡ false
    → find_pool k (p ∷ ps) ≡ some i
    → (m : ℕ) × (i ≡ suc m) × (find_pool k ps ≡ some m)
unfolding find_pool
find_pool_further k p ps i n h = elim (Option-cases (find_pool k ps)) [
  | inl e ↦ absurd (ground (arith, rw (find_pool, n, e) at h))
  | inr (m, e) ↦ (m, ground (arith, rw (find_pool, n, e) at h), e)
]

pub find_pool-some :
    (k : Bytes) (ps : List Pool) (i : ℕ)
    → find_pool k ps ≡ some i
    → (p : Pool) × (pool_at ps i ≡ some p) × (look k ps ≡ some p) × (p.key ≡ k)
unfolding find_pool look
find_pool-some k [] i h = absurd (cc)
find_pool-some k (p ∷ ps) i h = elim (Bool-cases (bytes_eq p.key k)) [
  | inl e ↦ rw (find_pool_here k p ps i e h, e) (p, refl, refl, (bytes_eq_iff p.key k).0 e)
  | inr n ↦
      let (m, next, found) = find_pool_further k p ps i n h in
      let (q, at, seen, named) = find_pool-some k ps m found in rw (next, n) (q, at, seen, named)
]

pub look-update :
    (k j : Bytes) (f : Pool → Pool) (ps : List Pool) (i : ℕ)
    → ((p : Pool) → (f p).key ≡ p.key)
    → find_pool k ps ≡ some i
    → look j (update_pool i f ps) ≡ (if bytes_eq k j then map_option f (look j ps) else look j ps)
unfolding find_pool look update_pool
look-update k j f [] i keeps h = absurd (cc)
look-update k j f (p ∷ ps) i keeps h = elim (Bool-cases (bytes_eq p.key k)) [
  | inl e ↦
      rw (find_pool_here k p ps i e h)
        (ground (arith, keeps p, bytes_eq_iff p.key k, bytes_eq_iff p.key j, bytes_eq_iff k j))
  | inr n ↦
      let (m, next, found) = find_pool_further k p ps i n h in
      let ih = look-update k j f ps m keeps found in
      rw next (ground (arith, ih, bytes_eq_iff p.key k, bytes_eq_iff p.key j, bytes_eq_iff k j))
]

pub look-append :
    (k j : Bytes) (q : Pool) (ps : List Pool)
    → q.key ≡ k
    → find_pool k ps ≡ none
    → look j (ps ++ q ∷ []) ≡ (if bytes_eq k j then some q else look j ps)
unfolding find_pool look
look-append k j q [] e h = ground (arith, e)
look-append k j q (p ∷ ps) e h =
    ground
      (arith, bytes_eq_iff p.key k, bytes_eq_iff p.key j, bytes_eq_iff k j, look-append k j q ps e)

-- A change of the pool of a key changes what the map has for that key, and nothing else.
pub look-update_found :
    (k j : Bytes) (f : Pool → Pool) (ps : List Pool) (i : ℕ) (p : Pool)
    → ((q : Pool) → (f q).key ≡ q.key)
    → find_pool k ps ≡ some i
    → look k ps ≡ some p
    → look j (update_pool i f ps) ≡ (if bytes_eq k j then some (f p) else look j ps)
look-update_found k j f ps i p keeps found seen = elim (Bool-cases (bytes_eq k j)) [
  | inl e ↦
      let same : look j ps ≡ some p = rw (← (bytes_eq_iff k j).0 e) seen in
      look-update k j f ps i keeps found ∙ rw (e, same)
  | inr n ↦ look-update k j f ps i keeps found ∙ rw n
]

-- `findPool` finds a pool exactly where the map has one.
pub find_pool-look :
    (k : Bytes) (ps : List Pool) (p : Pool)
    → look k ps ≡ some p
    → (i : ℕ) × (find_pool k ps ≡ some i) × (pool_at ps i ≡ some p)
find_pool-look k ps p h = elim (Option-cases (find_pool k ps)) [
  | inl e ↦ absurd (ground (arith, find_pool-none k ps e))
  | inr (i, e) ↦
      let (q, at, seen, named) = find_pool-some k ps i e in (i, e, ground (arith, at, seen))
]

pub look-none-find_pool : (k : Bytes) (ps : List Pool) → look k ps ≡ none → find_pool k ps ≡ none
look-none-find_pool k ps h = elim (Option-cases (find_pool k ps)) [
  | inl e ↦ e
  | inr (i, e) ↦ let (q, at, seen, named) = find_pool-some k ps i e in absurd (ground (arith, seen))
]
