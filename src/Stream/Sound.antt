-- ===== src/Stream/Sound.antt =====
-- What holds of the pools of stream/stream.go between any two of its calls.
use katamari.Base.{
  ℕ, zero, suc, ◌+◌, ◌-◌, ◌≤◌, ◌≡◌, refl, ap, ◌∙◌, Bool, false, List, [], ◌∷◌, ◌++◌, none, arith,
  ◌==◌, if◌then◌else◌, keep, All,
}
use katamari.Base.Text.{Bytes, bytes_eq, count}
use katamari.Stream.Pools.{Pool, Stream, find_pool, update_pool}

-- how often a connection stands in the pools, and the keys of the pools
unfoldable pub total : ℕ → List Pool → ℕ
total c [] = 0
total c (p ∷ ps) = count p.connections c + total c ps

abbrev pub names : List Pool → List Bytes
names [] = []
names (p ∷ ps) = p.key ∷ names ps

abbrev pub Absent : Bytes → List Bytes → Type 0
Absent k = All (λ j. bytes_eq j k ≡ false)

abbrev pub AllDistinct : List Bytes → Type 0
AllDistinct [] = Unit {0}
AllDistinct (k ∷ ks) = All (λ j. bytes_eq k j ≡ false) ks × AllDistinct ks

-- The first pool is that of the clock, under the empty key. No key has two pools, no connection
-- stands twice, and none stands anywhere that is still to get its number.
pub record IsSound (sm : Stream) : Type 0 where
  pub clocked : (rest : List Bytes) × (names sm.pools ≡ [] ∷ rest)
  pub distinct : AllDistinct (names sm.pools)
  pub once : (c : ℕ) → total c sm.pools ≤ 1
  pub unused : (c : ℕ) → sm.next ≤ c → total c sm.pools ≡ 0

pub count-append_one :
    (ks : List ℕ) (k c : ℕ) → count (ks ++ k ∷ []) c ≡ count ks c + (if k == c then 1 else 0)
unfolding count
count-append_one [] k c = ground arith
count-append_one (j ∷ ks) k c = ground (arith, count-append_one ks k c)

pub count-keep-le : (p : ℕ → Bool) (ks : List ℕ) (c : ℕ) → count (keep p ks) c ≤ count ks c
unfolding count
count-keep-le p [] c = omega arith
count-keep-le p (k ∷ ks) c = ground (arith, count-keep-le p ks c)

total-append :
    (c : ℕ) (ps : List Pool) (p : Pool)
    → total c (ps ++ p ∷ []) ≡ total c ps + count p.connections c
unfolding total
total-append c [] p = omega arith
total-append c (q ∷ ps) p = omega (arith, total-append c ps p)

pub total-update_pool :
    (c d i : ℕ) (f : Pool → Pool) (ps : List Pool)
    → ((p : Pool) → count (f p).connections c ≤ count p.connections c + d)
    → total c (update_pool i f ps) ≤ total c ps + d
unfolding total update_pool
total-update_pool c d i f [] h = omega arith
total-update_pool c d zero f (p ∷ ps) h = omega (arith, h p)
total-update_pool c d (suc i) f (p ∷ ps) h = omega (arith, total-update_pool c d i f ps h)

pub names-update_pool :
    (i : ℕ) (f : Pool → Pool) (ps : List Pool)
    → ((p : Pool) → (f p).key ≡ p.key)
    → names (update_pool i f ps) ≡ names ps
unfolding update_pool
names-update_pool i f [] h = refl
names-update_pool zero f (p ∷ ps) h = ap (λ k. k ∷ names ps) (h p)
names-update_pool (suc i) f (p ∷ ps) h = ap (λ ks. p.key ∷ ks) (names-update_pool i f ps h)

pub names-append : (ps : List Pool) (p : Pool) → names (ps ++ p ∷ []) ≡ names ps ++ p.key ∷ []
names-append [] p = refl
names-append (q ∷ ps) p = ap (λ ks. q.key ∷ ks) (names-append ps p)

Absent-names : (key : Bytes) (ps : List Pool) → find_pool key ps ≡ none → Absent key (names ps)
unfolding find_pool
Absent-names key [] h = tt
Absent-names key (p ∷ ps) h = ground (arith, Absent-names key ps)

All-append_one :
    (P : Bytes → Type 0) (ks : List Bytes) (k : Bytes) → All P ks → P k → All P (ks ++ k ∷ [])
All-append_one P [] k h q = (q, tt)
All-append_one P (j ∷ ks) k (g, h) q = (g, All-append_one P ks k h q)

AllDistinct-append :
    (ks : List Bytes) (k : Bytes) → AllDistinct ks → Absent k ks → AllDistinct (ks ++ k ∷ [])
AllDistinct-append [] k h a = (tt, tt)
AllDistinct-append (j ∷ ks) k (g, h) (q, a) =
    (All-append_one (λ i. bytes_eq j i ≡ false) ks k g q, AllDistinct-append ks k h a)

-- A change of the pools that keeps their keys and adds `d c` at most to each connection's places.
pub changed-IsSound :
    (sm : Stream) (ps : List Pool) (n : ℕ)
    → IsSound sm
    → names ps ≡ names sm.pools
    → ((c : ℕ) → total c ps ≤ total c sm.pools + (if c == sm.next then n - sm.next else 0))
    → sm.next ≤ n
    → n ≤ suc sm.next
    → IsSound (record sm { pools = ps; next = n })
changed-IsSound sm ps n s same within from to = record {
  clocked = rw same s.clocked;
  distinct = rw same s.distinct;
  once = λ c. ground (arith, within c, s.once c, s.unused c);
  unused = λ c h. ground (arith, within c, s.unused c);
}

-- A pool of a key that had none, with at most the next connection in it.
pub added-IsSound :
    (sm : Stream) (p : Pool) (n : ℕ)
    → IsSound sm
    → find_pool p.key sm.pools ≡ none
    → ((c : ℕ) → count p.connections c ≤ (if c == sm.next then n - sm.next else 0))
    → sm.next ≤ n
    → n ≤ suc sm.next
    → IsSound (record sm { pools = sm.pools ++ p ∷ []; next = n })
added-IsSound sm p n s missing within from to =
    let (rest, first) = s.clocked in
    record {
      clocked = (rest ++ p.key ∷ [], names-append sm.pools p ∙ ap (λ ks. ks ++ p.key ∷ []) first);
      distinct = rw (names-append sm.pools p) (
          AllDistinct-append (names sm.pools) p.key s.distinct
            (Absent-names p.key sm.pools missing));
      once = λ c. ground (arith, total-append c sm.pools p, within c, s.once c, s.unused c);
      unused = λ c h. ground (arith, total-append c sm.pools p, within c, s.unused c);
    }
