-- ===== src/Stream/Joining.antt =====
-- A connection that joins a key, and the `Refresh` that its first message comes from.
use katamari.Base.{
  ℕ, ◌≤◌, ◌≡◌, refl, ◌∙◌, ◌⊎◌, ◌≢◌, inl, inr, List, [], ◌∷◌, Option, none, some, arith, Bool-cases,
  Result, ok,
}
use katamari.Base.Int.{ℤ}
use katamari.Base.Text.{Bytes, bytes_eq, bytes_eq_refl, count}
use katamari.Stream.Pools.{Pool, Stream}
use katamari.Stream.Look.{look}
use katamari.Stream.Operations.{joined, new_lem, cached}
use katamari.Stream.Refreshing.{NoCache, refresh_lem}
use katamari.Stream.Sound.{IsSound, total, count-append_one}
use katamari.Stream.{new, refresh, or_empty, set_pool_cache}

pub count-le_total :
    (key : Bytes) (c : ℕ) (ps : List Pool) (p : Pool)
    → look key ps ≡ some p
    → count p.connections c ≤ total c ps
unfolding look total
count-le_total key c [] p h = cc
count-le_total key c (q ∷ ps) p h = elim (Bool-cases (bytes_eq q.key key)) [
  | inl same ↦ ground (arith, same)
  | inr other ↦ omega (arith, count-le_total key c ps p (rw other at h))
]

pub count-joined :
    (key : Bytes) (sm : Stream) (o : Option Pool)
    → IsSound sm
    → look key sm.pools ≡ o
    → count (joined key sm.next o).connections sm.next ≡ 1
unfolding count
count-joined key sm none s h = ground arith
count-joined key sm (some p) s h = ground (
  arith,
  count-append_one p.connections sm.next sm.next,
  count-le_total key sm.next sm.pools p h,
  s.unused sm.next,
)

count-cached :
    (now : ℤ) (key content : Bytes) (q : Pool) (c : ℕ)
    → (count (cached now key content (some q)).connections c ≡ count q.connections c)
      × ((cached now key content (some q)).cache.content ≡ content)
unfolding set_pool_cache
count-cached now key content q c = (refl, refl)

-- the pool of the key after `new`
pub look-new :
    (key : Bytes) (sm : Stream)
    → look key (new key sm).1.pools ≡ some (joined key sm.next (look key sm.pools))
look-new key sm = let (_, _, pools) = new_lem key sm in pools key ∙ rw (bytes_eq_refl key) refl

-- Either nothing is cached under the key, or just these data are.
abbrev pub IsCurrent : Bytes → Bytes → Stream → Type 0
IsCurrent key content sm =
    NoCache key sm ⊎ ((p : Pool) × (look key sm.pools ≡ some p) × (p.cache.content ≡ content))

or_empty-ne : (raw : Bytes) → or_empty raw ≢ []
or_empty-ne [] h = cc
or_empty-ne (c ∷ s) h = cc

-- the connection's pool and message, where the cache of the key is current
abbrev pub Joins : ℤ → Bytes → Bytes → (Bytes → Result Bytes) → Stream → Type 0
Joins now key served get sm =
    (version : ℤ) × (p : Pool) × ((refresh now key get (new key sm).1).0
      ≡ ok (record { version = version; content = or_empty served }))
    × (look key (refresh now key get (new key sm).1).1.pools ≡ some p)
    × (p.cache.content ≡ or_empty served)
    × (count p.connections sm.next ≡ 1)

pub fresh-Joins :
    (now : ℤ) (key served : Bytes) (get : Bytes → Result Bytes) (sm : Stream) (o : Option Pool)
    → IsSound sm
    → get key ≡ ok served
    → look key sm.pools ≡ o
    → (joined key sm.next o).cache.content ≡ []
    → Joins now key served get sm
fresh-Joins now key served get sm o s there had empty =
    let seen : look key (new key sm).1.pools ≡ some (joined key sm.next o) =
      look-new key sm ∙ rw had refl in
    let (message, pools) =
      (refresh_lem now key get (new key sm).1).2 served there
        (inr (joined key sm.next o, seen, empty)) in
    let (places, content) = count-cached now key (or_empty served) (joined key sm.next o) sm.next in
    (
      now,
      cached now key (or_empty served) (some (joined key sm.next o)),
      message,
      pools key ∙ rw (bytes_eq_refl key, seen) refl,
      content,
      places ∙ count-joined key sm o s had,
    )

pub new-Joins :
    (now : ℤ) (key served : Bytes) (get : Bytes → Result Bytes) (sm : Stream)
    → IsSound sm
    → get key ≡ ok served
    → IsCurrent key (or_empty served) sm
    → Joins now key served get sm
new-Joins now key served get sm s there (inl (inl missing)) =
    fresh-Joins now key served get sm none s there missing refl
new-Joins now key served get sm s there (inl (inr (p, had, empty))) =
    fresh-Joins now key served get sm (some p) s there had empty
new-Joins now key served get sm s there (inr (p, had, current)) =
    let seen : look key (new key sm).1.pools ≡ some (joined key sm.next (some p)) =
      look-new key sm ∙ rw had refl in
    let same =
      (refresh_lem now key get (new key sm).1).1 served (joined key sm.next (some p)) there seen
        (rw current (or_empty-ne served)) in
    (
      p.cache.version,
      joined key sm.next (some p),
      rw same refl,
      rw same seen,
      current,
      count-joined key sm (some p) s had,
    )
