-- ===== src/Stream/Leaving.antt =====
-- The end of a connection whose socket failed: `Read` of stream/stream.go takes it out of its pool.
use katamari.Base.{
  ℕ, zero, suc, ◌+◌, ◌≡◌, refl, sym, ap, ◌∙◌, not, List, [], ◌∷◌, some, arith, ◌==◌, keep, some_inj,
  returns_inj, returns,
}
use katamari.Base.Text.{Bytes, count}
use katamari.Stream.Pools.{Pool, Stream, pool_at, update_pool}
use katamari.Stream.Look.{look, find_pool-look}
use katamari.Stream.Sound.{IsSound, total}
use katamari.Stream.Extending.{close-Extends}
use katamari.Stream.Histories.{find_pool-In}
use katamari.Stream.{close}

count-keep_self : (client : ℕ) (ks : List ℕ) → count (keep (λ v. not (v == client)) ks) client ≡ 0
unfolding count
count-keep_self client [] = refl
count-keep_self client (k ∷ ks) = ground (arith, count-keep_self client ks)

-- what the places of a connection are once the pool at an index has changed
total-update_at :
    (c i : ℕ) (f : Pool → Pool) (ps : List Pool) (p : Pool)
    → pool_at ps i ≡ some p
    → total c (update_pool i f ps) + count p.connections c ≡ total c ps + count (f p).connections c
unfolding total update_pool
total-update_at c i f [] p at = absurd (cc)
total-update_at c zero f (q ∷ ps) p at = let same : q ≡ p = some_inj at in rw same (omega arith)
total-update_at c (suc i) f (q ∷ ps) p at = omega (arith, total-update_at c i f ps p at)

-- `Close` leaves a connection in no pool.
pub close-total :
    (key : Bytes) (client : ℕ) (sm : Stream) (p : Pool)
    → IsSound sm
    → look key sm.pools ≡ some p
    → count p.connections client ≡ 1
    → (sm' : Stream) × (close key client sm ≡ returns sm')
      × IsSound sm'
      × (total client sm'.pools ≡ 0)
unfolding close
close-total key client sm p s seen once =
    let (i, found, at) = find_pool-look key sm.pools p seen in
    let (sm', closed, e) = close-Extends key client sm s (find_pool-In key sm.pools i found) in
    let left =
      λ (q : Pool). record q { connections = keep (λ v. not (v == client)) q.connections } in
    let same : sm' ≡ record sm { pools = update_pool i left sm.pools } =
      returns_inj (sym closed ∙ rw (close, found) refl) in
    (
      sm',
      closed,
      e.sound,
      ap (λ (t : Stream). total client t.pools) same
          ∙ omega (
            arith,
            total-update_at client i left sm.pools p at,
            once,
            s.once client,
            count-keep_self client p.connections,
          ),
    )
