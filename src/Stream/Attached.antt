-- ===== src/Stream/Attached.antt =====
-- A connection that stands in the pool of a key, and the document that its client has made of the
-- frames so far, through every call that changes the stream.
use katamari.Base.{
  returns_inj, some_inj, ℕ, ◌<◌, ◌≡◌, ◌≢◌, refl, sym, subst, ◌∙◌, inl, inr, false, not, List, [],
  ◌∷◌, some, arith, ◌==◌, if◌then◌else◌, keep, Bool-cases, Option-cases, Result, Result-cases,
  returns,
}
use katamari.Base.Int.{ℤ}
use katamari.Base.Text.{Bytes, bytes_eq, bytes_eq_iff, count}
use katamari.Stream.Pools.{Pool, Stream, find_pool}
use katamari.Stream.Look.{look, find_pool-some}
use katamari.Stream.Operations.{joined, new_lem, close_lem, set_cache_lem}
use katamari.Stream.Sound.{IsSound, count-append_one}
use katamari.Stream.Joining.{count-le_total}
use katamari.Stream.Extending.{new-Extends, close-Extends, refresh-Extends}
use katamari.Stream.Histories.{find_pool-In}
use katamari.Stream.Refreshing.{refresh_lem}
use katamari.Stream.{new, close, refresh, or_empty, get_cache_version}

-- The stream is sound, the connection stands once in the pool of the key, the pool has data, and
-- `cache` is a text of their document.
pub record IsAttached (Same : Bytes → Bytes → Type 0) (key : Bytes) (client : ℕ) (cache : Bytes)
    (sm : Stream) : Type 0 where
  pub sound : IsSound sm
  pub pool : Pool
  pub seen : look key sm.pools ≡ some pool
  pub once : count pool.connections client ≡ 1
  pub full : pool.cache.content ≢ []
  pub same : Same pool.cache.content cache

count-keep_others :
    (client other : ℕ) (ks : List ℕ)
    → (other == client) ≡ false
    → count (keep (λ v. not (v == other)) ks) client ≡ count ks client
unfolding count
count-keep_others client other [] h = refl
count-keep_others client other (k ∷ ks) h = ground (arith, count-keep_others client other ks h)

module _ (Same : Bytes → Bytes → Type 0) (key : Bytes) (client : ℕ) (cache : Bytes) where
  below_next : (sm : Stream) → IsAttached Same key client cache sm → client < sm.next
  below_next sm a =
      ground
        (arith, a.sound.unused client, count-le_total key client sm.pools a.pool a.seen, a.once)

  pub new-IsAttached :
      (joins : Bytes) (sm : Stream)
      → IsAttached Same key client cache sm
      → IsAttached Same key client cache (new joins sm).1
  new-IsAttached joins sm a =
      let (_, _, pools) = new_lem joins sm in
      let e = new-Extends joins sm a.sound in
      elim (Bool-cases (bytes_eq joins key)) [
        | inl self ↦
            let named : joins ≡ key = (bytes_eq_iff joins key).0 self in
            record {
              sound = e.sound;
              pool = joined key sm.next (some a.pool);
              seen = pools key ∙ rw (self, named, a.seen) refl;
              once = ground (
                arith,
                count-append_one a.pool.connections sm.next client,
                a.once,
                below_next sm a,
              );
              full = a.full;
              same = a.same;
            }
        | inr other ↦ record {
          sound = e.sound;
          pool = a.pool;
          seen = pools key ∙ rw (other, a.seen) refl;
          once = a.once;
          full = a.full;
          same = a.same;
        }
      ]

  pub close-IsAttached :
      (leaves : Bytes) (other : ℕ) (sm sm' : Stream)
      → (other == client) ≡ false
      → close leaves other sm ≡ returns sm'
      → IsAttached Same key client cache sm
      → IsAttached Same key client cache sm'
  unfolding close
  close-IsAttached leaves other sm sm' differs closed a =
      elim (Option-cases (find_pool leaves sm.pools)) [
        | inl missing ↦ let stuck = rw (close, missing) at closed in cc
        | inr (i, there) ↦
            let (q, _, found, _) = find_pool-some leaves sm.pools i there in
            let (sm1, closed1, pools) = (close_lem leaves other sm).0 q found in
            let (sm2, closed2, e) =
              close-Extends leaves other sm a.sound (find_pool-In leaves sm.pools i there) in
            rw (returns_inj (sym closed ∙ closed1))
              (left sm1 q found pools (subst IsSound (returns_inj (sym closed2 ∙ closed1)) e.sound))
      ]
    where
      left :
          (sm1 : Stream) (q : Pool)
          → look leaves sm.pools ≡ some q
          → ((j : Bytes)
              → look j sm1.pools ≡ (
                  if bytes_eq leaves j
                  then some (record q { connections = keep (λ v. not (v == other)) q.connections })
                  else look j sm.pools))
          → IsSound sm1
          → IsAttached Same key client cache sm1
      left sm1 q found pools sound = elim (Bool-cases (bytes_eq leaves key)) [
        | inl self ↦
            let named : leaves ≡ key = (bytes_eq_iff leaves key).0 self in
            let had : look key sm.pools ≡ some q =
              subst (λ k. look k sm.pools ≡ some q) named found in
            let pool_is : q ≡ a.pool = some_inj (sym had ∙ a.seen) in
            record {
              sound = sound;
              pool = record a.pool {
                connections = keep (λ v. not (v == other)) a.pool.connections;
              };
              seen = pools key ∙ rw (self, pool_is) refl;
              once = count-keep_others client other a.pool.connections differs ∙ a.once;
              full = a.full;
              same = a.same;
            }
        | inr apart ↦ record {
          sound = sound;
          pool = a.pool;
          seen = pools key ∙ rw (apart, a.seen) refl;
          once = a.once;
          full = a.full;
          same = a.same;
        }
      ]

  pub refresh-IsAttached :
      (now : ℤ) (path : Bytes) (get : Bytes → Result Bytes) (sm : Stream)
      → IsAttached Same key client cache sm
      → IsAttached Same key client cache (refresh now path get sm).1
  unfolding refresh
  refresh-IsAttached now path get sm a = elim (Result-cases (get path)) [
    | inl (e, filtered) ↦ rw (refresh, filtered) a
    | inr (raw, there) ↦ elim (Result-cases (get_cache_version path sm)) [
      | inr (version, had) ↦ rw (refresh, there, had) a
      | inl (e, missing) ↦ elim (Bool-cases (bytes_eq path key)) [
        | inl self ↦
            let named : path ≡ key = (bytes_eq_iff path key).0 self in
            let seen : look path sm.pools ≡ some a.pool = rw named a.seen in
            rw ((refresh_lem now path get sm).1 raw a.pool there seen a.full) a
        | inr apart ↦
            let sound =
              subst IsSound (rw (refresh, there, missing))
                (refresh-Extends now path get sm a.sound).sound in
            rw (refresh, there, missing)
              (record {
                sound = sound;
                pool = a.pool;
                seen = (set_cache_lem now path (or_empty raw) sm).1 key ∙ rw (apart, a.seen) refl;
                once = a.once;
                full = a.full;
                same = a.same;
              })
      ]
    ]
  ]
