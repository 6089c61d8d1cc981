-- ===== src/Stream/Attending.antt =====
-- What a client receives of one `Broadcast` of stream/stream.go, among the frames of all the pools.
use katamari.Base.{
  some_inj, ℕ, suc, ◌≤◌, ◌≡◌, ◌≢◌, refl, sym, ap, ◌∙◌, inl, inr, Bool, false, List, [], ◌∷◌, none,
  some, arith, Bool-cases, Result, ok,
}
use katamari.Base.Int.{ℤ}
use katamari.Base.Text.{Bytes, bytes_eq, bytes_eq_iff, count}
use katamari.Objects.{Codec}
use katamari.Messages.{Patcher, encode}
use katamari.Stream.Pools.{Pool, Stream}
use katamari.Stream.Look.{look}
use katamari.Stream.Sound.{total, names}
use katamari.Stream.Joining.{count-le_total}
use katamari.Stream.Extending.{broadcast-Extends, broadcast_pool_same}
use katamari.Stream.Sync.{IsFaithful}
use katamari.Stream.Mirror.{receive, round-received}
use katamari.Stream.Attached.{IsAttached}
use katamari.Stream.{broadcast_pool, skip_clock, broadcast_loop, broadcast}
use katamari.Stream.Receiving.{
  receive-append, broadcast_pool-others, broadcast_loop-others, broadcast_pool-full,
}

pub clock_apart :
    (clock key : Bytes) (ks rest : List Bytes)
    → clock ∷ ks ≡ [] ∷ rest
    → key ≢ []
    → bytes_eq clock key ≡ false
clock_apart clock key ks rest e named = elim (Bool-cases (bytes_eq clock key)) [
  | inl same ↦ absurd (named (sym ((bytes_eq_iff clock key).0 same) ∙ head))
  | inr other ↦ other
]
  where
    head : clock ≡ []
    head = cc

-- What a client's broadcast leaves: its new document, and the pool of its key.
record Received (Same : Bytes → Bytes → Type 0) (key : Bytes) (client : ℕ) (pools : List Pool)
    (cache : Bytes) : Type 0 where
  pool : Pool
  seen : look key pools ≡ some pool
  once : count pool.connections client ≡ 1
  full : pool.cache.content ≢ []
  same : Same pool.cache.content cache

module _ {codec : Codec} {patcher : Patcher} {Same : Bytes → Bytes → Type 0}
    (h : IsFaithful codec patcher Same) (get : Bytes → Result Bytes) (times : ℕ → ℤ)
    (no_patch force : Bool) (path key : Bytes) (client : ℕ)
    (serves : (content : Bytes) → get key ≡ ok content → content ≢ []) where
  broadcast_loop-Received :
      (i : ℕ) (ps : List Pool) (p : Pool) (cache : Bytes)
      → total client ps ≤ 1
      → look key ps ≡ some p
      → count p.connections client ≡ 1
      → p.cache.content ≢ []
      → Same p.cache.content cache
      → let (ps', frames) =
          broadcast_loop patcher get (encode codec) times no_patch force path i ps in
        (cache' : Bytes) × (receive codec patcher client frames cache ≡ (cache', none))
        × Received Same key client ps' cache'
  unfolding broadcast_loop total look
  broadcast_loop-Received i [] p cache alone seen once full same = absurd (cc)
  broadcast_loop-Received i (q ∷ qs) p cache alone seen once full same =
      let (kept, _) =
        broadcast_pool_same patcher get (encode codec) times no_patch force path (times i) q in
      elim (Bool-cases (bytes_eq q.key key)) [
        | inl self ↦
            let named : q.key ≡ key = (bytes_eq_iff q.key key).0 self in
            let first : q ≡ p = some_inj (rw (look, self) at seen) in
            let once' : count q.connections client ≡ 1 = rw first once in
            let (cache', applied, same', connections) =
              round-received h no_patch force client
                (record { get = get; now = times i; path = path }) q cache once' (rw first same) in
            (
              cache',
              receive-append codec patcher client
                    (broadcast_pool patcher get (encode codec) (times i) no_patch force path q).1 _
                    cache cache' applied
                  ∙ broadcast_loop-others codec patcher get times no_patch force path client (suc i)
                      qs cache' (omega (arith, alone, once')),
              record {
                pool =
                    (broadcast_pool patcher get (encode codec) (times i) no_patch force path q).0;
                seen = rw (look, kept, self) refl;
                once = ap (λ ks. count ks client) connections ∙ once';
                full =
                    broadcast_pool-full codec patcher get times no_patch force path client (times i)
                      q (λ content e. serves content (rw (← named) e)) (rw first full);
                same = same';
              },
            )
        | inr other ↦
            let there : look key qs ≡ some p = rw (look, other) at seen in
            let absent : count q.connections client ≡ 0 =
              omega (arith, alone, once, count-le_total key client qs p there) in
            let (cache', applied, r) =
              broadcast_loop-Received (suc i) qs p cache (omega (arith, alone)) there once full
                same in
            (
              cache',
              receive-append codec patcher client
                    (broadcast_pool patcher get (encode codec) (times i) no_patch force path q).1 _
                    cache cache
                    (broadcast_pool-others codec patcher get times no_patch force path client
                      (times i) q cache absent)
                  ∙ applied,
              record {
                pool = r.pool;
                seen = rw (look, kept, other) r.seen;
                once = r.once;
                full = r.full;
                same = r.same;
              },
            )
      ]

  -- The pool of the clock is left out.
  skip_clock-Received :
      (ps : List Pool) (rest : List Bytes) (p : Pool) (cache : Bytes)
      → key ≢ []
      → names ps ≡ [] ∷ rest
      → total client ps ≤ 1
      → look key ps ≡ some p
      → count p.connections client ≡ 1
      → p.cache.content ≢ []
      → Same p.cache.content cache
      → let (ps', frames) =
          skip_clock patcher
            (broadcast_loop patcher get (encode codec) times no_patch force path)
            ps in
        (cache' : Bytes) × (receive codec patcher client frames cache ≡ (cache', none))
        × Received Same key client ps' cache'
  unfolding look total
  skip_clock-Received [] rest p cache named clocked alone seen once full same = absurd (cc)
  skip_clock-Received (c ∷ qs) rest p cache named clocked alone seen once full same =
      let unnamed : bytes_eq c.key key ≡ false =
        clock_apart c.key key (names qs) rest clocked named in
      let (cache', applied, r) =
        broadcast_loop-Received 1 qs p cache (omega (arith, alone)) (rw (look, unnamed) at seen)
          once full same in
      (
        cache',
        applied,
        record {
          pool = r.pool;
          seen = rw (look, unnamed) r.seen;
          once = r.once;
          full = r.full;
          same = r.same;
        },
      )

-- A client that stands in the pool of its key and applies what it is sent: after a broadcast it
-- still stands there, and it has a text of the pool's document.
pub broadcast-IsAttached :
    {codec : Codec} {patcher : Patcher} {Same : Bytes → Bytes → Type 0}
    (h : IsFaithful codec patcher Same) (get : Bytes → Result Bytes) (times : ℕ → ℤ)
    (path key : Bytes) (client : ℕ) (cache : Bytes) (sm : Stream)
    → ((content : Bytes) → get key ≡ ok content → content ≢ [])
    → key ≢ []
    → IsAttached Same key client cache sm
    → let (sm', frames) = broadcast patcher get (encode codec) times path sm in
      (cache' : Bytes) × (receive codec patcher client frames cache ≡ (cache', none))
      × IsAttached Same key client cache' sm'
unfolding broadcast
broadcast-IsAttached {codec} {patcher} {Same} h get times path key client cache sm serves named a =
    let (rest, clocked) = a.sound.clocked in
    let (cache', applied, r) =
      skip_clock-Received h get times sm.no_patch sm.force_patch path key client serves sm.pools
        rest a.pool cache named clocked (a.sound.once client) a.seen a.once a.full a.same in
    (
      cache',
      applied,
      record {
        sound = (broadcast-Extends patcher get (encode codec) times path sm a.sound).sound;
        pool = r.pool;
        seen = r.seen;
        once = r.once;
        full = r.full;
        same = r.same;
      },
    )
