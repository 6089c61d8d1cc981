-- ===== src/Stream/Receiving.antt =====
-- What the frames of one `Broadcast` of stream/stream.go are to a connection that does not stand in a
-- pool, and how a client takes frames one after the other.
use katamari.Base.{
  ℕ, suc, ◌≡◌, ◌≢◌, refl, ap, ◌∙◌, inl, inr, Bool, List, [], ◌∷◌, ◌++◌, Option, none, some, arith,
  ◌==◌, Bool-cases, Result, ok, Error, Result-cases,
}
use katamari.Base.Int.{ℤ}
use katamari.Base.Text.{Bytes, count}
use katamari.Key.{peer}
use katamari.Objects.{Codec}
use katamari.Messages.{Patcher, encode, patch_cache}
use katamari.Stream.Pools.{Pool, Frame}
use katamari.Stream.Sound.{total}
use katamari.Stream.Mirror.{receive, on_success, receive-others}
use katamari.Stream.{set_pool_cache, broadcast_pool, broadcast_loop}

on_success-then :
    (r : Bytes × Option Error) (f g : Bytes → Bytes × Option Error) (cache : Bytes)
    (end : Bytes × Option Error)
    → ((c : Bytes) → f c ≡ (cache, none) → g c ≡ end)
    → on_success r f ≡ (cache, none)
    → on_success r g ≡ end
on_success-then (c, none) f g cache end goes h = goes c h
on_success-then (c, some e) f g cache end goes h =
    absurd (clash (ap (λ (r : Bytes × Option Error). r.1) h))
  where
    clash : some e ≡ none → ⊥
    clash q = cc

module _ (codec : Codec) (patcher : Patcher) where
  pub receive-append :
      (client : ℕ) (xs ys : List Frame) (cache cache' : Bytes)
      → receive codec patcher client xs cache ≡ (cache', none)
      → receive codec patcher client (xs ++ ys) cache ≡ receive codec patcher client ys cache'
  unfolding receive
  receive-append client [] ys cache cache' h =
      ap (λ (r : Bytes × Option Error). receive codec patcher client ys r.0) h
  receive-append client ((k, text) ∷ xs) ys cache cache' h = elim (Bool-cases (k == client)) [
    | inl self ↦
        rw (receive, self)
          (on_success-then (patch_cache codec patcher text cache) _ _ cache' _
            (λ c. receive-append client xs ys c cache') (rw (receive, self) at h))
    | inr other ↦
        rw (receive, other) (receive-append client xs ys cache cache' (rw (receive, other) at h))
  ]

  module _ (get : Bytes → Result Bytes) (times : ℕ → ℤ) (no_patch force : Bool) (path : Bytes)
      (client : ℕ) where
    pub broadcast_pool-others :
        (now : ℤ) (p : Pool) (cache : Bytes)
        → count p.connections client ≡ 0
        → receive codec patcher client
            (broadcast_pool patcher get (encode codec) now no_patch force path p).1
            cache
          ≡ (cache, none)
    unfolding broadcast_pool
    broadcast_pool-others now p cache h = elim (Bool-cases (peer p.key path)) [
      | inr other ↦ rw other (unfold receive in refl)
      | inl concerned ↦ elim (Result-cases (get p.key)) [
        | inl (e, filtered) ↦ rw (concerned, filtered) (unfold receive in refl)
        | inr (content, there) ↦
            rw (concerned, there) (receive-others codec patcher client p.connections _ cache h)
      ]
    ]

    pub broadcast_loop-others :
        (i : ℕ) (ps : List Pool) (cache : Bytes)
        → total client ps ≡ 0
        → receive codec patcher client
            (broadcast_loop patcher get (encode codec) times no_patch force path i ps).1
            cache
          ≡ (cache, none)
    unfolding broadcast_loop total
    broadcast_loop-others i [] cache h = unfold receive in refl
    broadcast_loop-others i (p ∷ ps) cache h =
        receive-append client
          (broadcast_pool patcher get (encode codec) (times i) no_patch force path p).1 _ cache
          cache (broadcast_pool-others (times i) p cache (omega arith))
        ∙ broadcast_loop-others (suc i) ps cache (omega arith)

    pub broadcast_pool-full :
        (now : ℤ) (p : Pool)
        → ((content : Bytes) → get p.key ≡ ok content → content ≢ [])
        → p.cache.content ≢ []
        → (broadcast_pool patcher get (encode codec) now no_patch force path p).0.cache.content ≢ []
    unfolding broadcast_pool set_pool_cache
    broadcast_pool-full now p serves full = elim (Bool-cases (peer p.key path)) [
      | inr other ↦ rw other full
      | inl concerned ↦ elim (Result-cases (get p.key)) [
        | inl (e, filtered) ↦ rw (concerned, filtered) full
        | inr (content, there) ↦ rw (concerned, there) (serves content there)
      ]
    ]
