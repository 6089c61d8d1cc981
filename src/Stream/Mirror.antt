-- ===== src/Stream/Mirror.antt =====
-- A client over many broadcasts: it applies every frame that its connection is sent, in order, as
-- the loop of client/subscribe.go does with `PatchCache`, and stops at the first error.
use katamari.Base.{
  ℕ, ◌≡◌, refl, inl, inr, Bool, true, false, List, [], ◌∷◌, map, Option, none, some, arith, ◌==◌,
  Bool-cases, Result, Error, Result-cases,
}
use katamari.Base.Int.{ℤ}
use katamari.Base.Text.{Bytes, count}
use katamari.Key.{peer}
use katamari.Objects.{Codec}
use katamari.Messages.{Patcher, encode, patch_cache}
use katamari.Stream.Pools.{Pool, Frame}
use katamari.Stream.Sync.{IsFaithful, patch-received}
use katamari.Stream.{set_pool_cache, broadcast_pool}

-- goes on with the cache unless there was an error
abbrev pub on_success : Bytes × Option Error → (Bytes → Bytes × Option Error) → Bytes × Option Error
on_success (cache, none) f = f cache
on_success (cache, some e) f = (cache, some e)

abbrev pub go_on :
    Pool
    → Bytes × Option Error
    → (Bytes → Pool × Bytes × Option Error)
    → Pool × Bytes × Option Error
go_on p (cache, none) f = f cache
go_on p (cache, some e) f = (p, cache, some e)

module _ (codec : Codec) (patcher : Patcher) where
  -- the frames that go to one connection, applied to its cache
  unfoldable pub receive : ℕ → List Frame → Bytes → Bytes × Option Error
  receive client [] cache = (cache, none)
  receive client ((k, text) ∷ frames) cache = elim (k == client) [
    | false ↦ receive client frames cache
    | true ↦ on_success (patch_cache codec patcher text cache) (receive client frames)
  ]

-- One call of `Broadcast`: the data at that time, the time, and the path that was written.
pub record Round : Type 0 where
  pub get : Bytes → Result Bytes
  pub now : ℤ
  pub path : Bytes

module _ (codec : Codec) (patcher : Patcher) (no_patch force : Bool) where
  -- the pool and the frames after one round
  abbrev pub round : Round → Pool → Pool × List Frame
  round r p = broadcast_pool patcher r.get (encode codec) r.now no_patch force r.path p

  -- the pool, the client's cache and its first error after all of them
  unfoldable pub follow : ℕ → List Round → Pool → Bytes → Pool × Bytes × Option Error
  follow client [] p cache = (p, cache, none)
  follow client (r ∷ rs) p cache =
      let (p', frames) = round r p in
      go_on p' (receive codec patcher client frames cache) (follow client rs p')

-- the frames of one text to many connections
abbrev to_all : Bytes → List ℕ → List Frame
to_all text = map (λ k. (k, text))

module _ (codec : Codec) (patcher : Patcher) where
  pub receive-others :
      (client : ℕ) (ks : List ℕ) (text cache : Bytes)
      → count ks client ≡ 0
      → receive codec patcher client (to_all text ks) cache ≡ (cache, none)
  unfolding receive count
  receive-others client [] text cache h = refl
  receive-others client (k ∷ ks) text cache h =
      let other : (k == client) ≡ false = ground arith in
      rw (receive, other) (receive-others client ks text cache (ground arith))

  pub receive-once :
      (client : ℕ) (ks : List ℕ) (text cache cache' : Bytes)
      → count ks client ≡ 1
      → patch_cache codec patcher text cache ≡ (cache', none)
      → receive codec patcher client (to_all text ks) cache ≡ (cache', none)
  unfolding receive count
  receive-once client [] text cache cache' h e = absurd (omega arith)
  receive-once client (k ∷ ks) text cache cache' h e = elim (Bool-cases (k == client)) [
    | inl self ↦ rw (receive, self, e) (receive-others client ks text cache' (ground arith))
    | inr other ↦ rw (receive, other) (receive-once client ks text cache cache' (ground arith) e)
  ]

module _ {codec : Codec} {patcher : Patcher} {Same : Bytes → Bytes → Type 0} where
  -- One broadcast, which concerns the pool and has data for it, or does not: the client's cache is
  -- a text of the document that the pool's cache holds afterwards.
  pub round-received :
      (h : IsFaithful codec patcher Same) (no_patch force : Bool) (client : ℕ) (r : Round)
      (p : Pool) (cache : Bytes)
      → count p.connections client ≡ 1
      → Same p.cache.content cache
      → (cache' : Bytes) × (receive codec patcher client
            (round codec patcher no_patch force r p).1
            cache
          ≡ (cache', none))
        × Same (round codec patcher no_patch force r p).0.cache.content cache'
        × ((round codec patcher no_patch force r p).0.connections ≡ p.connections)
  unfolding broadcast_pool set_pool_cache
  round-received h no_patch force client r p cache once same =
      elim (Bool-cases (peer p.key r.path)) [
        | inl concerned ↦ elim (Result-cases (r.get p.key)) [
          | inl (e, filtered) ↦ rw (concerned, filtered) (cache, unfold receive in refl, same, refl)
          | inr (content, there) ↦
              let (cache', applied, same') =
                patch-received h no_patch force p content cache r.now same in
              rw (concerned, there)
                (
                  cache',
                  receive-once codec patcher client p.connections _ cache cache' once applied,
                  same',
                  refl,
                )
        ]
        | inr other ↦ rw other (cache, unfold receive in refl, same, refl)
      ]

  -- A client that begins with the document of its pool's cache ends with that document after any
  -- broadcasts, in which the data may change, be filtered or concern other paths: no frame gives an
  -- error, and no frame is left out. The connection stands once in the pool, and the libraries are
  -- taken to be faithful.
  pub follow-Same :
      (h : IsFaithful codec patcher Same) (no_patch force : Bool) (client : ℕ) (rs : List Round)
      (p : Pool) (cache : Bytes)
      → count p.connections client ≡ 1
      → Same p.cache.content cache
      → (p' : Pool) × (cache' : Bytes) × (follow codec patcher no_patch force client rs p cache
          ≡ (p', cache', none))
        × Same p'.cache.content cache'
  unfolding follow
  follow-Same h no_patch force client [] p cache once same = (p, cache, refl, same)
  follow-Same h no_patch force client (r ∷ rs) p cache once same =
      let (cache1, received, same1, kept) =
        round-received h no_patch force client r p cache once same in
      let (p', cache', followed, same') =
        follow-Same h no_patch force client rs (round codec patcher no_patch force r p).0 cache1
          (rw kept once) same1 in
      (p', cache', rw (follow, received) followed, same')
