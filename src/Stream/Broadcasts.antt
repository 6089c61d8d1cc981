-- ===== src/Stream/Broadcasts.antt =====
-- `Broadcast` of stream/stream.go over all pools: which caches it sets, and which frames it writes.
use katamari.Base.{
  ℕ, zero, suc, ◌+◌, ◌≡◌, refl, ap, ◌↔◌, inl, inr, Bool, true, false, List, [], ◌∷◌, map, some,
  arith, Bool-cases, Result, ok, err, Result-cases, In, In-append_left, In-append_right,
  In-append_cases,
}
use katamari.Base.Int.{ℤ}
use katamari.Base.Text.{Bytes}
use katamari.Key.{peer}
use katamari.Messages.{Patcher}
use katamari.Stream.Pools.{Pool, Stream, Frame, pool_at}
use katamari.Stream.Look.{map_option}
use katamari.Stream.{
  patch, frame_text, set_pool_cache, broadcast_pool, broadcast_loop, broadcast, skip_clock,
}

In-to_all :
    (ks : List ℕ) (k : ℕ) (text t : Bytes)
    → In {A = Frame} (k, t) (map (λ c. (c, text)) ks) ↔ (In k ks × (t ≡ text))
In-to_all [] k text t = (λ h. absurd h, λ h. absurd h.0)
In-to_all (c ∷ ks) k text t = (
  λ h. elim h [
    | inl e ↦ (inl (ap (λ (x : Frame). x.0) e), ap (λ (x : Frame). x.1) e)
    | inr i ↦ let (j, e) = (In-to_all ks k text t).0 i in (inr j, e)
  ],
  λ (i, e). elim i [ inl q ↦ inl (rw (q, e)) | inr j ↦ inr ((In-to_all ks k text t).1 (j, e)) ],
)

module _ (patcher : Patcher) (get : Bytes → Result Bytes) (encode : Bytes → Bytes)
    (no_patch force : Bool) (path : Bytes) where
  -- what a pool is served at a time: its own text, if the path concerns it and its data are there
  abbrev pub Served : ℤ → Pool → Frame → Type 0
  Served now p (k, text) =
      (content : Bytes) × (peer p.key path ≡ true)
      × (get p.key ≡ ok content)
      × In k p.connections
      × (text
          ≡ frame_text (encode (patch patcher no_patch force p content).0)
              (patch patcher no_patch force p content).1 now)

  abbrev frames_of : ℤ → Pool → List Frame
  frames_of now p = (broadcast_pool patcher get encode now no_patch force path p).1

  frames-there :
      (now : ℤ) (p : Pool) (content : Bytes)
      → peer p.key path ≡ true
      → get p.key ≡ ok content
      → frames_of now p
        ≡ map
            (λ c. (
              c,
              frame_text
                  (encode (patch patcher no_patch force p content).0)
                  (patch patcher no_patch force p content).1
                  now,
            ))
            p.connections
  unfolding broadcast_pool
  frames-there now p content concerned there = rw (frames_of, broadcast_pool, concerned, there)

  frames-Served :
      (now : ℤ) (p : Pool) (k : ℕ) (text : Bytes)
      → In (k, text) (frames_of now p)
      → Served now p (k, text)
  unfolding broadcast_pool
  frames-Served now p k text h = elim (Bool-cases (peer p.key path)) [
    | inl concerned ↦ elim (Result-cases (get p.key)) [
      | inl (e, filtered) ↦ absurd (rw (frames_of, broadcast_pool, concerned, filtered) at h)
      | inr (content, there) ↦
          let (i, e) =
            (In-to_all p.connections k _ text).0
              (rw (frames-there now p content concerned there) at h) in
          (content, concerned, there, i, e)
    ]
    | inr other ↦ absurd (rw (frames_of, broadcast_pool, other) at h)
  ]

  Served-frames :
      (now : ℤ) (p : Pool) (k : ℕ) (text : Bytes)
      → Served now p (k, text)
      → In (k, text) (frames_of now p)
  Served-frames now p k text (content, concerned, there, i, e) =
      rw (frames-there now p content concerned there) ((In-to_all p.connections k _ text).1 (i, e))

  -- the pool after its round
  abbrev pub pool_after : ℤ → Pool → Pool
  pool_after now p = (broadcast_pool patcher get encode now no_patch force path p).0

  module _ (times : ℕ → ℤ) where
    loop-at :
        (i j m : ℕ) (ps : List Pool)
        → m ≡ i + j
        → pool_at (broadcast_loop patcher get encode times no_patch force path i ps).0 j
          ≡ map_option (pool_after (times m)) (pool_at ps j)
    unfolding broadcast_loop
    loop-at i j m [] e = refl
    loop-at i zero m (p ∷ ps) e = let here : m ≡ i = omega arith in rw here
    loop-at i (suc j) m (p ∷ ps) e = loop-at (suc i) j m ps (omega arith)

    loop-frames :
        (i : ℕ) (ps : List Pool) (k : ℕ) (text : Bytes)
        → In (k, text) (broadcast_loop patcher get encode times no_patch force path i ps).1
        → (j : ℕ) × (p : Pool) × (pool_at ps j ≡ some p) × Served (times (i + j)) p (k, text)
    unfolding broadcast_loop
    loop-frames i [] k text h = absurd h
    loop-frames i (p ∷ ps) k text h =
        elim (In-append_cases {A = Frame} (k, text) (frames_of (times i) p) _ h) [
          | inl now ↦
              let here : i + 0 ≡ i = omega arith in
              (0, p, refl, rw here (frames-Served (times i) p k text now))
          | inr later ↦
              let (j, q, at, s) = loop-frames (suc i) ps k text later in
              let there : i + suc j ≡ suc i + j = omega arith in (suc j, q, at, rw there s)
        ]

    frames-loop :
        (i j : ℕ) (ps : List Pool) (p : Pool) (k : ℕ) (text : Bytes)
        → pool_at ps j ≡ some p
        → Served (times (i + j)) p (k, text)
        → In (k, text) (broadcast_loop patcher get encode times no_patch force path i ps).1
    unfolding broadcast_loop
    frames-loop i j [] p k text at s = absurd (cc)
    frames-loop i zero (q ∷ ps) p k text at s =
        let here : i + 0 ≡ i = omega arith in
        let same : q ≡ p = cc in
        In-append_left {A = Frame} (k, text) (frames_of (times i) q) _
          (rw same (Served-frames (times i) p k text (rw here at s)))
    frames-loop i (suc j) (q ∷ ps) p k text at s =
        let there : i + suc j ≡ suc i + j = omega arith in
        In-append_right {A = Frame} (k, text) (frames_of (times i) q) _
          (frames-loop (suc i) j ps p k text at (rw there at s))

    skip_clock-at :
        (ps : List Pool) (j : ℕ)
        → pool_at
            (skip_clock patcher (broadcast_loop patcher get encode times no_patch force path) ps).0
            (suc j)
          ≡ map_option (pool_after (times (suc j))) (pool_at ps (suc j))
    skip_clock-at [] j = refl
    skip_clock-at (c ∷ ps) j = loop-at 1 j (suc j) ps (omega arith)

    skip_clock-first :
        (ps : List Pool)
        → pool_at
            (skip_clock patcher (broadcast_loop patcher get encode times no_patch force path) ps).0
            0
          ≡ pool_at ps 0
    skip_clock-first [] = refl
    skip_clock-first (c ∷ ps) = refl

    skip_clock-frames :
        (ps : List Pool) (k : ℕ) (text : Bytes)
        → In
            (k, text)
            (skip_clock patcher (broadcast_loop patcher get encode times no_patch force path) ps).1
          ↔ ((j : ℕ) × (p : Pool) × (pool_at ps (suc j) ≡ some p)
              × Served (times (suc j)) p (k, text))
    skip_clock-frames [] k text = (λ h. absurd h, λ (j, p, at, s). absurd (cc))
    skip_clock-frames (c ∷ ps) k text = (
      λ h.
          let (j, p, at, s) = loop-frames 1 ps k text h in
          let e : 1 + j ≡ suc j = omega arith in (j, p, at, rw (← e) s),
      λ (j, p, at, s).
          let e : 1 + j ≡ suc j = omega arith in frames-loop 1 j ps p k text at (rw e s),
    )

-- A pool that a broadcast concerns, and whose data are not filtered, holds the data and the time
-- afterwards; any other pool stays as it is. Key and connections never change.
pub pool_after_lem :
    (patcher : Patcher) (get : Bytes → Result Bytes) (encode : Bytes → Bytes)
    (no_patch force : Bool) (path : Bytes) (now : ℤ) (p : Pool)
    → ((content : Bytes)
        → peer p.key path ≡ true
        → get p.key ≡ ok content
        → pool_after patcher get encode no_patch force path now p
          ≡ record p { cache = record { version = now; content = content } })
      × ((e : Bytes)
          → get p.key ≡ err e
          → pool_after patcher get encode no_patch force path now p ≡ p)
      × (peer p.key path ≡ false → pool_after patcher get encode no_patch force path now p ≡ p)
unfolding broadcast_pool set_pool_cache
pool_after_lem patcher get encode no_patch force path now p = (
  λ content c g. rw (pool_after, broadcast_pool, c, g),
  λ e g. elim (Bool-cases (peer p.key path)) [
    | inl c ↦ rw (pool_after, broadcast_pool, c, g)
    | inr n ↦ rw (pool_after, broadcast_pool, n)
  ],
  λ n. rw (pool_after, broadcast_pool, n),
)

-- `Broadcast` leaves the first pool, that of the clock, and serves each other pool on its own. The
-- frames that it writes are exactly these: to each connection of a pool whose key and the path
-- match one another, and whose data are not filtered, the data or the patch from the pool's cache
-- to them, with the time that the cache gets.
pub broadcast_lem :
    (patcher : Patcher) (get : Bytes → Result Bytes) (encode : Bytes → Bytes) (times : ℕ → ℤ)
    (path : Bytes) (sm : Stream)
    → (pool_at (broadcast patcher get encode times path sm).0.pools 0 ≡ pool_at sm.pools 0)
      × ((j : ℕ)
          → pool_at (broadcast patcher get encode times path sm).0.pools (suc j)
            ≡ map_option
                (pool_after patcher get encode sm.no_patch sm.force_patch path (times (suc j)))
                (pool_at sm.pools (suc j)))
      × ((k : ℕ) (text : Bytes)
          → In (k, text) (broadcast patcher get encode times path sm).1 ↔ (
              (j : ℕ) × (p : Pool) × (pool_at sm.pools (suc j) ≡ some p)
              × Served patcher get encode sm.no_patch sm.force_patch path
                  (times (suc j))
                  p
                  (k, text)))
unfolding broadcast
broadcast_lem patcher get encode times path sm = (
  skip_clock-first patcher get encode sm.no_patch sm.force_patch path times sm.pools,
  λ j. skip_clock-at patcher get encode sm.no_patch sm.force_patch path times sm.pools j,
  λ k text.
      skip_clock-frames patcher get encode sm.no_patch sm.force_patch path times sm.pools k text,
)
