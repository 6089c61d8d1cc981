-- ===== src/Stream/Writing.antt =====
-- `Write`, `WriteClock` and `Read` of stream/stream.go and stream/clock.go: the sockets behind the
-- connections, writes that fail, and the end of a connection.
use katamari.Base.{
  ℕ, ◌≡◌, ◌≢◌, refl, sym, ap, ◌∙◌, inl, inr, Bool, true, false, ◌&&◌, List, [], ◌∷◌, ◌++◌,
  append_assoc, append-nil, arith, ◌==◌, if◌then◌else◌, keep, Bool-cases, Outcome, returns, panics,
  blocks,
}
use katamari.Base.Text.{Bytes}
use katamari.Stream.Pools.{Stream, Frame}
use katamari.Stream.{close}

-- The streams with the sockets of the connections: which are open, and what was received on them.
pub record Wires : Type 0 where
  pub stream : Stream
  pub alive : ℕ → Bool
  pub received : List Frame

abbrev pub shut : ℕ → (ℕ → Bool) → ℕ → Bool
shut client alive k = if client == k then false else alive k

-- `Write`: `accepts` tells whether a connection takes what is written to it before
-- its deadline. A write to a closed connection fails.
unfoldable pub write : (ℕ → Bool) → Frame → Wires → Wires
write accepts (client, text) w =
    if w.alive client && accepts client
    then record w { received = w.received ++ (client, text) ∷ [] }
    else record w { alive = shut client w.alive }

-- `WriteClock`
unfoldable pub write_clock : (ℕ → Bool) → Frame → Wires → Wires
unfolding write
write_clock accepts f w = write accepts f w

-- the frames of a broadcast, written one after the other
unfoldable pub write_all : (ℕ → Bool) → List Frame → Wires → Wires
write_all accepts [] w = w
write_all accepts (f ∷ fs) w = write_all accepts fs (write accepts f w)

-- the end of `Read`
abbrev pub leave : ℕ → Wires → Outcome Stream → Outcome Wires
leave client w (returns sm) = returns (record w { stream = sm; alive = shut client w.alive })
leave client w panics = panics
leave client w blocks = blocks

-- `Read`, over what NextReader gives in each round: a reader, or an error, which it also gives on a
-- closed connection. It waits where the list ends.
unfoldable pub read : Bytes → ℕ → List Bool → Wires → Outcome Wires
read key client [] w = returns w
read key client (given ∷ rounds) w =
    let again = read key client rounds w in
    if w.alive client && given then again else leave client w (close key client w.stream)

abbrev pub to : ℕ → Frame → Bool
to k (client, text) = client == k

never : (b : Bool) → (b && false) ≡ false
never true = refl
never false = refl

keep-append {ℓ} :
    {A : Type ℓ} (p : A → Bool) (xs ys : List A) → keep p (xs ++ ys) ≡ keep p xs ++ keep p ys
keep-append p [] ys = refl
keep-append p (x ∷ xs) ys = ground (arith, keep-append p xs ys)

module _ (accepts : ℕ → Bool) (k : ℕ) where
  write-other :
      (f : Frame) (w : Wires)
      → to k f ≡ false
      → (keep (to k) (write accepts f w).received ≡ keep (to k) w.received)
        × ((write accepts f w).alive k ≡ w.alive k)
  unfolding write
  write-other (client, text) w other = elim (Bool-cases (w.alive client && accepts client)) [
    | inl taken ↦
        rw taken
          (keep-append (to k) w.received ((client, text) ∷ []) ∙ rw other (append-nil _), refl)
    | inr lost ↦ rw lost (refl, rw other refl)
  ]

  write_all-accepted :
      (fs : List Frame) (w : Wires)
      → w.alive k ≡ true
      → accepts k ≡ true
      → (keep (to k) (write_all accepts fs w).received ≡ keep (to k) w.received ++ keep (to k) fs)
        × ((write_all accepts fs w).alive k ≡ true)
  unfolding write_all write
  write_all-accepted [] w up takes = (sym (append-nil _), up)
  write_all-accepted ((client, text) ∷ fs) w up takes = elim (Bool-cases (client == k)) [
    | inl self ↦
        let same : client ≡ k = ground (arith, self) in
        let written : write accepts (client, text) w
            ≡ record w { received = w.received ++ (client, text) ∷ [] } =
          rw (write, same, up, takes) refl in
        let (got, up') =
          write_all-accepted fs (record w { received = w.received ++ (client, text) ∷ [] }) up
            takes in
        rw (write_all, written)
          (
            got
                ∙ ap (λ xs. xs ++ keep (to k) fs)
                    (keep-append (to k) w.received ((client, text) ∷ []))
                ∙ append_assoc (keep (to k) w.received) (keep (to k) ((client, text) ∷ []))
                    (keep (to k) fs)
                ∙ rw self refl,
            up',
          )
    | inr other ↦
        let (same, still) = write-other (client, text) w other in
        let (got, up') =
          write_all-accepted fs (write accepts (client, text) w) (still ∙ up) takes in
        (got ∙ rw (same, other) refl, up')
  ]

  -- a connection that takes nothing
  pub write_all-refused :
      (fs : List Frame) (w : Wires)
      → accepts k ≡ false
      → (keep (to k) (write_all accepts fs w).received ≡ keep (to k) w.received)
        × (w.alive k ≡ false → (write_all accepts fs w).alive k ≡ false)
        × (keep (to k) fs ≢ [] → (write_all accepts fs w).alive k ≡ false)
  unfolding write_all write
  write_all-refused [] w refuses = (refl, λ down. down, λ full. absurd (full refl))
  write_all-refused ((client, text) ∷ fs) w refuses = elim (Bool-cases (client == k)) [
    | inl self ↦
        let same : client ≡ k = ground (arith, self) in
        let lost : write accepts (client, text) w ≡ record w { alive = shut client w.alive } =
          rw (write, same, refuses, never (w.alive k)) refl in
        let (got, stays, _) =
          write_all-refused fs (record w { alive = shut client w.alive }) refuses in
        let down : shut client w.alive k ≡ false = rw self refl in
        rw (write_all, lost) (got, λ was. stays down, λ full. stays down)
    | inr other ↦
        let (kept, still) = write-other (client, text) w other in
        let (got, stays, drops_out) =
          write_all-refused fs (write accepts (client, text) w) refuses in
        (got ∙ kept, λ down. stays (still ∙ down), λ full. drops_out (rw other at full))
  ]

  -- When the frames of a broadcast are written, every open connection is on its own, whatever fails on
  -- the others: one that takes what is written receives all of its frames, in their order, and stays
  -- open; one that does not receives nothing, and if there was a frame for it, its socket is closed.
  pub write_all_lem :
      (fs : List Frame) (w : Wires)
      → w.alive k ≡ true
      → (accepts k ≡ true
          → (keep (to k) (write_all accepts fs w).received
              ≡ keep (to k) w.received ++ keep (to k) fs)
            × ((write_all accepts fs w).alive k ≡ true))
        × (accepts k ≡ false
            → (keep (to k) (write_all accepts fs w).received ≡ keep (to k) w.received)
              × (keep (to k) fs ≢ [] → (write_all accepts fs w).alive k ≡ false))
  write_all_lem fs w up = (
    λ takes. write_all-accepted fs w up takes,
    λ refuses. let (got, _, down) = write_all-refused fs w refuses in (got, down),
  )

  write-stream : (f : Frame) (w : Wires) → (write accepts f w).stream ≡ w.stream
  unfolding write
  write-stream (client, text) w = elim (Bool-cases (w.alive client && accepts client)) [
    | inl taken ↦ rw taken refl
    | inr lost ↦ rw lost refl
  ]

  pub write_all-stream : (fs : List Frame) (w : Wires) → (write_all accepts fs w).stream ≡ w.stream
  unfolding write_all
  write_all-stream [] w = refl
  write_all-stream (f ∷ fs) w = write_all-stream fs (write accepts f w) ∙ write-stream f w
