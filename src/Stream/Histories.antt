-- ===== src/Stream/Histories.antt =====
-- Every history of calls of stream/stream.go keeps the pools sound.
use katamari.Base.{
  In, In-append_right, ℕ, ◌≡◌, refl, sym, inl, inr, Bool, List, [], ◌∷◌, ◌++◌, some, arith,
  Bool-cases, Option-cases, Result, Outcome, returns, panics, blocks,
}
use katamari.Base.Int.{ℤ}
use katamari.Base.Text.{Bytes, bytes_eq, count, bytes_eq_iff}
use katamari.Messages.{Patcher}
use katamari.Stream.Pools.{Pool, Stream, find_pool, no_cache}
use katamari.Stream.{init_clock, new, close, broadcast, refresh}
use katamari.Stream.Sound.{IsSound, total, names, names-update_pool, names-append}
use katamari.Stream.Extending.{new-Extends, close-Extends, refresh-Extends, broadcast-Extends}

-- the calls that change a stream, with what they read of the outside
pub data Call : Type 0 where
  joins : Bytes → Call
  leaves : Bytes → ℕ → Call
  broadcasts : (Bytes → Result Bytes) → (Bytes → Bytes) → (ℕ → ℤ) → Bytes → Call
  refreshes : ℤ → Bytes → (Bytes → Result Bytes) → Call

module _ (patcher : Patcher) where
  unfoldable pub exec : Call → Stream → Outcome Stream
  exec (joins key) sm = returns (new key sm).1
  exec (leaves key client) sm = close key client sm
  exec (broadcasts get encode times path) sm =
      returns (broadcast patcher get encode times path sm).0
  exec (refreshes now key get) sm = returns (refresh now key get sm).1

  unfoldable pub run : List Call → Stream → Outcome Stream
  run [] sm = returns sm
  run (c ∷ cs) sm = elim (exec c sm) [
    | returns sm' ↦ run cs sm'
    | panics ↦ panics
    | blocks ↦ blocks
  ]

-- A connection is closed under a key that was joined before; `keys` are those known at the start.
abbrev pub Follows : List Bytes → List Call → Type 0
Follows keys [] = Unit {0}
Follows keys (joins key ∷ cs) = Follows (key ∷ keys) cs
Follows keys (leaves key client ∷ cs) = In key keys × Follows keys cs
Follows keys (broadcasts get encode times path ∷ cs) = Follows keys cs
Follows keys (refreshes now key get ∷ cs) = Follows keys cs

abbrev Knows : Stream → List Bytes → Type 0
Knows sm keys = (k : Bytes) → In k keys → In k (names sm.pools)

pub find_pool-In :
    (key : Bytes) (ps : List Pool) (i : ℕ) → find_pool key ps ≡ some i → In key (names ps)
unfolding find_pool
find_pool-In key [] i h = cc
find_pool-In key (p ∷ ps) i h = elim (Bool-cases (bytes_eq p.key key)) [
  | inl same ↦ inl (sym ((bytes_eq_iff p.key key).0 same))
  | inr other ↦ elim (Option-cases (find_pool key ps)) [
    | inl missing ↦ absurd (ground (arith, missing, other))
    | inr (j, there) ↦ inr (find_pool-In key ps j there)
  ]
]

new-knows : (key : Bytes) (sm : Stream) → In key (names (new key sm).1.pools)
unfolding new
new-knows key sm = elim (Option-cases (find_pool key sm.pools)) [
  | inl missing ↦
      rw
        (
          new,
          missing,
          names-append sm.pools
              (record { key = key; cache = no_cache; connections = sm.next ∷ [] }),
        )
        (In-append_right key (names sm.pools) (key ∷ []) (inl refl))
  | inr (i, there) ↦
      let join = λ (p : Pool). record p { connections = p.connections ++ sm.next ∷ [] } in
      rw (new, there, names-update_pool i join sm.pools (λ p. refl))
        (find_pool-In key sm.pools i there)
]

module _ (patcher : Patcher) where
  run_from :
      (cs : List Call) (keys : List Bytes) (sm : Stream)
      → IsSound sm
      → Knows sm keys
      → Follows keys cs
      → (sm' : Stream) × (run patcher cs sm ≡ returns sm') × IsSound sm'
  unfolding run exec
  run_from [] keys sm s k f = (sm, refl, s)
  run_from (joins key ∷ cs) keys sm s k f =
      let e = new-Extends key sm s in
      run_from cs (key ∷ keys) (new key sm).1 e.sound
        (λ j i. elim i [ inl same ↦ rw same (new-knows key sm) | inr old ↦ e.known j (k j old) ]) f
  run_from (leaves key client ∷ cs) keys sm s k (there, f) =
      let (sm', closed, e) = close-Extends key client sm s (k key there) in
      rw (run, exec, closed) (run_from cs keys sm' e.sound (λ j i. e.known j (k j i)) f)
  run_from (broadcasts get encode times path ∷ cs) keys sm s k f =
      let e = broadcast-Extends patcher get encode times path sm s in
      run_from cs keys _ e.sound (λ j i. e.known j (k j i)) f
  run_from (refreshes now key get ∷ cs) keys sm s k f =
      let e = refresh-Extends now key get sm s in
      run_from cs keys _ e.sound (λ j i. e.known j (k j i)) f

  -- From the pools that `InitClock` makes, any calls of `New`, `Close`, `Broadcast` and `Refresh`
  -- return, if a connection is closed only under a key that was joined before. They leave the pool of
  -- the clock first, one pool for each key, every connection in one place at most, and none that has
  -- yet to come in any.
  pub run-IsSound :
      (cs : List Call) (force_patch no_patch : Bool)
      → Follows [] cs
      → (sm' : Stream) × (run patcher cs (
            init_clock
              (record { force_patch = force_patch; no_patch = no_patch; pools = []; next = 0 }))
          ≡ returns sm')
        × IsSound sm'
  unfolding init_clock
  run-IsSound cs force_patch no_patch f =
      run_from cs [] _
        (record {
          clocked = ([], refl);
          distinct = (tt, tt);
          once = λ c. unfold total count in omega arith;
          unused = λ c h. unfold total count in omega arith;
        })
        (λ k i. absurd i) f
