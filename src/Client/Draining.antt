-- ===== src/Client/Draining.antt =====
-- The goroutine of client/subscribeMultiple.go can always take what waits in its channels.
use katamari.Base.{
  ℕ, zero, suc, ◌<◌, subst, ap, Bool-cases, ◌≡◌, refl, ◌∙◌, true, false, List, [], ◌∷◌, ◌++◌, some,
  ◌==◌, arith, Option-cases, inl, inr,
}
use katamari.Client.Channels.{Channels, Event, takes, Traffic, no_traffic, replace, step, run}
use katamari.Client.Drained.{IsDrained}

module _ {A : Type 0} {c : Channels A} where
  run-append :
      (es fs : List (Event c)) (t u : Traffic c) → run es t ≡ some u → run (es ++ fs) t ≡ run fs u
  unfolding run
  run-append [] fs t u h = let same : t ≡ u = cc in rw same refl
  run-append (e ∷ es) fs t u h = elim (Option-cases (step e t)) [
    | inl stuck ↦ let none_is = rw (run, stuck) at h in cc
    | inr (v, moved) ↦ rw (run, moved) (run-append es fs v u (rw (run, moved) at h))
  ]

  -- the steps that take from these channels, one message each
  abbrev pub takes_from : List ℕ → List (Event c)
  takes_from [] = []
  takes_from (i ∷ is) = takes i ∷ takes_from is

  takes_from-append : (is js : List ℕ) → takes_from (is ++ js) ≡ takes_from is ++ takes_from js
  takes_from-append [] js = refl
  takes_from-append (i ∷ is) js = rw (takes_from-append is js) refl

  -- Some takes empty the channel `i`; they leave the other channels and what was sent alone.
  abbrev Empties : ℕ → Traffic c → Type 0
  Empties i t =
      (is : List ℕ) × (u : Traffic c) × (run (takes_from is) t ≡ some u)
      × (u.queues i ≡ [])
      × ((j : ℕ) → (i == j) ≡ false → u.queues j ≡ t.queues j)
      × (u.done ≡ false)
      × (u.sent ≡ t.sent)

  abbrev after_take : ℕ → List (A) → A → Traffic c → Traffic c
  after_take i queue m t = record t { queues = replace i queue t.queues; taken = t.taken ++ m ∷ [] }

  take-step :
      (i : ℕ) (queue : List (A)) (m : A) (t : Traffic c)
      → t.queues i ≡ m ∷ queue
      → t.done ≡ false
      → step (takes i) t ≡ some (after_take i queue m t)
  unfolding step
  take-step i queue m t e running = simp (step, running, e)

  empties :
      (i : ℕ) (queue : List (A)) (t : Traffic c) → t.queues i ≡ queue → t.done ≡ false → Empties i t
  unfolding run
  empties i [] t e running = ([], t, refl, e, λ j other. refl, running, refl)
  empties i (m ∷ queue) t e running =
      let self : (i == i) ≡ true = ground arith in
      let (is, u, ran, empty, others, still, sent) =
        empties i queue (after_take i queue m t) (rw self refl) running in
      (
        i ∷ is,
        u,
        rw (run, take-step i queue m t e running) ran,
        empty,
        λ j other. others j other ∙ rw other refl,
        still,
        sent,
      )

  -- Some takes empty the channels below `n`.
  abbrev EmptiesBelow : ℕ → Traffic c → Type 0
  EmptiesBelow n t =
      (is : List ℕ) × (u : Traffic c) × (run (takes_from is) t ≡ some u)
      × ((j : ℕ) → j < n → u.queues j ≡ [])
      × (u.done ≡ false)
      × (u.sent ≡ t.sent)

  empties_below : (n : ℕ) (t : Traffic c) → t.done ≡ false → EmptiesBelow n t
  unfolding run
  empties_below zero t running = ([], t, refl, λ j h. absurd (omega arith), running, refl)
  empties_below (suc n) t running =
      let (is, u, ran, below, still, sent) = empties_below n t running in
      let (js, v, ran', empty, others, still', sent') = empties n (u.queues n) u refl still in
      (
        is ++ js,
        v,
        ap (λ fs. run fs t) (takes_from-append is js)
            ∙ run-append (takes_from is) (takes_from js) t u ran
            ∙ ran',
        λ j h. elim (Bool-cases (n == j)) [
          | inl self ↦ subst (λ k. v.queues k ≡ []) (ground (arith, self)) empty
          | inr other ↦ others j other ∙ below j (ground (arith, other))
        ],
        still',
        sent' ∙ sent,
      )

  -- As long as the goroutine that holds the states of two, three or four subscriptions has not
  -- returned, it can take all that waits in the channels, by steps that each take one message and
  -- with no other step between: they are empty then, and what was sent is the same.
  pub drains :
      (es : List (Event c)) (t : Traffic c)
      → run es no_traffic ≡ some t
      → t.done ≡ false
      → (is : List ℕ) × (u : Traffic c) × (run (es ++ takes_from is) no_traffic ≡ some u)
        × IsDrained u
        × (u.sent ≡ t.sent)
  drains es t ran running =
      let (is, u, ran', empty, still, sent) = empties_below (suc c.width) t running in
      (is, u, run-append es (takes_from is) no_traffic t ran ∙ ran', empty, sent)
