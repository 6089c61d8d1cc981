-- ===== src/Client/Ordering.antt =====
-- The channels of client/subscribeMultiple.go lose nothing and change no order.
use katamari.Base.{
  some_inj, ℕ, ◌≤◌, ◌≡◌, refl, sym, ap, subst, ◌∙◌, Bool, true, false, not, ◌||◌, List, [], ◌∷◌,
  ◌++◌, Option, none, some, ltb, ◌==◌, if◌then◌else◌, length, length-append, keep, All, arith,
  append_assoc, append-nil, Bool-cases, Option-cases, inl, inr,
}
use katamari.Client.Channels.{
  Channels, Event, sends, drops, takes, returns, cancels, Traffic, no_traffic, send, take_first,
  step, run, on, InOrder,
}

keep-append {ℓ} :
    {A : Type ℓ} (p : A → Bool) (xs ys : List A) → keep p (xs ++ ys) ≡ keep p xs ++ keep p ys
keep-append p [] ys = refl
keep-append p (x ∷ xs) ys = ground (arith, keep-append p xs ys)

All-append_one {ℓ κ} :
    {A : Type ℓ} (P : A → Type κ) (xs : List A) (x : A) → All P xs → P x → All P (xs ++ x ∷ [])
All-append_one P [] x h q = (q, tt)
All-append_one P (y ∷ xs) x h q = (h.0, All-append_one P xs x h.1 q)

unless_stuck {ℓ} :
    {A : Type ℓ} (b : Bool) (o : Option A) (a : A) → (if b then none else o) ≡ some a → o ≡ some a
unless_stuck true o a h = cc
unless_stuck false o a h = h

when_free {ℓ} :
    {A : Type ℓ} (b : Bool) (o : Option A) (a : A) → (if b then o else none) ≡ some a → o ≡ some a
when_free true o a h = h
when_free false o a h = cc

module _ {A : Type 0} where
  keep-sent :
      (p : A → Bool) (m : A) (sent taken queue : List (A))
      → p m ≡ true
      → keep p sent ≡ keep p taken ++ queue
      → keep p (sent ++ m ∷ []) ≡ keep p taken ++ (queue ++ m ∷ [])
  keep-sent p m sent taken queue own h =
      keep-append p sent (m ∷ []) ∙ rw (own, h) (append_assoc (keep p taken) queue (m ∷ []))

  keep-other :
      (p : A → Bool) (m : A) (ms : List (A)) → p m ≡ false → keep p (ms ++ m ∷ []) ≡ keep p ms
  keep-other p m ms other = keep-append p ms (m ∷ []) ∙ rw other (append-nil (keep p ms))

  keep-taken :
      (p : A → Bool) (m : A) (sent taken queue : List (A))
      → p m ≡ true
      → keep p sent ≡ keep p taken ++ m ∷ queue
      → keep p sent ≡ keep p (taken ++ m ∷ []) ++ queue
  keep-taken p m sent taken queue own h =
      h
      ∙ sym (
          ap (λ ms. ms ++ queue) (keep-append p taken (m ∷ []) ∙ rw own refl)
          ∙ append_assoc (keep p taken) (m ∷ []) queue)

  grows : (ms : List (A)) (m : A) → ltb (length ms) 10 ≡ true → length (ms ++ m ∷ []) ≤ 10
  grows ms m h = ground (arith, length-append ms (m ∷ []), h)

  shrinks : (m : A) (ms : List (A)) → length (m ∷ ms) ≤ 10 → length ms ≤ 10
  shrinks m ms h = omega (arith, h)

on_self : {A : Type 0} (c : Channels A) (m : A) (i : ℕ) → on c i m ≡ true → c.channel_of m ≡ i
on_self c m i h = ground (arith, h)

module _ {A : Type 0} {c : Channels A} where
  no_traffic-InOrder : InOrder {c = c} no_traffic
  no_traffic-InOrder = record {
    same = λ i. refl;
    room = λ i. omega arith;
    own = λ i. tt;
    only = tt;
  }

  send-InOrder :
      (m : A) (t t' : Traffic c) → c.IsMessage m → InOrder t → send m t ≡ some t' → InOrder t'
  unfolding send
  send-InOrder m t t' p o h = elim (Bool-cases (ltb (length (t.queues (c.channel_of m))) 10)) [
    | inr full ↦ let blocked = rw (send, full) at h in cc
    | inl free ↦ subst InOrder (some_inj (rw (send, free) at h)) (record {
      same = λ i. elim (Bool-cases (on c i m)) [
        | inl self ↦ rw self (
            keep-sent (on c i) m t.sent t.taken _ self
              (o.same i ∙ ap (λ j. keep (on c i) t.taken ++ t.queues j) (sym (on_self c m i self))))
        | inr other ↦ rw other (keep-other (on c i) m t.sent other ∙ o.same i)
      ];
      room = λ i. elim (Bool-cases (on c i m)) [
        | inl self ↦ rw self (grows (t.queues (c.channel_of m)) m free)
        | inr other ↦ rw other (o.room i)
      ];
      own = λ i. elim (Bool-cases (on c i m)) [
        | inl self ↦ rw self (
            All-append_one (λ n. c.IsMessage n × (on c i n ≡ true)) (t.queues (c.channel_of m)) m
              (rw (on_self c m i self) (o.own i)) (p, self))
        | inr other ↦ rw other (o.own i)
      ];
      only = o.only;
    })
  ]

  take-InOrder :
      (i : ℕ) (t t' : Traffic c) (ms : List (A))
      → t.queues i ≡ ms
      → InOrder t
      → take_first i t ms ≡ some t'
      → InOrder t'
  take-InOrder i t t' [] e o h = cc
  take-InOrder i t t' (m ∷ queue) e o h =
      let mine = subst (All (λ n. c.IsMessage n × (on c i n ≡ true))) e (o.own i) in
      subst InOrder (some_inj h) (record {
        same = λ j. elim (Bool-cases (i == j)) [
          | inl self ↦
              let k : i ≡ j = ground (arith, self) in
              let own = subst (λ l. on c l m ≡ true) k mine.0.1 in
              rw self (
                keep-taken (on c j) m t.sent t.taken queue own
                  (o.same j ∙ ap (λ ns. keep (on c j) t.taken ++ ns) (ap t.queues (sym k) ∙ e)))
          | inr other ↦
              let foreign : on c j m ≡ false = ground (arith, mine.0.1, other) in
              rw (other, keep-other (on c j) m t.taken foreign) (o.same j)
        ];
        room = λ j. elim (Bool-cases (i == j)) [
          | inl self ↦ rw self (shrinks m queue (subst (λ ns. length ns ≤ 10) e (o.room i)))
          | inr other ↦ rw other (o.room j)
        ];
        own = λ j. elim (Bool-cases (i == j)) [
          | inl self ↦
              let k : i ≡ j = ground (arith, self) in
              rw self (subst (λ l. All (λ n. c.IsMessage n × (on c l n ≡ true)) queue) k mine.1)
          | inr other ↦ rw other (o.own j)
        ];
        only = All-append_one c.IsMessage t.taken m o.only mine.0.0;
      })

  step-InOrder : (e : Event c) (t t' : Traffic c) → InOrder t → step e t ≡ some t' → InOrder t'
  unfolding step
  step-InOrder (sends m p) t t' o h = send-InOrder m t t' p o h
  step-InOrder drops t t' o h = subst InOrder (some_inj (when_free t.ended _ t' h)) o
  step-InOrder (takes i) t t' o h =
      take-InOrder i t t' (t.queues i) refl o (unless_stuck t.done _ t' h)
  step-InOrder returns t t' o h =
      subst InOrder (some_inj (unless_stuck (t.done || not t.ended) _ t' h))
        (record { same = o.same; room = o.room; own = o.own; only = o.only })
  step-InOrder cancels t t' o h =
      subst InOrder (some_inj h)
        (record { same = o.same; room = o.room; own = o.own; only = o.only })

  run_from-InOrder :
      (es : List (Event c)) (t t' : Traffic c) → InOrder t → run es t ≡ some t' → InOrder t'
  unfolding run
  run_from-InOrder [] t t' o h = subst InOrder (some_inj h) o
  run_from-InOrder (e ∷ es) t t' o h = elim (Option-cases (step e t)) [
    | inl stuck ↦ let none_is = rw (run, stuck) at h in cc
    | inr (u, moved) ↦ run_from-InOrder es u t' (step-InOrder e t u o moved) (rw (run, moved) at h)
  ]

  -- After any steps of the subscriptions, of the goroutine that holds their states and of the
  -- context: on each channel, what was sent is what was taken and then what still waits, in the same
  -- order, and at most ten messages wait.
  pub run-InOrder : (es : List (Event c)) (t : Traffic c) → run es no_traffic ≡ some t → InOrder t
  run-InOrder es t h = run_from-InOrder es no_traffic t no_traffic-InOrder h
