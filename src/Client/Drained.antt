-- ===== src/Client/Drained.antt =====
-- What the callback of client/subscribeMultiple.go has seen once the channels are empty.
use katamari.Base.{
  ℕ, suc, ◌<◌, arith, All, ◌≡◌, refl, sym, ap, ◌∙◌, Bool, false, List, [], ◌∷◌, ◌++◌, Option, none,
  some, keep, append-nil, Bool-cases, inl, inr,
}
use katamari.Client.{Meta, MultiState, Arrival2, Arrival3, Arrival4, manage2, manage3, manage4}
use katamari.Client.Latest.{
  latest, or_earlier, is_some, IsMessage2, IsMessage3, IsMessage4, channel1_of2, channel2_of2,
  channel1_of3, channel2_of3, channel3_of3, channel1, channel2, channel3, channel4, manage2-latest,
  manage3-latest, manage4-latest,
}
use katamari.Client.Channels.{
  Channels, channels2, channels3, channels4, Event, Traffic, no_traffic, run, calls2, calls3,
  calls4, on, InOrder,
}
use katamari.Client.Ordering.{run-InOrder}

latest-keep :
    {A B : Type 0} (channel : A → Option B) (p : A → Bool) (b : B) (xs : List A)
    → ((x : A) → p x ≡ false → channel x ≡ none)
    → latest channel b (keep p xs) ≡ latest channel b xs
unfolding latest
latest-keep channel p b [] h = refl
latest-keep channel p b (x ∷ xs) h = elim (Bool-cases (p x)) [
  | inl own ↦ rw own (latest-keep channel p (or_earlier b (channel x)) xs h)
  | inr other ↦ rw (other, h x other) (latest-keep channel p b xs h)
]

All-init :
    {A : Type 0} (P : A → Type 0) (es : List A) (e : A) → All P (es ++ e ∷ []) → All P es × P e
All-init P [] e h = (tt, h.0)
All-init P (d ∷ es) e h = let (before, last) = All-init P es e h.1 in ((h.0, before), last)

module _ {A : Type 0} {c : Channels A} where
  -- an empty channel was read to its end
  drained-latest :
      {B : Type 0} (k : ℕ) (channel : A → Option B) (b : B) (t : Traffic c)
      → ((m : A) → on c k m ≡ false → channel m ≡ none)
      → InOrder t
      → t.queues k ≡ []
      → latest channel b t.sent ≡ latest channel b t.taken
  drained-latest k channel b t only o empty =
      sym (latest-keep channel (on c k) b t.sent only)
      ∙ ap (latest channel b) (
          o.same k
          ∙ ap (λ ms. keep (on c k) t.taken ++ ms) empty
          ∙ append-nil (keep (on c k) t.taken))
      ∙ latest-keep channel (on c k) b t.taken only

  -- nothing waits
  abbrev pub IsDrained : Traffic c → Type 0
  IsDrained t = (i : ℕ) → i < suc c.width → t.queues i ≡ []

  -- of a path: the last list that was sent, and whether the message `e` is its
  abbrev pub last_sent : {T : Type 0} → (A → Option (List (Meta T))) → Traffic c → A → MultiState T
  last_sent channel t e = record {
    content = latest channel [] t.sent;
    updated = is_some (channel e);
  }

module _ {T1 T2 : Type 0} where
  only1_of2 : (m : Arrival2 T1 T2) → on channels2 1 m ≡ false → channel1_of2 m ≡ none
  only1_of2 (Arrival2.from1 m) h = cc
  only1_of2 _ h = refl

  only2_of2 : (m : Arrival2 T1 T2) → on channels2 2 m ≡ false → channel2_of2 m ≡ none
  only2_of2 (Arrival2.from2 m) h = cc
  only2_of2 _ h = refl

  -- what the callback is to see when the message `e` was the last
  abbrev pub up_to_date2 :
      Traffic (channels2 {T1 = T1} {T2 = T2}) → Arrival2 T1 T2 → MultiState T1 × MultiState T2
  up_to_date2 t e = (last_sent channel1_of2 t e, last_sent channel2_of2 t e)

  -- After any steps of SubscribeMultiple2 that leave its two channels empty, if a message was taken at
  -- all, the last call of the callback has, for each path, the last list that its subscription sent,
  -- and marks the path of the message that was taken last.
  drained_call2 :
      (es : List (Event (channels2 {T1 = T1} {T2 = T2}))) (t : Traffic channels2)
      (before : List (Arrival2 T1 T2)) (e : Arrival2 T1 T2)
      → run es no_traffic ≡ some t
      → IsDrained t
      → t.taken ≡ before ++ e ∷ []
      → calls2 t ≡ manage2 [] [] before ++ up_to_date2 t e ∷ []
  drained_call2 es t before e ran empty last =
      let o = run-InOrder es t ran in
      let (messages, message) = All-init IsMessage2 before e (rw last at o.only) in
      rw
        (
          drained-latest 1 channel1_of2 [] t only1_of2 o (empty 1 (omega arith)),
          drained-latest 2 channel2_of2 [] t only2_of2 o (empty 2 (omega arith)),
          last,
        )
        (manage2-latest [] [] before e messages message)

module _ {T1 T2 T3 : Type 0} where
  only1_of3 : (m : Arrival3 T1 T2 T3) → on channels3 1 m ≡ false → channel1_of3 m ≡ none
  only1_of3 (Arrival3.from1 m) h = cc
  only1_of3 _ h = refl

  only2_of3 : (m : Arrival3 T1 T2 T3) → on channels3 2 m ≡ false → channel2_of3 m ≡ none
  only2_of3 (Arrival3.from2 m) h = cc
  only2_of3 _ h = refl

  only3_of3 : (m : Arrival3 T1 T2 T3) → on channels3 3 m ≡ false → channel3_of3 m ≡ none
  only3_of3 (Arrival3.from3 m) h = cc
  only3_of3 _ h = refl

  -- what the callback is to see when the message `e` was the last
  abbrev pub up_to_date3 :
      Traffic (channels3 {T1 = T1} {T2 = T2} {T3 = T3})
      → Arrival3 T1 T2 T3
      → MultiState T1 × MultiState T2 × MultiState T3
  up_to_date3 t e =
      (last_sent channel1_of3 t e, last_sent channel2_of3 t e, last_sent channel3_of3 t e)

  -- After any steps of SubscribeMultiple3 that leave its three channels empty, if a message was taken at
  -- all, the last call of the callback has, for each path, the last list that its subscription sent,
  -- and marks the path of the message that was taken last.
  pub drained_call3 :
      (es : List (Event (channels3 {T1 = T1} {T2 = T2} {T3 = T3}))) (t : Traffic channels3)
      (before : List (Arrival3 T1 T2 T3)) (e : Arrival3 T1 T2 T3)
      → run es no_traffic ≡ some t
      → IsDrained t
      → t.taken ≡ before ++ e ∷ []
      → calls3 t ≡ manage3 [] [] [] before ++ up_to_date3 t e ∷ []
  drained_call3 es t before e ran empty last =
      let o = run-InOrder es t ran in
      let (messages, message) = All-init IsMessage3 before e (rw last at o.only) in
      rw
        (
          drained-latest 1 channel1_of3 [] t only1_of3 o (empty 1 (omega arith)),
          drained-latest 2 channel2_of3 [] t only2_of3 o (empty 2 (omega arith)),
          drained-latest 3 channel3_of3 [] t only3_of3 o (empty 3 (omega arith)),
          last,
        )
        (manage3-latest [] [] [] before e messages message)

module _ {T1 T2 T3 T4 : Type 0} where
  only1 : (m : Arrival4 T1 T2 T3 T4) → on channels4 1 m ≡ false → channel1 m ≡ none
  only1 (Arrival4.from1 m) h = cc
  only1 _ h = refl

  only2 : (m : Arrival4 T1 T2 T3 T4) → on channels4 2 m ≡ false → channel2 m ≡ none
  only2 (Arrival4.from2 m) h = cc
  only2 _ h = refl

  only3 : (m : Arrival4 T1 T2 T3 T4) → on channels4 3 m ≡ false → channel3 m ≡ none
  only3 (Arrival4.from3 m) h = cc
  only3 _ h = refl

  only4 : (m : Arrival4 T1 T2 T3 T4) → on channels4 4 m ≡ false → channel4 m ≡ none
  only4 (Arrival4.from4 m) h = cc
  only4 _ h = refl

  -- what the callback is to see when the message `e` was the last
  abbrev pub up_to_date4 :
      Traffic (channels4 {T1 = T1} {T2 = T2} {T3 = T3} {T4 = T4})
      → Arrival4 T1 T2 T3 T4
      → MultiState T1 × MultiState T2 × MultiState T3 × MultiState T4
  up_to_date4 t e = (
    last_sent channel1 t e,
    last_sent channel2 t e,
    last_sent channel3 t e,
    last_sent channel4 t e,
  )

  -- After any steps of SubscribeMultiple4 that leave its four channels empty, if a message was taken at
  -- all, the last call of the callback has, for each path, the last list that its subscription sent,
  -- and marks the path of the message that was taken last.
  pub drained_call4 :
      (es : List (Event (channels4 {T1 = T1} {T2 = T2} {T3 = T3} {T4 = T4})))
      (t : Traffic channels4) (before : List (Arrival4 T1 T2 T3 T4)) (e : Arrival4 T1 T2 T3 T4)
      → run es no_traffic ≡ some t
      → IsDrained t
      → t.taken ≡ before ++ e ∷ []
      → calls4 t ≡ manage4 [] [] [] [] before ++ up_to_date4 t e ∷ []
  drained_call4 es t before e ran empty last =
      let o = run-InOrder es t ran in
      let (messages, message) = All-init IsMessage4 before e (rw last at o.only) in
      rw
        (
          drained-latest 1 channel1 [] t only1 o (empty 1 (omega arith)),
          drained-latest 2 channel2 [] t only2 o (empty 2 (omega arith)),
          drained-latest 3 channel3 [] t only3 o (empty 3 (omega arith)),
          drained-latest 4 channel4 [] t only4 o (empty 4 (omega arith)),
          last,
        )
        (manage4-latest [] [] [] [] before e messages message)
