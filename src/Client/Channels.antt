-- ===== src/Client/Channels.antt =====
-- client/subscribeMultiple.go: the channels of ten places between the subscriptions and the
-- goroutine that holds their states. Each event is one step of a goroutine, or the end of the context;
-- an event that has to wait is no step.
use katamari.Base.{
  ℕ, ◌≤◌, ◌≡◌, Bool, true, false, not, ◌||◌, List, [], ◌∷◌, ◌++◌, Option, none, some, ltb, ◌==◌,
  if◌then◌else◌, length, keep, All,
}
use katamari.Client.{MultiState, Arrival2, Arrival3, Arrival4, manage2, manage3, manage4}
use katamari.Client.Latest.{IsMessage2, IsMessage3, IsMessage4}

-- What the goroutine takes that holds the states: the number of the channel that a message is sent on,
-- and which of the arrivals are messages. The channels have the numbers from 1 to `width`.
pub record Channels (A : Type 0) : Type 1 where
  pub channel_of : A → ℕ
  pub IsMessage : A → Type 0
  pub width : ℕ

-- those of two, three and four paths
module _ {T1 T2 : Type 0} where
  abbrev pub channel_of2 : Arrival2 T1 T2 → ℕ
  channel_of2 Arrival2.cancelled = 0
  channel_of2 (Arrival2.from1 m) = 1
  channel_of2 (Arrival2.from2 m) = 2

  abbrev pub channels2 : Channels (Arrival2 T1 T2)
  channels2 = record { channel_of = channel_of2; IsMessage = IsMessage2; width = 2 }

module _ {T1 T2 T3 : Type 0} where
  abbrev pub channel_of3 : Arrival3 T1 T2 T3 → ℕ
  channel_of3 Arrival3.cancelled = 0
  channel_of3 (Arrival3.from1 m) = 1
  channel_of3 (Arrival3.from2 m) = 2
  channel_of3 (Arrival3.from3 m) = 3

  abbrev pub channels3 : Channels (Arrival3 T1 T2 T3)
  channels3 = record { channel_of = channel_of3; IsMessage = IsMessage3; width = 3 }

module _ {T1 T2 T3 T4 : Type 0} where
  abbrev pub channel_of4 : Arrival4 T1 T2 T3 T4 → ℕ
  channel_of4 Arrival4.cancelled = 0
  channel_of4 (Arrival4.from1 m) = 1
  channel_of4 (Arrival4.from2 m) = 2
  channel_of4 (Arrival4.from3 m) = 3
  channel_of4 (Arrival4.from4 m) = 4

  abbrev pub channels4 : Channels (Arrival4 T1 T2 T3 T4)
  channels4 = record { channel_of = channel_of4; IsMessage = IsMessage4; width = 4 }

-- A subscription calls back: its message goes to the channel, or the context has ended and it is
-- dropped. The goroutine that holds the states takes a message, or returns.
pub data Event {A : Type 0} (c : Channels A) : Type 0 where
  sends : (m : A) → c.IsMessage m → Event c
  drops : Event c
  takes : ℕ → Event c
  returns : Event c
  cancels : Event c

-- The channels, whether the context has ended and whether the goroutine has returned; and all that
-- was sent and taken so far, in order.
pub record Traffic {A : Type 0} (c : Channels A) : Type 0 where
  pub queues : ℕ → List (A)
  pub ended : Bool
  pub done : Bool
  pub sent : List (A)
  pub taken : List (A)

abbrev pub replace : {A : Type 0} → ℕ → List A → (ℕ → List A) → ℕ → List A
replace i q queues j = if i == j then q else queues j

abbrev pub on : {A : Type 0} → Channels A → ℕ → A → Bool
on c i m = c.channel_of m == i

module _ {A : Type 0} {c : Channels A} where
  abbrev pub no_traffic : Traffic c
  no_traffic = record { queues = λ i. []; ended = false; done = false; sent = []; taken = [] }

  -- a channel has ten places
  unfoldable pub send : A → Traffic c → Option (Traffic c)
  send m t =
      let queue = t.queues (c.channel_of m) in
      if ltb (length queue) 10
      then some (record t {
        queues = replace (c.channel_of m) (queue ++ m ∷ []) t.queues;
        sent = t.sent ++ m ∷ [];
      })
      else none

  abbrev pub take_first : ℕ → Traffic c → List (A) → Option (Traffic c)
  take_first i t [] = none
  take_first i t (m ∷ queue) =
      some (record t { queues = replace i queue t.queues; taken = t.taken ++ m ∷ [] })

  unfoldable pub step : Event c → Traffic c → Option (Traffic c)
  step (sends m _) t = send m t
  step drops t = if t.ended then some t else none
  step (takes i) t = if t.done then none else take_first i t (t.queues i)
  step returns t = if t.done || not t.ended then none else some (record t { done = true })
  step cancels t = some (record t { ended = true })

  unfoldable pub run : List (Event c) → Traffic c → Option (Traffic c)
  run [] t = some t
  run (e ∷ es) t = elim (step e t) [ none ↦ none | some t' ↦ run es t' ]

  -- On each channel, what was sent is what was taken and then what still waits, in order; at most ten
  -- messages wait, and they belong to the channel.
  pub record InOrder (t : Traffic c) : Type 0 where
    pub same : (i : ℕ) → keep (on c i) t.sent ≡ keep (on c i) t.taken ++ t.queues i
    pub room : (i : ℕ) → length (t.queues i) ≤ 10
    pub own : (i : ℕ) → All (λ m. c.IsMessage m × (on c i m ≡ true)) (t.queues i)
    pub only : All c.IsMessage t.taken

-- the calls of the callback
module _ {T1 T2 : Type 0} where
  abbrev pub calls2 : Traffic (channels2 {T1 = T1} {T2 = T2}) → List (MultiState T1 × MultiState T2)
  calls2 t = manage2 [] [] t.taken

module _ {T1 T2 T3 : Type 0} where
  abbrev pub calls3 :
      Traffic (channels3 {T1 = T1} {T2 = T2} {T3 = T3})
      → List (MultiState T1 × MultiState T2 × MultiState T3)
  calls3 t = manage3 [] [] [] t.taken

module _ {T1 T2 T3 T4 : Type 0} where
  abbrev pub calls4 :
      Traffic (channels4 {T1 = T1} {T2 = T2} {T3 = T3} {T4 = T4})
      → List (MultiState T1 × MultiState T2 × MultiState T3 × MultiState T4)
  calls4 t = manage4 [] [] [] [] t.taken
