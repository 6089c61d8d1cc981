-- ===== src/Client.antt =====
-- client/subscribeMultiple.go: the goroutine that holds the states of several subscriptions, and
-- the calls of the callback that it makes. What its `select` takes, in which order, is a list of
-- arrivals; the subscriptions that send on the channels are not here.
pub mod Latest
pub mod Width
pub mod Channels
pub mod Ordering
pub mod Drained
pub mod Draining
pub mod Subscribe
pub mod Lifetime
pub mod Endings
pub mod Closing
pub mod Tracking
use katamari.Base.{Bool, true, false, List, [], ◌∷◌}
use katamari.Base.Int.{ℤ}
use katamari.Base.Text.{Bytes}

-- `Meta`
pub record Meta (T : Type 0) : Type 0 where
  pub created : ℤ
  pub updated : ℤ
  pub index : Bytes
  pub content : T

-- `MultiState`
pub record MultiState (T : Type 0) : Type 0 where
  pub content : List (Meta T)
  pub updated : Bool

-- a state that the message is for, and one that it is not for
abbrev pub fresh : {T : Type 0} → List (Meta T) → MultiState T
fresh state = record { content = state; updated = true }

abbrev pub kept : {T : Type 0} → List (Meta T) → MultiState T
kept state = record { content = state; updated = false }

-- What the `select` takes: the end of the context, or the message of a channel. A manager of two or
-- three channels uses the first two or three.
pub data Arrival2 (T1 T2 : Type 0) : Type 0 where
  cancelled : Arrival2 T1 T2
  from1 : List (Meta T1) → Arrival2 T1 T2
  from2 : List (Meta T2) → Arrival2 T1 T2

pub data Arrival3 (T1 T2 T3 : Type 0) : Type 0 where
  cancelled : Arrival3 T1 T2 T3
  from1 : List (Meta T1) → Arrival3 T1 T2 T3
  from2 : List (Meta T2) → Arrival3 T1 T2 T3
  from3 : List (Meta T3) → Arrival3 T1 T2 T3

pub data Arrival4 (T1 T2 T3 T4 : Type 0) : Type 0 where
  cancelled : Arrival4 T1 T2 T3 T4
  from1 : List (Meta T1) → Arrival4 T1 T2 T3 T4
  from2 : List (Meta T2) → Arrival4 T1 T2 T3 T4
  from3 : List (Meta T3) → Arrival4 T1 T2 T3 T4
  from4 : List (Meta T4) → Arrival4 T1 T2 T3 T4

-- `SubscribeMultiple2`: the calls of the callback
module _ {T1 T2 : Type 0} where
  unfoldable pub manage2 :
      List (Meta T1) → List (Meta T2) → List (Arrival2 T1 T2) → List (MultiState T1 × MultiState T2)
  manage2 s1 s2 [] = []
  manage2 s1 s2 (Arrival2.cancelled ∷ es) = []
  manage2 s1 s2 (Arrival2.from1 m ∷ es) = (fresh m, kept s2) ∷ manage2 m s2 es
  manage2 s1 s2 (Arrival2.from2 m ∷ es) = (kept s1, fresh m) ∷ manage2 s1 m es

-- `SubscribeMultiple3`
module _ {T1 T2 T3 : Type 0} where
  unfoldable pub manage3 :
      List (Meta T1)
      → List (Meta T2)
      → List (Meta T3)
      → List (Arrival3 T1 T2 T3)
      → List (MultiState T1 × MultiState T2 × MultiState T3)
  manage3 s1 s2 s3 [] = []
  manage3 s1 s2 s3 (Arrival3.cancelled ∷ es) = []
  manage3 s1 s2 s3 (Arrival3.from1 m ∷ es) = (fresh m, kept s2, kept s3) ∷ manage3 m s2 s3 es
  manage3 s1 s2 s3 (Arrival3.from2 m ∷ es) = (kept s1, fresh m, kept s3) ∷ manage3 s1 m s3 es
  manage3 s1 s2 s3 (Arrival3.from3 m ∷ es) = (kept s1, kept s2, fresh m) ∷ manage3 s1 s2 m es

-- `SubscribeMultiple4`
module _ {T1 T2 T3 T4 : Type 0} where
  unfoldable pub manage4 :
      List (Meta T1)
      → List (Meta T2)
      → List (Meta T3)
      → List (Meta T4)
      → List (Arrival4 T1 T2 T3 T4)
      → List (MultiState T1 × MultiState T2 × MultiState T3 × MultiState T4)
  manage4 s1 s2 s3 s4 [] = []
  manage4 s1 s2 s3 s4 (Arrival4.cancelled ∷ es) = []
  manage4 s1 s2 s3 s4 (Arrival4.from1 m ∷ es) =
      (fresh m, kept s2, kept s3, kept s4) ∷ manage4 m s2 s3 s4 es
  manage4 s1 s2 s3 s4 (Arrival4.from2 m ∷ es) =
      (kept s1, fresh m, kept s3, kept s4) ∷ manage4 s1 m s3 s4 es
  manage4 s1 s2 s3 s4 (Arrival4.from3 m ∷ es) =
      (kept s1, kept s2, fresh m, kept s4) ∷ manage4 s1 s2 m s4 es
  manage4 s1 s2 s3 s4 (Arrival4.from4 m ∷ es) =
      (kept s1, kept s2, kept s3, fresh m) ∷ manage4 s1 s2 s3 m es
