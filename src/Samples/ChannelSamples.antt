-- ===== src/Samples/ChannelSamples.antt =====
-- The channels of client/subscribeMultiple.go in a short history.
use katamari.Base.{
  ℕ, zero, suc, arith, ◌≡◌, refl, true, false, List, [], ◌∷◌, ◌++◌, some, ◌==◌, if◌then◌else◌,
}
use katamari.Base.Int.{pos}
use katamari.Base.Text.{codes}
use katamari.Client.{Meta, Arrival3, Arrival4, manage3, manage4}
use katamari.Client.Channels.{
  Channels, channels3, channels4, calls3, calls4, Event, sends, drops, takes, returns, cancels,
  Traffic, no_traffic, run, step, send, InOrder,
}
use katamari.Client.Ordering.{run-InOrder}
use katamari.Client.Draining.{takes_from, drains}
use katamari.Client.Drained.{IsDrained, up_to_date3, up_to_date4, drained_call3, drained_call4}

abbrev four : Channels (Arrival4 ℕ ℕ ℕ ℕ)
four = channels4

abbrev three : Channels (Arrival3 ℕ ℕ ℕ)
three = channels3

abbrev item : ℕ → List (Meta ℕ)
item n = record { created = pos n; updated = pos 0; index = codes "a"; content = n } ∷ []

-- two lists of the first path and one of the third, of which the first path's come late
abbrev history : List (Event four)
history =
    sends (Arrival4.from1 (item 1)) tt
    ∷ sends (Arrival4.from3 (item 2)) tt
    ∷ sends (Arrival4.from1 (item 3)) tt
    ∷ takes 3
    ∷ takes 1
    ∷ takes 1
    ∷ cancels
    ∷ drops
    ∷ returns
    ∷ []

abbrev read_first : List (Arrival4 ℕ ℕ ℕ ℕ)
read_first = Arrival4.from3 (item 2) ∷ Arrival4.from1 (item 1) ∷ []

abbrev at_the_end : Traffic four
at_the_end = record {
  queues = λ i.
      if 1 == i
      then []
      else if 1 == i
      then Arrival4.from1 (item 3) ∷ []
      else if 3 == i
      then []
      else if 1 == i
      then Arrival4.from1 (item 1) ∷ Arrival4.from1 (item 3) ∷ []
      else if 3 == i
      then Arrival4.from3 (item 2) ∷ []
      else if 1 == i
      then Arrival4.from1 (item 1) ∷ []
      else [];
  ended = true;
  done = true;
  sent = Arrival4.from1 (item 1) ∷ Arrival4.from3 (item 2) ∷ Arrival4.from1 (item 3) ∷ [];
  taken = read_first ++ Arrival4.from1 (item 3) ∷ [];
}

end_reached : run history no_traffic ≡ some at_the_end
unfolding run step send
end_reached = refl

run-InOrder_example : InOrder at_the_end
run-InOrder_example = run-InOrder history at_the_end end_reached

at_the_end-IsDrained : IsDrained at_the_end
at_the_end-IsDrained zero h = refl
at_the_end-IsDrained (suc zero) h = refl
at_the_end-IsDrained (suc (suc zero)) h = refl
at_the_end-IsDrained (suc (suc (suc zero))) h = refl
at_the_end-IsDrained (suc (suc (suc (suc zero)))) h = refl
at_the_end-IsDrained (suc (suc (suc (suc (suc i))))) h = absurd (omega arith)

drained_call4_example :
    calls4 at_the_end
    ≡ manage4 [] [] [] [] read_first ++ up_to_date4 at_the_end (Arrival4.from1 (item 3)) ∷ []
drained_call4_example =
    drained_call4 history at_the_end read_first (Arrival4.from1 (item 3)) end_reached
      at_the_end-IsDrained refl

-- the first messages wait
abbrev early : List (Event four)
early =
    sends (Arrival4.from1 (item 1)) tt
    ∷ sends (Arrival4.from3 (item 2)) tt
    ∷ sends (Arrival4.from1 (item 3)) tt
    ∷ []

abbrev waiting : Traffic four
waiting = record {
  queues = λ i.
      if 1 == i
      then Arrival4.from1 (item 1) ∷ Arrival4.from1 (item 3) ∷ []
      else if 3 == i
      then Arrival4.from3 (item 2) ∷ []
      else if 1 == i
      then Arrival4.from1 (item 1) ∷ []
      else [];
  ended = false;
  done = false;
  sent = Arrival4.from1 (item 1) ∷ Arrival4.from3 (item 2) ∷ Arrival4.from1 (item 3) ∷ [];
  taken = [];
}

drains_example :
    (is : List ℕ) × (u : Traffic four) × (run (early ++ takes_from is) no_traffic ≡ some u)
    × IsDrained u
    × (u.sent ≡ waiting.sent)
unfolding run step send
drains_example = drains early waiting refl refl

-- three paths: a list of the second, which is taken
abbrev short : List (Event three)
short = sends (Arrival3.from2 (item 5)) tt ∷ takes 2 ∷ []

abbrev read : Traffic three
read = record {
  queues = λ i. if 2 == i then [] else if 2 == i then Arrival3.from2 (item 5) ∷ [] else [];
  ended = false;
  done = false;
  sent = Arrival3.from2 (item 5) ∷ [];
  taken = Arrival3.from2 (item 5) ∷ [];
}

read_reached : run short no_traffic ≡ some read
unfolding run step send
read_reached = refl

read-IsDrained : IsDrained read
read-IsDrained zero h = refl
read-IsDrained (suc zero) h = refl
read-IsDrained (suc (suc zero)) h = refl
read-IsDrained (suc (suc (suc zero))) h = refl
read-IsDrained (suc (suc (suc (suc i)))) h = absurd (omega arith)

call3_test : calls3 read ≡ manage3 [] [] [] [] ++ up_to_date3 read (Arrival3.from2 (item 5)) ∷ []
call3_test = drained_call3 short read [] (Arrival3.from2 (item 5)) read_reached read-IsDrained refl
