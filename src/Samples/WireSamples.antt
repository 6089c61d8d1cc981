-- ===== src/Samples/WireSamples.antt =====
-- The sockets of two connections, of which one fails.
use katamari.Base.{
  ℕ, ◌≡◌, ◌≢◌, refl, Bool, true, false, [], ◌∷◌, List, ◌==◌, if◌then◌else◌, keep, returns, ok,
}
use katamari.Base.Int.{pos}
use katamari.Base.Text.{codes}
use katamari.Stream.Pools.{Frame, Stream}
use katamari.Stream.Sound.{IsSound, total}
use katamari.Stream.Writing.{Wires, write, write_all, to, write_all_lem}
use katamari.Memory.Sorting.{by_insertion}
use katamari.Server.InMemory.{memory_database}
use katamari.Server.Sessions.{ws_session, ws_session-leaves}
use katamari.Samples.ToyCodec.{toy_codec}
use katamari.Samples.ServerSamples.{kept}
use katamari.Samples.SubscribeSamples.{library, visit, visit-Opens}
use katamari.Samples.StreamSamples.{sample}

-- connection 0 takes nothing
abbrev accepts : ℕ → Bool
accepts k = if k == 0 then false else true

abbrev wires : Wires
wires = record { stream = sample; alive = λ k. true; received = [] }

abbrev frames : List Frame
frames = (0, codes "x") ∷ (1, codes "x") ∷ []

-- the frame behind the one that fails is received
write_test : (write_all accepts frames wires).received ≡ (1, codes "x") ∷ []
unfolding write_all write
write_test = refl

write_all_lem_example :
    (◌≡◌ {A = Bool} true true
      → (keep (to 1) (write_all accepts frames wires).received ≡ (1, codes "x") ∷ [])
        × ((write_all accepts frames wires).alive 1 ≡ true))
    × (◌≡◌ {A = Bool} true false
        → (keep (to 1) (write_all accepts frames wires).received ≡ [])
          × (◌≢◌ {A = List Frame} ((1, codes "x") ∷ []) []
              → (write_all accepts frames wires).alive 1 ≡ false))
write_all_lem_example = write_all_lem accepts 1 frames wires refl

-- The first message is taken, one frame comes, and then the socket fails.
ws_session-leaves_example :
    (sm : Stream) × (w' : Wires) × (ws_session
        (memory_database toy_codec by_insertion)
        toy_codec
        (λ k. true)
        (true ∷ false ∷ [])
        (pos 3)
        visit
        library
        wires
      ≡ returns (ok tt, record library { stream = sm }, w'))
    × (w'.alive 7 ≡ false)
    × IsSound sm
    × (total 7 sm.pools ≡ 0)
ws_session-leaves_example =
    ws_session-leaves (memory_database toy_codec by_insertion) toy_codec (λ k. true)
      (true ∷ false ∷ []) (pos 3) visit library kept wires visit-Opens.sound visit-Opens.subscribed
      visit-Opens.upgraded visit-Opens.there refl
