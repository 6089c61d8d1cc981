-- ===== src/Server/Steady.antt =====
-- The pools of a server that runs with the storage of memory.go stay sound.
use katamari.Base.{
  returns_inj, ℕ, ◌≡◌, refl, sym, subst, ◌∙◌, inl, inr, [], ◌∷◌, Bool-cases, Option-cases, returns,
  arith,
}
use katamari.Base.Int.{ℤ}
use katamari.Base.Text.{Bytes, bytes_eq, count}
use katamari.Objects.{Codec}
use katamari.Storage.{StorageEvent}
use katamari.Messages.{Patcher, encode}
use katamari.Memory.Sorting.{SortSlice}
use katamari.Memory.{MemoryStorage}
use katamari.Stream.Pools.{Stream, find_pool}
use katamari.Stream.Sound.{IsSound, total}
use katamari.Stream.Extending.{new-Extends, close-Extends, refresh-Extends, broadcast-Extends}
use katamari.Stream.Histories.{find_pool-In}
use katamari.Stream.{clock_pool, close}
use katamari.Server.{Server, get_filtered_data, watch}
use katamari.Server.InMemory.{memory_database}
use katamari.Server.Publishing.{publish-stored, unpublish-stored}
use katamari.Server.Reading.{Streams, read-Streams, clock-Streams}
use katamari.Server.Queue.{
  Site, Step, Reach, here, next, publishes, unpublishes, reads, clocks, leaves, works,
}

closed-IsSound :
    (key : Bytes) (client : ℕ) (sm sm' : Stream)
    → close key client sm ≡ returns sm'
    → IsSound sm
    → IsSound sm'
unfolding close
closed-IsSound key client sm sm' closed s = elim (Option-cases (find_pool key sm.pools)) [
  | inl missing ↦ let stuck = rw (close, missing) at closed in cc
  | inr (i, there) ↦
      let (sm1, closed1, e) = close-Extends key client sm s (find_pool-In key sm.pools i there) in
      subst IsSound (returns_inj (sym closed1 ∙ closed)) e.sound
]

module _ {W : Type 0} (codec : Codec) (sorter : SortSlice) (patcher : Patcher) where
  watch-IsSound :
      (times : ℕ → ℤ) (ev : StorageEvent) (app : Server MemoryStorage W)
      → IsSound app.stream
      → IsSound (watch (memory_database codec sorter) codec patcher times ev app).0.stream
  unfolding watch
  watch-IsSound times ev app s = elim (Bool-cases (bytes_eq ev.key [])) [
    | inl skipped ↦ rw skipped s
    | inr named ↦
        rw named
          (broadcast-Extends patcher (get_filtered_data (memory_database codec sorter) app)
            (encode codec) times ev.key app.stream s).sound
  ]

  Streams-IsSound :
      (app after : Server MemoryStorage W) → Streams IsSound app after → IsSound after.stream
  Streams-IsSound app after (sm, same, s) = rw same s

  step-IsSound :
      (a b : Site W)
      → Step codec sorter patcher a b
      → IsSound a.server.stream
      → IsSound b.server.stream
  step-IsSound a b (publishes built now req resp app e moved) s =
      rw
        (
          moved,
          publish-stored (memory_database codec sorter) codec patcher built now req resp a.server
              app e,
        )
        s
  step-IsSound a b (unpublishes req resp app one e moved) s =
      rw (moved, unpublish-stored (memory_database codec sorter) req resp a.server app e) s
  step-IsSound a b (reads now req moved) s = rw moved (
      Streams-IsSound a.server _ (
        read-Streams (memory_database codec sorter) codec IsSound a.server
          (λ key sm s. (new-Extends key sm s).sound)
          (λ now key sm s. (refresh-Extends now key _ sm s).sound) now req s))
  step-IsSound a b (clocks time req moved) s = rw moved (
      Streams-IsSound a.server _ (
        clock-Streams (memory_database codec sorter) codec IsSound a.server
          (λ key sm s. (new-Extends key sm s).sound)
          (λ now key sm s. (refresh-Extends now key _ sm s).sound) time req s))
  step-IsSound a b (leaves key client sm e moved) s =
      rw moved (closed-IsSound key client a.server.stream sm e s)
  step-IsSound a b (works times before after ev waits moved) s =
      rw moved (watch-IsSound times ev a.server s)

  pub Reach-IsSound :
      (a b : Site W)
      → Reach codec sorter patcher a b
      → IsSound a.server.stream
      → IsSound b.server.stream
  Reach-IsSound a b here s = s
  Reach-IsSound a b (next r step) s = step-IsSound _ b step (Reach-IsSound a _ r s)

pub fresh-IsSound : (sm : Stream) → sm.pools ≡ clock_pool ∷ [] → IsSound sm
fresh-IsSound sm clocked = rw clocked (record {
  clocked = ([], refl);
  distinct = (tt, tt);
  once = λ c. unfold total count in omega arith;
  unused = λ c h. unfold total count in refl;
})
