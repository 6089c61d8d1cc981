-- ===== src/Server/Subscribing.antt =====
-- A client that subscribes to a key of a running server, from its request on.
use katamari.Base.{◌≡◌, ◌⊎◌, refl, List, [], ◌∷◌, none, ok}
use katamari.Base.Int.{ℤ}
use katamari.Base.Text.{Bytes}
use katamari.Objects.{Codec}
use katamari.Messages.{Patcher}
use katamari.Memory.Sorting.{SortSlice}
use katamari.Stream.Pools.{Frame}
use katamari.Stream.{clock_pool}
use katamari.Stream.Sync.{IsFaithful}
use katamari.Stream.Mirror.{receive}
use katamari.Server.{Request, connected, get_filtered_data}
use katamari.Server.InMemory.{memory_database}
use katamari.Server.Rest.{read}
use katamari.Server.Queue.{Site, Reach, next, reads}
use katamari.Server.Waiting.{Pending}
use katamari.Server.Consistency.{IsLoud}
use katamari.Server.Steady.{Reach-IsSound, fresh-IsSound}
use katamari.Server.Settling.{Reach-trans, Reach-IsConsistent, fresh-IsConsistent}
use katamari.Server.Watching.{seen, Stays, Reach-Watches}
use katamari.Server.Opening.{IsSubscribing, valid-ne, opening, current-Same}

module _ {W : Type 0} {codec : Codec} {patcher : Patcher} {Same : Bytes → Bytes → Type 0}
    (sorter : SortSlice) (h : IsFaithful codec patcher Same) where
  -- In a server that just started, whose storage sends the events of every key, after whatever has
  -- happened: a client subscribes to a key for which no event waits. Its first message is a snapshot,
  -- and whatever happens next, it applies every frame that a broadcast sends to its connection without
  -- an error, and its document is the one that the read filters make of the key's data as they are,
  -- unless an event waits whose broadcast concerns the key. The connection is not closed, the filters
  -- make no empty text, and the libraries are taken to be faithful.
  pub subscriber-Same :
      (now : ℤ) (req : Request) (served : Bytes) (a b c : Site W)
      → IsLoud a.server.storage
      → a.server.stream.pools ≡ clock_pool ∷ []
      → Reach codec sorter patcher a b
      → (Pending b.waiting req.key → ⊥)
      → IsSubscribing codec sorter req b.server served
      → (r : Reach codec sorter patcher
          (record b { server = (read (memory_database codec sorter) codec now req b.server).1 })
          c)
      → Stays codec sorter patcher b.server.stream.next r
      → (first : List Frame) × (cache : Bytes) × (cache' : Bytes) × ((read
            (memory_database codec sorter)
            codec
            now
            req
            b.server).0
          ≡ connected first)
        × (receive codec patcher b.server.stream.next first [] ≡ (cache, none))
        × (seen codec sorter patcher b.server.stream.next r cache ≡ (cache', none))
        × ((doc : Bytes)
            → get_filtered_data (memory_database codec sorter) c.server req.key ≡ ok doc
            → Same doc cache' ⊎ Pending c.waiting req.key)
  unfolding get_filtered_data
  subscriber-Same now req served a b c l clocked before settled i r stays =
      let start = fresh-IsConsistent codec sorter patcher a l clocked in
      let consistent = Reach-IsConsistent codec sorter patcher a b start before in
      let sound =
        Reach-IsSound codec sorter patcher a b before (fresh-IsSound a.server.stream clocked) in
      let (first, cache, answered, applied, attached, serves) =
        opening sorter h now req b served sound consistent settled i in
      let named = valid-ne req.key i.valid in
      let (cache', followed, attached', serves') =
        Reach-Watches sorter h req.key b.server.stream.next _ c r cache named stays serves
          attached in
      let after =
        Reach-IsConsistent codec sorter patcher a c start
          (Reach-trans codec sorter patcher a _ c (next before (reads now req refl)) r) in
      (
        first,
        cache,
        cache',
        answered,
        applied,
        followed,
        λ doc there. current-Same sorter h req.key c doc cache' named after attached' serves' there,
      )
