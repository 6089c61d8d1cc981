-- ===== src/Server/Queue.antt =====
-- The watch channel between the requests and the workers: a server that runs with the storage of
-- memory.go, and the events that were sent and that no worker has broadcast yet. The workers are
-- many, so any of the events may be next.
use katamari.Base.{ℕ, ◌≡◌, ◌⊎◌, true, false, In, List, ◌∷◌, ◌++◌, length, drop, returns}
use katamari.Base.Int.{ℤ}
use katamari.Base.Text.{Bytes, codes, contains}
use katamari.Key.{match, peer}
use katamari.Memory.Map.{Entries, keys}
use katamari.Stream.Pools.{Pool}
use katamari.Stream.Coherent.{AllBehind}
use katamari.Objects.{Codec}
use katamari.Messages.{Patcher}
use katamari.Storage.{StorageEvent}
use katamari.Memory.Sorting.{SortSlice}
use katamari.Memory.{MemoryStorage}
use katamari.Stream
use katamari.Server.{Request, Response, Server, watch}
use katamari.Server.Rest.{publish, unpublish, read, clock}
use katamari.Server.InMemory.{memory_database}

pub record Site (W : Type 0) : Type 0 where
  pub server : Server MemoryStorage W
  pub waiting : List StorageEvent

module _ {W : Type 0} where
  -- the site after a request that left the server `app`: what it sent waits behind the rest
  abbrev pub after_request : Site W → Server MemoryStorage W → Site W
  after_request a app = record {
    server = app;
    waiting = a.waiting ++ drop (length a.server.storage.sent) app.storage.sent;
  }

-- The event of a removal concerns the pool, or no stored key that is removed matches the pool's.
abbrev pub Told : Bytes → Entries → Pool → Type 0
Told key m p =
    (peer p.key key ≡ true)
    ⊎ ((k : Bytes) → In k (keys m) → match key k ≡ true → match p.key k ≡ false)

-- A removal names one key, or every pool but the clock's is told of it where it must be.
abbrev pub IsTold : {W : Type 0} → Bytes → Server MemoryStorage W → Type 0
IsTold key app =
    contains key (codes "*") ≡ true → AllBehind (Told key app.storage.mem) app.stream.pools

module _ {W : Type 0} (codec : Codec) (sorter : SortSlice) (patcher : Patcher) where
  -- What may happen next: a call that does not return ends the history, and each handler is one
  -- step, also `ws`, whose first message is given to the connection in it. `Peer` looks whether one of
  -- two globs covers the other, so a removal by the glob `a/*` sends no event that concerns a pool of
  -- `*/b`; where such a pool would have to be told, the removal is no step.
  pub data Step (a b : Site W) : Type 0 where
    publishes :
        (built now : ℤ) (req : Request) (resp : Response) (app : Server MemoryStorage W)
        → publish (memory_database codec sorter) codec patcher built now req a.server
          ≡ returns (resp, app)
        → b ≡ after_request a app
        → Step a b
    unpublishes :
        (req : Request) (resp : Response) (app : Server MemoryStorage W)
        → IsTold req.key a.server
        → unpublish (memory_database codec sorter) req a.server ≡ returns (resp, app)
        → b ≡ after_request a app
        → Step a b
    reads :
        (now : ℤ) (req : Request)
        → b ≡ record a { server = (read (memory_database codec sorter) codec now req a.server).1 }
        → Step a b
    clocks :
        (time : Bytes) (req : Request)
        → b ≡ record a { server = (clock (memory_database codec sorter) time req a.server).1 }
        → Step a b
    leaves :
        (key : Bytes) (client : ℕ) (sm : Stream.Pools.Stream)
        → Stream.close key client a.server.stream ≡ returns sm
        → b ≡ record a { server = record a.server { stream = sm } }
        → Step a b
    works :
        (times : ℕ → ℤ) (before after : List StorageEvent) (ev : StorageEvent)
        → a.waiting ≡ before ++ ev ∷ after
        → b ≡ record {
          server = (watch (memory_database codec sorter) codec patcher times ev a.server).0;
          waiting = before ++ after;
        }
        → Step a b

  pub data Reach (a : Site W) : Site W → Type 0 where
    here : Reach a a
    next : {b c : Site W} → Reach a b → Step b c → Reach a c

  -- The step is a worker's, and so are all steps of the history.
  abbrev pub IsWork : {a b : Site W} → Step a b → Type 0
  IsWork (publishes built now req resp app e moved) = ⊥
  IsWork (unpublishes req resp app one e moved) = ⊥
  IsWork (reads now req moved) = ⊥
  IsWork (clocks time req moved) = ⊥
  IsWork (leaves key client sm e moved) = ⊥
  IsWork (works times before after ev waits moved) = Unit

  abbrev pub OnlyWorks : {a b : Site W} → Reach a b → Type 0
  OnlyWorks here = Unit
  OnlyWorks (next r step) = OnlyWorks r × IsWork step
