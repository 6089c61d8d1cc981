-- ===== src/Server/Running.antt =====
-- What holds of a server with the storage of memory.go after any starts, requests that write, and
-- closes, in any order.
use katamari.Base.{
  subst, ◌≡◌, refl, sym, ap, ◌∙◌, true, false, Result, ok, err, Outcome, returns, panics, blocks,
  inl, inr,
}
use katamari.Base.Int.{ℤ}
use katamari.Base.Text.{Bytes}
use katamari.Key.{build}
use katamari.Objects.{Codec}
use katamari.Messages.{Patcher}
use katamari.Memory.Map.{Distinct}
use katamari.Memory.Sorting.{SortSlice}
use katamari.Memory.Refine.{is_on}
use katamari.Memory.Keeping.{Kept, Closed, close-Closed, Whenever, Whenever-if, set-Kept, del-Kept}
use katamari.Memory.{MemoryStorage, set, del}
use katamari.Memory
use katamari.Server.{Request, Response, Server, close}
use katamari.Server.Rest.{publish, publish_answer, unpublish, unpublish_answer}
use katamari.Server.Publishing.{publish_branches, unpublish_cases}
use katamari.Server.InMemory.{memory_database, as_ok}
use katamari.Server.Lifecycle.{Application, runs, start}
use katamari.Server.Starting.{start_cases, IsServing, left_active, not_closing}

module _ {W : Type 0} (codec : Codec) (sorter : SortSlice) (patcher : Patcher)
    (listen : Bytes → Result Bytes) where
  -- What may happen next: a call that does not return ends the history.
  pub data Step (a b : Application MemoryStorage W) : Type 0 where
    starts :
        (address : Bytes)
        → start (memory_database codec sorter) listen address a ≡ runs b
        → Step a b
    publishes :
        (built now : ℤ) (req : Request) (resp : Response) (app : Server MemoryStorage W)
        → publish (memory_database codec sorter) codec patcher built now req a.server
          ≡ returns (resp, app)
        → b ≡ record a { server = app }
        → Step a b
    unpublishes :
        (req : Request) (resp : Response) (app : Server MemoryStorage W)
        → unpublish (memory_database codec sorter) req a.server ≡ returns (resp, app)
        → b ≡ record a { server = app }
        → Step a b
    closes :
        (app : Server MemoryStorage W)
        → close (memory_database codec sorter) a.server ≡ returns app
        → b ≡ record a { server = app }
        → Step a b

  pub data Reach (a : Application MemoryStorage W) : Application MemoryStorage W → Type 0 where
    here : Reach a a
    next : {b c : Application MemoryStorage W} → Reach a b → Step b c → Reach a c

-- The storage is active just when the server is, and then its channel is open; a server that closes
-- is not active; and no key stands twice.
pub record IsSane {W : Type 0} (app : Server MemoryStorage W) : Type 0 where
  pub distinct : Distinct app.storage.mem
  pub agrees : is_on app.storage.active ≡ app.active
  pub wired : app.active ≡ true → app.storage.watcher ≡ true
  pub ends : app.closing ≡ true → app.active ≡ false

module _ {W : Type 0} where
  -- another storage that differs in its entries and events only
  with_storage-IsSane :
      (app : Server MemoryStorage W) (db : MemoryStorage) (world : W)
      → IsSane app
      → Kept app.storage.active app.storage.watcher db
      → IsSane (record app { storage = db; world = world })
  with_storage-IsSane app db world s k = record {
    distinct = k.distinct;
    agrees = ap is_on k.active ∙ s.agrees;
    wired = λ on. k.watcher ∙ s.wired on;
    ends = s.ends;
  }

  publish_answer-IsSane :
      (codec : Codec) (sorter : SortSlice) (key : Bytes) (app : Server MemoryStorage W)
      (o : Outcome (Bytes × MemoryStorage))
      → IsSane app
      → Whenever (λ (r : Bytes × MemoryStorage). Kept app.storage.active app.storage.watcher r.1) o
      → Whenever
          (λ (r : Response × Server MemoryStorage W). IsSane r.1)
          (publish_answer (memory_database codec sorter) key app (as_ok o))
  publish_answer-IsSane codec sorter key app (returns (index, db)) s k =
      with_storage-IsSane app db _ s k
  publish_answer-IsSane codec sorter key app panics s k = tt
  publish_answer-IsSane codec sorter key app blocks s k = tt

  unpublish_answer-IsSane :
      (codec : Codec) (sorter : SortSlice) (key : Bytes) (app : Server MemoryStorage W)
      (o : Outcome (Result (Unit {0}) × MemoryStorage))
      → IsSane app
      → Whenever
          (λ (r : Result (Unit {0}) × MemoryStorage).
            Kept app.storage.active app.storage.watcher r.1)
          o
      → Whenever
          (λ (r : Response × Server MemoryStorage W). IsSane r.1)
          (unpublish_answer (memory_database codec sorter) key app o)
  unpublish_answer-IsSane codec sorter key app (returns (ok u, db)) s k =
      with_storage-IsSane app db _ s k
  unpublish_answer-IsSane codec sorter key app (returns (err e, db)) s k =
      with_storage-IsSane app db _ s k
  unpublish_answer-IsSane codec sorter key app panics s k = tt
  unpublish_answer-IsSane codec sorter key app blocks s k = tt

  after_close-IsSane :
      (app : Server MemoryStorage W) (o : Outcome MemoryStorage)
      → IsSane app
      → Whenever (Closed app.storage.mem) o
      → Whenever
          (λ (app' : Server MemoryStorage W). IsSane app')
          (elim o [
            | returns d ↦ returns (record app {
              closing = true;
              active = false;
              storage = d;
              world = app.on_close app.world;
            })
            | panics ↦ panics
            | blocks ↦ blocks
          ])
  after_close-IsSane app (returns d) s c = record {
    distinct = subst Distinct (sym c.same) s.distinct;
    agrees = ap is_on c.inactive;
    wired = λ e. cc;
    ends = λ e. refl;
  }
  after_close-IsSane app panics s c = tt
  after_close-IsSane app blocks s c = tt

  close-IsSane :
      (codec : Codec) (sorter : SortSlice) (app : Server MemoryStorage W)
      → IsSane app
      → Whenever IsSane (close (memory_database codec sorter) app)
  unfolding close Memory.close
  close-IsSane codec sorter app s =
      Whenever-if IsSane app.closing _ _ s (after_close-IsSane app _ s (close-Closed app.storage))

  serving-IsSane : (at : Bytes) (a : Application MemoryStorage W) → IsServing at a → IsSane a.server
  serving-IsSane at a serving = record {
    distinct = serving.started.distinct;
    agrees = ap is_on serving.stores ∙ sym (left_active a.server serving.active);
    wired = λ e. serving.started.channel serving.stores;
    ends = λ e. absurd (cc (e, not_closing a.server serving.active));
  }

module _ {W : Type 0} (codec : Codec) (sorter : SortSlice) (patcher : Patcher)
    (listen : Bytes → Result Bytes) where
  publish-IsSane :
      (built now : ℤ) (req : Request) (app : Server MemoryStorage W)
      → IsSane app
      → Whenever
          (λ (r : Response × Server MemoryStorage W). IsSane r.1)
          (publish (memory_database codec sorter) codec patcher built now req app)
  publish-IsSane built now req app s =
      elim (publish_branches (memory_database codec sorter) codec patcher built now req app) [
        | inl (resp, refused, _, _) ↦ rw refused s
        | inr (content, _, stored) ↦ rw stored (
            publish_answer-IsSane codec sorter (build built req.key) app _ s
              (set-Kept codec now (build built req.key) content app.storage s.distinct))
      ]

  unpublish-IsSane :
      (req : Request) (app : Server MemoryStorage W)
      → IsSane app
      → Whenever
          (λ (r : Response × Server MemoryStorage W). IsSane r.1)
          (unpublish (memory_database codec sorter) req app)
  unpublish-IsSane req app s = elim (unpublish_cases (memory_database codec sorter) req app) [
    | inl (resp, refused, _) ↦ rw refused s
    | inr (_, _, _, removed) ↦ rw removed (
        unpublish_answer-IsSane codec sorter req.key app _ s
          (del-Kept req.key app.storage s.distinct))
  ]

  step-IsSane :
      (a b : Application MemoryStorage W)
      → IsSane a.server
      → Step codec sorter patcher listen a b
      → IsSane b.server
  step-IsSane a b s (starts address e) =
      elim (start_cases codec sorter listen address a b s.distinct e) [
        | inl (_, same) ↦ rw same s
        | inr (at, serving) ↦ serving-IsSane at b serving
      ]
  step-IsSane a b s (publishes built now req resp app e moved) = rw moved (
      subst (Whenever (λ (r : Response × Server MemoryStorage W). IsSane r.1)) e
        (publish-IsSane built now req a.server s))
  step-IsSane a b s (unpublishes req resp app e moved) = rw moved (
      subst (Whenever (λ (r : Response × Server MemoryStorage W). IsSane r.1)) e
        (unpublish-IsSane req a.server s))
  step-IsSane a b s (closes app e moved) =
      rw moved (subst (Whenever IsSane) e (close-IsSane codec sorter a.server s))

  -- Whatever is started, requested and closed in whatever order, from a server that was never started
  -- and whose storage is empty: the storage is active just when the server is, and then a write finds
  -- its channel open; a server that closes is not active; and no key stands twice.
  pub histories-IsSane :
      (a b : Application MemoryStorage W)
      → a.server.active ≡ false
      → a.server.storage ≡ Memory.fresh
      → Reach codec sorter patcher listen a b
      → IsSane b.server
  histories-IsSane a b idle empty here = record {
    distinct = rw empty tt;
    agrees = rw (empty, idle) refl;
    wired = λ on. absurd (cc (on, idle));
    ends = λ e. idle;
  }
  histories-IsSane a b idle empty (next r step) =
      step-IsSane _ b (histories-IsSane a _ idle empty r) step
