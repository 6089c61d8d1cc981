-- ===== src/Server/Consistency.antt =====
-- What the streams cache and what the storage holds, while a server runs with the storage of
-- memory.go.
use katamari.Base.{
  ok_inj, ℕ, ◌≡◌, refl, sym, ap, ◌∙◌, ◌⊎◌, inl, inr, true, false, List, [], ◌∷◌, ◌++◌, some, length,
  drop, In-append_right, ok, returns, Bool-cases, Option-cases,
}
use katamari.Base.Int.{ℤ}
use katamari.Base.Text.{Bytes, codes, contains, bytes_eq}
use katamari.Key.{build, peer}
use katamari.Key.Build.{build-named}
use katamari.Objects.{Codec}
use katamari.Storage.{StorageEvent}
use katamari.Filters.{check_watchers}
use katamari.Messages.{Patcher, encode}
use katamari.Memory.Map.{load, store, delete}
use katamari.Memory.Sorting.{SortSlice}
use katamari.Memory.{MemoryStorage, get}
use katamari.Memory.Unrelated.{get-store, get-delete, announced, set-announced, del-announced}
use katamari.Stream.Pools.{Stream}
use katamari.Stream.{or_empty}
use katamari.Stream
use katamari.Stream.Coherent.{
  IsCoherent, refresh-IsCoherent, weaken-IsCoherent, broadcast-IsCoherent,
}
use katamari.Server.{Request, Server, Response, get_filtered_data, watch}
use katamari.Server.InMemory.{memory_database}
use katamari.Server.Rest.{publish, unpublish}
use katamari.Server.Publishing.{publish_branches, unpublish_cases}
use katamari.Server.Reading.{Streams}
use katamari.Server.Queue.{Site, after_request}
use katamari.Server.Waiting.{
  Pending, publishable-named, Pending-append, drop-append, returned, clash, served, valid-named,
  del-missing, Pending-worked, Pending-skipped,
}

-- The storage is active, its channel is open, and it sends the events of every key.
pub record IsLoud (db : MemoryStorage) : Type 0 where
  pub loud : db.no_broadcast_keys ≡ []
  pub on : db.active ≡ some true
  pub wired : db.watcher ≡ true

module _ {W : Type 0} (codec : Codec) (sorter : SortSlice) where
  -- The content is what the read filters make of the data of the key, or it will be.
  abbrev pub Fresh : Server MemoryStorage W → List StorageEvent → Bytes → Bytes → Type 0
  Fresh app waiting key content =
      (doc : Bytes)
      → get_filtered_data (memory_database codec sorter) app key ≡ ok doc
      → (content ≡ or_empty doc) ⊎ Pending waiting key

  pub record IsConsistent (a : Site W) : Type 0 where
    pub storage : IsLoud a.server.storage
    pub coherent : IsCoherent (Fresh a.server a.waiting) a.server.stream

module _ {W : Type 0} (codec : Codec) (sorter : SortSlice) where
  pub waits-IsConsistent :
      (a : Site W) (more : List StorageEvent)
      → IsConsistent codec sorter a
      → IsConsistent codec sorter (record a { waiting = a.waiting ++ more })
  waits-IsConsistent a more c = record {
    storage = c.storage;
    coherent =
        weaken-IsCoherent _ _ a.server.stream
          (λ key content fresh doc e. elim (fresh doc e) [
            | inl same ↦ inl same
            | inr pending ↦ inr (Pending-append a.waiting more key pending)
          ])
          c.coherent;
  }

  -- A write of the storage whose event waits.
  announced-IsConsistent :
      (a : Site W) (key operation : Bytes) (db : MemoryStorage) (world : W)
      → db.sent ≡ a.server.storage.sent
      → IsLoud db
      → ((path : Bytes)
          → peer path key ≡ false
          → get codec sorter path (announced key operation db)
            ≡ get codec sorter path a.server.storage)
      → bytes_eq key [] ≡ false
      → IsConsistent codec sorter a
      → IsConsistent codec sorter (
          after_request a (record a.server { storage = announced key operation db; world = world }))
  unfolding get_filtered_data
  announced-IsConsistent a key operation db world from l apart named c =
      let ev : StorageEvent = record { key = key; operation = operation } in
      let more : drop (length a.server.storage.sent) (db.sent ++ ev ∷ []) ≡ ev ∷ [] =
        rw from (drop-append a.server.storage.sent (ev ∷ [])) in
      record {
        storage = record { loud = l.loud; on = l.on; wired = l.wired };
        coherent = rw more (
            weaken-IsCoherent _ _ a.server.stream
              (λ path content fresh doc e. elim (Bool-cases (peer path key)) [
                | inl concerned ↦
                    inr (ev, In-append_right ev a.waiting (ev ∷ []) (inl refl), concerned, named)
                | inr other ↦ elim (fresh doc (rw (← apart path other) e)) [
                  | inl same ↦ inl same
                  | inr pending ↦ inr (Pending-append a.waiting (ev ∷ []) path pending)
                ]
              ])
              c.coherent);
      }

  -- What `Refresh` caches is fresh.
  pub refresh-Fresh :
      (app : Server MemoryStorage W) (waiting : List StorageEvent) (now : ℤ) (key : Bytes)
      (sm : Stream)
      → IsCoherent (Fresh codec sorter app waiting) sm
      → IsCoherent
          (Fresh codec sorter app waiting)
          (Stream.refresh now key (get_filtered_data (memory_database codec sorter) app) sm).1
  unfolding get_filtered_data
  refresh-Fresh app waiting now key sm =
      refresh-IsCoherent (Fresh codec sorter app waiting) now key _ sm
        (λ raw there doc e. inl (ap or_empty (ok_inj (sym there ∙ e))))

  -- a server that differs in its streams at most
  pub Streams-IsConsistent :
      (a : Site W) (app : Server MemoryStorage W)
      → IsLoud a.server.storage
      → Streams (IsCoherent (Fresh codec sorter a.server a.waiting)) a.server app
      → IsConsistent codec sorter (record a { server = app })
  unfolding get_filtered_data
  Streams-IsConsistent a app l (sm, same, coherent) =
      rw same (record { storage = l; coherent = coherent })

  module _ (patcher : Patcher) where
    pub publishes-IsConsistent :
        (built now : ℤ) (req : Request) (resp : Response) (a : Site W)
        (app : Server MemoryStorage W)
        → publish (memory_database codec sorter) codec patcher built now req a.server
          ≡ returns (resp, app)
        → IsConsistent codec sorter a
        → IsConsistent codec sorter (after_request a app)
    publishes-IsConsistent built now req resp a app e c =
        elim (publish_branches (memory_database codec sorter) codec patcher built now req
          a.server) [
            | inl (_, refused, _, _) ↦ rw (returned e refused) (waits-IsConsistent a _ c)
            | inr (content, accepts, stored) ↦
                let key = build built req.key in
                let (v, wrote) =
                  set-announced codec now key content a.server.storage c.storage.loud c.storage.on
                    c.storage.wired in
                let db : MemoryStorage = record a.server.storage {
                  mem = store key v a.server.storage.mem;
                } in
                let done = rw wrote at stored in
                rw (returned e done) (
                  announced-IsConsistent a key (codes "set") db
                    (check_watchers a.server.filters.after_write key a.server.world) refl
                    (record { loud = c.storage.loud; on = c.storage.on; wired = c.storage.wired })
                    (λ path apart.
                      get-store codec sorter path key v a.server.storage
                        (announced key (codes "set") db) refl apart)
                    (build-named built req.key (publishable-named req.key accepts.publishable)) c)
          ]

    pub unpublishes-IsConsistent :
        (req : Request) (resp : Response) (a : Site W) (app : Server MemoryStorage W)
        → contains req.key (codes "*") ≡ false
        → unpublish (memory_database codec sorter) req a.server ≡ returns (resp, app)
        → IsConsistent codec sorter a
        → IsConsistent codec sorter (after_request a app)
    unpublishes-IsConsistent req resp a app one e c =
        elim (unpublish_cases (memory_database codec sorter) req a.server) [
          | inl (_, refused, _) ↦ rw (returned e refused) (waits-IsConsistent a _ c)
          | inr (valid, _, _, removed) ↦ elim (Option-cases (load req.key a.server.storage.mem)) [
            | inl missing ↦
                let (_, failed) = del-missing req.key a.server.storage one missing in
                let done = rw failed at removed in rw (returned e done) (waits-IsConsistent a _ c)
            | inr (v, there) ↦
                let db : MemoryStorage = record a.server.storage {
                  mem = delete req.key a.server.storage.mem;
                } in
                let done =
                  rw
                    (del-announced req.key a.server.storage c.storage.loud c.storage.on
                      c.storage.wired one v there)
                    at removed in
                rw (returned e done) (
                  announced-IsConsistent a req.key (codes "del") db a.server.world refl
                    (record { loud = c.storage.loud; on = c.storage.on; wired = c.storage.wired })
                    (λ path apart.
                      get-delete codec sorter path req.key a.server.storage
                        (announced req.key (codes "del") db) refl apart)
                    (valid-named req.key valid) c)
          ]
        ]

    pub works-IsConsistent :
        (times : ℕ → ℤ) (before after : List StorageEvent) (ev : StorageEvent) (a : Site W)
        → a.waiting ≡ before ++ ev ∷ after
        → IsConsistent codec sorter a
        → IsConsistent codec sorter (record {
          server = (watch (memory_database codec sorter) codec patcher times ev a.server).0;
          waiting = before ++ after;
        })
    unfolding watch get_filtered_data
    works-IsConsistent times before after ev a waits c = elim (Bool-cases (bytes_eq ev.key [])) [
      | inl skipped ↦ rw skipped (record {
        storage = c.storage;
        coherent =
            weaken-IsCoherent _ _ a.server.stream
              (λ key content fresh doc e. elim (fresh doc e) [
                | inl same ↦ inl same
                | inr pending ↦
                    inr (Pending-skipped before after ev key skipped (rw waits at pending))
              ])
              c.coherent;
      })
      | inr named ↦ rw named (record {
        storage = c.storage;
        coherent =
            broadcast-IsCoherent _ _ patcher _ (encode codec) times ev.key a.server.stream
              (λ key content apart fresh doc e. elim (fresh doc e) [
                | inl same ↦ inl same
                | inr pending ↦ inr (Pending-worked before after ev key apart (rw waits at pending))
              ])
              (λ key content error failed fresh doc e. absurd (clash error doc (sym failed ∙ e)))
              (λ key content full there doc e.
                inl (served content doc full (ok_inj (sym there ∙ e))))
              c.coherent;
      })
    ]
