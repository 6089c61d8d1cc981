-- ===== src/Server/Delivery.antt =====
-- From a stored value to the subscribers: the event that `Set` sends, and the round of `watch` that
-- takes it, with the storage of memory.go.
use katamari.Base.{
  ℕ, suc, ◌≡◌, refl, sym, ap, ◌∙◌, true, false, [], ◌∷◌, ◌++◌, some, In, ok, returns,
}
use katamari.Base.Int.{ℤ}
use katamari.Base.Text.{Bytes, codes, bytes_eq}
use katamari.Key.{build, last_index, peer, contains_peer}
use katamari.Objects.{Codec, new}
use katamari.Memory.Map.{load}
use katamari.Storage.{Database, StorageEvent}
use katamari.Filters.{check_watchers}
use katamari.Messages.{Patcher, encode}
use katamari.Memory.{MemoryStorage}
use katamari.Memory.Sorting.{SortSlice}
use katamari.Memory.Spec.{Store, sets, assign, announce, next_object, spec_step}
use katamari.Memory.Refine.{view, is_on, IsStarted}
use katamari.Stream.Pools.{Pool, pool_at}
use katamari.Stream.{frame_text, patch}
use katamari.Stream.Broadcasts.{broadcast_lem, pool_after_lem}
use katamari.Server.{Request, Server, get_filtered_data, watch}
use katamari.Server.InMemory.{memory_database}
use katamari.Server.Rest.{created_response, publish}
use katamari.Server.Publishing.{Accepts}
use katamari.Server.Serving.{set-stored}

events-announce :
    (key operation : Bytes) (a : Store)
    → a.silent key ≡ false
    → a.on ≡ true
    → (announce key operation a).events
      ≡ a.events ++ record { key = key; operation = operation } ∷ []
events-announce key operation a loud on = rw (loud, on) refl

-- the event of a `Set`
set-sent :
    (codec : Codec) (now : ℤ) (key content : Bytes) (db db' : MemoryStorage)
    → view db' ≡ spec_step codec (sets now key content) (view db)
    → contains_peer db.no_broadcast_keys key ≡ false
    → db.active ≡ some true
    → db'.sent ≡ db.sent ++ record { key = key; operation = codes "set" } ∷ []
unfolding view spec_step
set-sent codec now key content db db' viewed loud on =
    ap (λ a. a.events) viewed
    ∙ events-announce key (codes "set")
        (assign key (new codec (next_object codec now key content (load key db.mem))) (view db))
        loud (ap is_on on)

module _ {D W : Type 0} (codec : Codec) (patcher : Patcher) (database : Database D) where
  -- what a pool and its connections get in a round of `watch`
  abbrev pub Delivers : (ℕ → ℤ) → StorageEvent → Server D W → ℕ → Pool → Bytes → Type 0
  Delivers times ev app j p doc =
      (pool_at (watch database codec patcher times ev app).0.stream.pools (suc j)
        ≡ some (record p { cache = record { version = times (suc j); content = doc } }))
      × ((k : ℕ)
          → In k p.connections
          → In
              (
                k,
                frame_text
                    (encode codec
                      (patch patcher app.stream.no_patch app.stream.force_patch p doc).0)
                    (patch patcher app.stream.no_patch app.stream.force_patch p doc).1
                    (times (suc j)),
              )
              (watch database codec patcher times ev app).1)

  watch-Delivers :
      (times : ℕ → ℤ) (ev : StorageEvent) (app : Server D W) (j : ℕ) (p : Pool) (doc : Bytes)
      → bytes_eq ev.key [] ≡ false
      → pool_at app.stream.pools (suc j) ≡ some p
      → peer p.key ev.key ≡ true
      → get_filtered_data database app p.key ≡ ok doc
      → Delivers times ev app j p doc
  unfolding watch
  watch-Delivers times ev app j p doc named at concerned there =
      let (_, caches, frames) =
        broadcast_lem patcher (get_filtered_data database app) (encode codec) times ev.key
          app.stream in
      rw named (
        caches j
            ∙ rw
                (
                  at,
                  (pool_after_lem patcher (get_filtered_data database app) (encode codec)
                        app.stream.no_patch app.stream.force_patch ev.key (times (suc j)) p).0
                      doc concerned there,
                )
                refl,
        λ k i. (frames k _).1 (j, p, at, (doc, concerned, there, i, refl)),
      )

module _ {W : Type 0} (codec : Codec) (patcher : Patcher) (sorter : SortSlice) where
  -- An accepted request to publish, under a key that the storage sends events of, answers 200 and
  -- adds one event to the channel. The worker that takes the event brings every pool but the
  -- clock's whose key matches up to date: its cache holds the filtered data as they are after the
  -- write, at the time of the round, and each of its connections is sent what `Patch` makes of them.
  -- The storage was started and is active.
  pub publish-Delivers :
      (built now : ℤ) (times : ℕ → ℤ) (req : Request) (app : Server MemoryStorage W)
      (key content : Bytes)
      → IsStarted app.storage
      → app.storage.active ≡ some true
      → Accepts codec patcher built req app content
      → key ≡ build built req.key
      → bytes_eq key [] ≡ false
      → contains_peer app.storage.no_broadcast_keys key ≡ false
      → (app' : Server MemoryStorage W) × (publish
            (memory_database codec sorter)
            codec
            patcher
            built
            now
            req
            app
          ≡ returns (created_response (last_index key), app'))
        × (app'.storage.sent
            ≡ app.storage.sent ++ record { key = key; operation = codes "set" } ∷ [])
        × ((j : ℕ) (p : Pool) (doc : Bytes)
            → pool_at app.stream.pools (suc j) ≡ some p
            → peer p.key key ≡ true
            → get_filtered_data (memory_database codec sorter) app' p.key ≡ ok doc
            → Delivers codec patcher
                (memory_database codec sorter)
                times
                (record { key = key; operation = codes "set" })
                app'
                j
                p
                doc)
  unfolding publish
  publish-Delivers built now times req app key content s on a same named loud =
      let (db', wrote, _, viewed) = set-stored codec now key content app.storage s in
      let app' = record app {
        storage = db';
        world = check_watchers app.filters.after_write key app.world;
      } in
      (
        app',
        rw (publish, a.publishable, a.approved, a.decoded, a.filtered, sym same, wrote) refl,
        set-sent codec now key content app.storage db' viewed loud on,
        λ j p doc at concerned there.
            watch-Delivers codec patcher (memory_database codec sorter) times
              (record { key = key; operation = codes "set" }) app' j p doc named at concerned there,
      )
