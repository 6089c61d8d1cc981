-- ===== src/Server/Globs.antt =====
-- Removals by a glob, while a server runs with the storage of memory.go.
use katamari.Base.{
  ◌≡◌, refl, ◌∙◌, inl, inr, Bool, true, false, not, List, [], ◌∷◌, Option, arith, All, In,
  In-append_right, ok, returns, Bool-cases,
}
use katamari.Base.Text.{Bytes, codes, contains}
use katamari.Key.{match, peer}
use katamari.Objects.{Object, Codec}
use katamari.Storage.{StorageEvent}
use katamari.Memory.Map.{Entries, restrict, keys, load-restrict}
use katamari.Memory.Sorting.{SortSlice}
use katamari.Memory.{MemoryStorage, get, del, collect}
use katamari.Memory.Unrelated.{announced, notify-announced, get-same}
use katamari.Stream.Pools.{Pool}
use katamari.Stream.Coherent.{AllBehind}
use katamari.Server.{Request, Response, Server, get_filtered_data}
use katamari.Server.InMemory.{memory_database}
use katamari.Server.Rest.{unpublish}
use katamari.Server.Publishing.{unpublish_cases}
use katamari.Server.Queue.{Site, Told, after_request}
use katamari.Server.Waiting.{Pending-append, drop-append, returned, valid-named}
use katamari.Server.Consistency.{IsLoud, IsConsistent, waits-IsConsistent}

module _ {P Q R : Pool → Type 0} (f : (p : Pool) → P p → Q p → R p) where
  All-both : (ps : List Pool) → All P ps → All Q ps → All R ps
  All-both [] h k = tt
  All-both (p ∷ ps) h k = (f p h.0 k.0, All-both ps h.1 k.1)

  AllBehind-both : (ps : List Pool) → AllBehind P ps → AllBehind Q ps → AllBehind R ps
  AllBehind-both [] h k = tt
  AllBehind-both (o ∷ ps) h k = All-both ps h k

collect-restrict :
    (read : Bytes → Object × Option Bytes) (test gone : Bytes → Bool) (m : Entries)
    → ((k : Bytes) → In k (keys m) → gone k ≡ true → test k ≡ false)
    → collect read test (restrict (λ k. not (gone k)) m) ≡ collect read test m
unfolding collect restrict keys
collect-restrict read test gone [] apart = refl
collect-restrict read test gone ((j, w) ∷ m) apart =
    let rest = collect-restrict read test gone m (λ k i. apart k (inr i)) in
    elim (Bool-cases (gone j)) [
      | inl drops ↦ let other = apart j (inl refl) drops in rw (drops, other, rest) refl
      | inr stays ↦ rw (stays, rest) refl
    ]

peer-flip : (path key : Bytes) → peer path key ≡ false → match key path ≡ false
unfolding peer
peer-flip path key h = ground (arith, h)

abbrev without : Bytes → MemoryStorage → MemoryStorage
without key db = record db { mem = restrict (λ k. not (match key k)) db.mem }

del-glob :
    (key : Bytes) (db : MemoryStorage)
    → IsLoud db
    → contains key (codes "*") ≡ true
    → del key db ≡ returns (ok tt, announced key (codes "del") (without key db))
unfolding del
del-glob key db l glob =
    simp (del, glob, notify-announced key (codes "del") (without key db) l.loud l.on l.wired)

module _ (codec : Codec) (sorter : SortSlice) where
  get-without :
      (path key : Bytes) (db : MemoryStorage)
      → peer path key ≡ false
      → ((k : Bytes) → In k (keys db.mem) → match key k ≡ true → match path k ≡ false)
      → get codec sorter path (announced key (codes "del") (without key db))
        ≡ get codec sorter path db
  get-without path key db apart spared =
      get-same codec sorter path db (announced key (codes "del") (without key db))
        (load-restrict (λ k. not (match key k)) path db.mem ∙ rw (peer-flip path key apart) refl)
        (λ read. collect-restrict read (match path) (match key) db.mem spared)

module _ {W : Type 0} (codec : Codec) (sorter : SortSlice) where
  -- A removal by a glob of which every pool is told that it concerns.
  pub globs-IsConsistent :
      (req : Request) (resp : Response) (a : Site W) (app : Server MemoryStorage W)
      → contains req.key (codes "*") ≡ true
      → AllBehind (Told req.key a.server.storage.mem) a.server.stream.pools
      → unpublish (memory_database codec sorter) req a.server ≡ returns (resp, app)
      → IsConsistent codec sorter a
      → IsConsistent codec sorter (after_request a app)
  unfolding get_filtered_data
  globs-IsConsistent req resp a app glob told e c =
      elim (unpublish_cases (memory_database codec sorter) req a.server) [
        | inl (_, refused, _) ↦ rw (returned e refused) (waits-IsConsistent codec sorter a _ c)
        | inr (valid, _, _, removed) ↦
            let key = req.key in
            let old = a.server.storage in
            let ev : StorageEvent = record { key = key; operation = codes "del" } in
            let done = rw (del-glob key old c.storage glob) at removed in
            rw (returned e done, drop-append old.sent (ev ∷ []))
              (record {
                storage = record {
                  loud = c.storage.loud;
                  on = c.storage.on;
                  wired = c.storage.wired;
                };
                coherent =
                    AllBehind-both
                      (λ p cached t full doc served. elim (Bool-cases (peer p.key key)) [
                        | inl concerned ↦ inr (
                          ev,
                          In-append_right ev a.waiting (ev ∷ []) (inl refl),
                          concerned,
                          valid-named key valid,
                        )
                        | inr other ↦ elim t [
                          | inl concerned ↦ let wrong = other in cc
                          | inr spared ↦
                              elim (cached full doc (
                                rw (← get-without codec sorter p.key key old other spared)
                                  served)) [
                                    | inl same ↦ inl same
                                    | inr pending ↦
                                        inr (Pending-append a.waiting (ev ∷ []) p.key pending)
                                  ]
                        ]
                      ])
                      a.server.stream.pools c.coherent told;
              })
      ]
