-- ===== src/Memory/Unrelated.antt =====
-- A write of one key of memory.go does not change what is read at a path that does not match it.
use katamari.Base.{
  ◌≡◌, refl, ap, ◌∙◌, Bool, true, false, [], ◌∷◌, ◌++◌, Option, some, arith, ok, returns,
  Bool-cases, inl, inr,
}
use katamari.Base.Int.{ℤ}
use katamari.Base.Text.{Bytes, codes, contains, bytes_eq, bytes_eq_iff, bytes_eq_refl}
use katamari.Key.{match, peer, contains_peer, last_index}
use katamari.Objects.{Object, Codec, new}
use katamari.Memory.Map.{Entries, load, store, delete, restrict, load-store, load-delete}
use katamari.Memory.Sorting.{SortSlice}
use katamari.Memory.{MemoryStorage, peek, get, set, del, collect, notify, put, send, is_active}

match_self : (path : Bytes) → match path path ≡ true
unfolding match
match_self path = rw (match, bytes_eq_refl path) refl

match-false : (path key : Bytes) → peer path key ≡ false → match path key ≡ false
unfolding peer
match-false path key h = ground (arith, h)

differs : (path key : Bytes) → peer path key ≡ false → bytes_eq key path ≡ false
differs path key h = elim (Bool-cases (bytes_eq key path)) [
  | inl same ↦
      let e : key ≡ path = (bytes_eq_iff key path).0 same in
      let self : match path key ≡ true = rw e (match_self path) in cc (self, match-false path key h)
  | inr other ↦ other
]

differs' : (path key : Bytes) → peer path key ≡ false → bytes_eq path key ≡ false
differs' path key h =
    ground (arith, differs path key h, bytes_eq_iff path key, bytes_eq_iff key path)

module _ (read : Bytes → Object × Option Bytes) (test : Bytes → Bool) (k : Bytes) where
  collect-store :
      (v : Bytes) (m : Entries)
      → test k ≡ false
      → collect read test (store k v m) ≡ collect read test m
  unfolding collect store
  collect-store v [] h = rw h refl
  collect-store v ((j, w) ∷ m) h = elim (Bool-cases (bytes_eq j k)) [
    | inl same ↦ let e : j ≡ k = (bytes_eq_iff j k).0 same in rw (same, e, h) refl
    | inr other ↦ rw (other, collect-store v m h) refl
  ]

  collect-delete :
      (m : Entries) → test k ≡ false → collect read test (delete k m) ≡ collect read test m
  unfolding collect delete restrict
  collect-delete [] h = refl
  collect-delete ((j, w) ∷ m) h = elim (Bool-cases (bytes_eq j k)) [
    | inl same ↦
        let e : j ≡ k = (bytes_eq_iff j k).0 same in rw (same, e, h, collect-delete m h) refl
    | inr other ↦ rw (other, collect-delete m h) refl
  ]

-- Two storages whose entries read the same at the path.
pub get-same :
    (codec : Codec) (sorter : SortSlice) (path : Bytes) (db db' : MemoryStorage)
    → load path db'.mem ≡ load path db.mem
    → ((read : Bytes → Object × Option Bytes)
        → collect read (match path) db'.mem ≡ collect read (match path) db.mem)
    → get codec sorter path db' ≡ get codec sorter path db
unfolding get
get-same codec sorter path db db' loaded gathered = rw (loaded, gathered) refl

module _ (codec : Codec) (sorter : SortSlice) where
  pub get-store :
      (path key v : Bytes) (db db' : MemoryStorage)
      → db'.mem ≡ store key v db.mem
      → peer path key ≡ false
      → get codec sorter path db' ≡ get codec sorter path db
  get-store path key v db db' stored apart =
      get-same codec sorter path db db'
        (ap (load path) stored ∙ load-store key path v db.mem ∙ rw (differs path key apart) refl)
        (λ read.
          ap (collect read (match path)) stored
          ∙ collect-store read (match path) key v db.mem (match-false path key apart))

  pub get-delete :
      (path key : Bytes) (db db' : MemoryStorage)
      → db'.mem ≡ delete key db.mem
      → peer path key ≡ false
      → get codec sorter path db' ≡ get codec sorter path db
  get-delete path key db db' deleted apart =
      get-same codec sorter path db db'
        (ap (load path) deleted ∙ load-delete key path db.mem ∙ rw (differs' path key apart) refl)
        (λ read.
          ap (collect read (match path)) deleted
          ∙ collect-delete read (match path) key db.mem (match-false path key apart))

-- what a storage that is active and sends events of every key leaves
abbrev pub announced : Bytes → Bytes → MemoryStorage → MemoryStorage
announced key operation db = record db {
  sent = db.sent ++ record { key = key; operation = operation } ∷ [];
}

pub notify-announced :
    (key operation : Bytes) (db : MemoryStorage)
    → db.no_broadcast_keys ≡ []
    → db.active ≡ some true
    → db.watcher ≡ true
    → notify key operation db ≡ returns (announced key operation db)
unfolding notify is_active send contains_peer
notify-announced key operation db loud on wired = simp (notify, loud, is_active, on, send, wired)

pub set-announced :
    (codec : Codec) (now : ℤ) (key content : Bytes) (db : MemoryStorage)
    → db.no_broadcast_keys ≡ []
    → db.active ≡ some true
    → db.watcher ≡ true
    → (v : Bytes) × (set codec now key content db
        ≡ returns
            (last_index key, announced key (codes "set") (record db { mem = store key v db.mem })))
unfolding set put
set-announced codec now key content db loud on wired =
    let (created, updated) = peek codec key now db in
    (
      new codec (record {
        created = created;
        updated = updated;
        index = last_index key;
        content = content;
      }),
      simp (
        set,
        notify-announced key (codes "set") (put codec key content created updated db) loud on wired,
      ),
    )

pub del-announced :
    (key : Bytes) (db : MemoryStorage)
    → db.no_broadcast_keys ≡ []
    → db.active ≡ some true
    → db.watcher ≡ true
    → contains key (codes "*") ≡ false
    → (v : Bytes) → load key db.mem ≡ some v
    → del key db
      ≡ returns (ok tt, announced key (codes "del") (record db { mem = delete key db.mem }))
unfolding del
del-announced key db loud on wired one v there = simp (
  del,
  one,
  there,
  notify-announced key (codes "del") (record db { mem = delete key db.mem }) loud on wired,
)
