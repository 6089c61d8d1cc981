-- ===== src/Memory.antt =====
-- memory.go: the storage that keeps everything in memory. The time is an argument, and the events
-- that a call sends on the watch channel are added to `sent`; a send waits until a reader takes
-- the event, so a send on a channel that is not there waits for ever.
pub mod Map
pub mod Sorting
pub mod Spec
pub mod Refine
pub mod Runs
pub mod Order
pub mod Queries
pub mod Answers
pub mod Stamps
pub mod Keeping
pub mod Unrelated
use katamari.Base.{
  ℕ, zero, suc, ◌+◌, ◌≡◌, refl, Bool, true, false, not, ◌&&◌, ◌||◌, List, [], ◌∷◌, ◌++◌, Option,
  none, some, ltb, if◌then◌else◌, length, take, keep, Result, ok, err, Error, Outcome, returns,
  panics, blocks, leb, ◌-◌, ◌==◌, map,
}
use katamari.Base.Int.{ℤ, pos, negsuc, ltℤ}
use katamari.Base.Text.{Bytes, codes, slash, bytes_eq, contains, split, last, has_prefix}
use katamari.Key.{match, last_index, decode, contains_peer}
use katamari.Objects.{Object, Codec, sort_less, decode_raw, encode, new}
use katamari.Objects
use katamari.Storage.{StorageEvent, StorageOpt}
use Map.{Entries, load, store, delete, restrict, keys}
use Sorting.{SortSlice}

-- `MemoryStorage`. `active` is the field of `storage`, `none` before the first `Start`; `watcher`
-- tells whether the channel is there.
pub record MemoryStorage : Type 0 where
  pub mem : Entries
  pub no_broadcast_keys : List Bytes
  pub watcher : Bool
  pub active : Option Bool
  pub sent : List StorageEvent

-- `MemoryStorage{}`
abbrev pub fresh : MemoryStorage
fresh = record { mem = []; no_broadcast_keys = []; watcher = false; active = none; sent = [] }

-- `Active`: a nil pointer is read before the first start
unfoldable pub is_active : MemoryStorage → Outcome Bool
is_active db = elim db.active [ none ↦ panics | some b ↦ returns b ]

-- `Start`
unfoldable pub start : StorageOpt → MemoryStorage → MemoryStorage
start opt db = record db {
  no_broadcast_keys = opt.no_broadcast_keys;
  watcher = true;
  active = some true;
}

-- `Close`: closing a channel that is not there panics
unfoldable pub close : MemoryStorage → Outcome MemoryStorage
close db = elim db.active [
  | none ↦ panics
  | some _ ↦
      if db.watcher then returns (record db { watcher = false; active = some false }) else panics
]

-- `Clear`
unfoldable pub clear : MemoryStorage → MemoryStorage
unfolding restrict
clear db = record db { mem = restrict (λ _. false) db.mem }

abbrev not_found : Error
not_found = codes "katamari: not found"

abbrev pub invalid_pattern : Error
invalid_pattern = codes "katamari: invalid pattern"

abbrev pub invalid_range : Error
invalid_range = codes "katamari: invalid range"

abbrev pub invalid_limit : Error
invalid_limit = codes "katamari: invalid limit"

-- `watcher <- StorageEvent{Key: path, Operation: operation}`
unfoldable pub send : Bytes → Bytes → MemoryStorage → Outcome MemoryStorage
send path operation db =
    if db.watcher
    then returns (record db { sent = db.sent ++ record { key = path; operation = operation } ∷ [] })
    else blocks

-- the last step of `Set`, `Pivot` and `Del`
unfoldable pub notify : Bytes → Bytes → MemoryStorage → Outcome MemoryStorage
notify path operation db =
    if contains_peer db.no_broadcast_keys path then returns db else elim (is_active db) [
      | returns true ↦ send path operation db
      | returns false ↦ returns db
      | panics ↦ panics
      | blocks ↦ blocks
    ]

-- the byte order of Go's strings, and strings.ToLower on ASCII
unfoldable pub bytes_less : Bytes → Bytes → Bool
bytes_less [] [] = false
bytes_less [] (_ ∷ _) = true
bytes_less (_ ∷ _) [] = false
bytes_less (c ∷ s) (d ∷ t) = ltb c d || (c == d && bytes_less s t)

unfoldable pub to_lower : Bytes → Bytes
to_lower [] = []
to_lower (c ∷ s) = (if leb b'A' c && leb c b'Z' then c + 32 else c) ∷ to_lower s

unfoldable pub key_less : Bytes → Bytes → Bool
unfolding bytes_less to_lower
key_less a b = bytes_less (to_lower a) (to_lower b)

-- the time in the last segment of a key, and whether it is in a range
unfoldable pub created_at : Bytes → ℤ
unfolding decode split
created_at current = decode (last (split current slash))

unfoldable pub in_range : ℤ → ℤ → Bytes → Bool
in_range from to current = not (ltℤ (created_at current) from || ltℤ to (created_at current))

-- the objects of the entries whose key passes the test; what does not decode is left out
abbrev pub add_decoded : Object × Option Bytes → List Object → List Object
add_decoded (obj, none) res = obj ∷ res
add_decoded (obj, some e) res = res

unfoldable pub collect : (Bytes → Object × Option Bytes) → (Bytes → Bool) → Entries → List Object
collect read test [] = []
collect read test ((k, v) ∷ m) =
    let rest = collect read test m in if test k then add_decoded (read v) rest else rest

-- `res[:limit]` where the slice is longer
unfoldable pub limited : ℕ → List Object → List Object
limited limit res = if ltb limit (length res) then take limit res else res

-- `KeysRange`
unfoldable pub keys_range : Bytes → ℤ → ℤ → MemoryStorage → Result (List Bytes)
unfolding keys
keys_range path from to db =
    if not (contains path (codes "*"))
    then err invalid_pattern
    else if ltℤ to from
    then err invalid_range
    else ok (keep (λ current. match path current && in_range from to current) (keys db.mem))

module _ (codec : Codec) (sorter : SortSlice) where
  -- `Keys`
  unfoldable pub all_keys : MemoryStorage → Result Bytes
  unfolding keys
  all_keys db = encode codec.marshal_keys (sorter.sort key_less (keys db.mem))

  -- `Get`
  abbrev pub found : Option Bytes → Result Bytes
  found none = err not_found
  found (some v) = ok v

  unfoldable pub get : Bytes → MemoryStorage → Result Bytes
  unfolding collect
  get path db =
      if not (contains path (codes "*"))
      then found (load path db.mem)
      else encode codec.marshal_list
          (sorter.sort sort_less (collect (decode_raw codec) (match path) db.mem))

  -- `GetN`
  abbrev positive_limit : ℤ → List Object → Result (List Object)
  positive_limit (negsuc n) res = err invalid_limit
  positive_limit (pos zero) res = err invalid_limit
  positive_limit (pos (suc n)) res = ok (limited (suc n) res)

  unfoldable pub get_n : Bytes → ℤ → MemoryStorage → Result (List Object)
  get_n path limit db =
      if not (contains path (codes "*"))
      then err invalid_pattern
      else positive_limit limit
          (sorter.sort sort_less (collect (Objects.decode codec) (match path) db.mem))

  -- `GetNRange`, which tests the match of each key twice
  unfoldable pub get_n_range : Bytes → ℤ → ℤ → ℤ → MemoryStorage → Result (List Object)
  get_n_range path limit from to db =
      if not (contains path (codes "*"))
      then err invalid_pattern
      else positive_limit limit (
          sorter.sort sort_less (
            collect (Objects.decode codec) (λ k. match path k && match path k && in_range from to k)
              db.mem))

-- what a call returns once the event is sent
abbrev pub with_result {ℓ} : {A : Type ℓ} → A → Outcome MemoryStorage → Outcome (A × MemoryStorage)
with_result a (returns db) = returns (a, db)
with_result a panics = panics
with_result a blocks = blocks

-- what `Peek` makes of an entry: its time of creation, if it decodes, and the time now
abbrev pub stamps : ℤ → Object × Option Bytes → ℤ × ℤ
stamps now (obj, none) = (obj.created, now)
stamps now (obj, some e) = (now, pos 0)

-- The operations that read or write one entry need no order.
module _ (codec : Codec) where
  -- `Peek`: the timestamps, created and updated, of a value that is to be stored now
  abbrev pub peek_found : ℤ → Option Bytes → ℤ × ℤ
  peek_found now none = (now, pos 0)
  peek_found now (some previous) = stamps now (decode_raw codec previous)

  unfoldable pub peek : Bytes → ℤ → MemoryStorage → ℤ × ℤ
  peek key now db = peek_found now (load key db.mem)

  -- the object that `Set` and `Pivot` store
  unfoldable pub put : Bytes → Bytes → ℤ → ℤ → MemoryStorage → MemoryStorage
  put path content created updated db = record db {
    mem =
        store path
          (new codec (record {
            created = created;
            updated = updated;
            index = last_index path;
            content = content;
          }))
          db.mem;
  }

  -- `Set`, which returns the index of the entry and never an error
  unfoldable pub set : ℤ → Bytes → Bytes → MemoryStorage → Outcome (Bytes × MemoryStorage)
  set now path content db =
      let (created, updated) = peek path now db in
      with_result (last_index path)
        (notify path (codes "set") (put path content created updated db))

  -- `Pivot`
  unfoldable pub pivot : Bytes → Bytes → ℤ → ℤ → MemoryStorage → Outcome (Bytes × MemoryStorage)
  pivot path content created updated db =
      let db' = put path content created updated db in
      if ltb 8 (length path) && bytes_eq (take 7 path) (codes "history")
      then returns (last_index path, db')
      else with_result (last_index path) (notify path (codes "set") db')

-- `Del`
unfoldable pub del : Bytes → MemoryStorage → Outcome (Result (Unit {0}) × MemoryStorage)
del path db =
    if not (contains path (codes "*"))
    then elim (load path db.mem) [
      | none ↦ returns (err not_found, db)
      | some _ ↦
          with_result (ok tt) (notify path (codes "del") (record db { mem = delete path db.mem }))
    ]
    else with_result (ok tt)
        (notify path (codes "del") (record db { mem = restrict (λ k. not (match path k)) db.mem }))
