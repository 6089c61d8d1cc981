-- ===== src/Memory/Refine.antt =====
-- The storage of memory.go does what its specification says, whatever is called in which order.
use mathlib.Core.Path.{fun_ext}
use katamari.Base.{
  ◌≡◌, refl, sym, ap, ◌∙◌, ◌≢◌, Bool, true, false, [], ◌∷◌, ◌++◌, Option, none, some, arith,
  if◌then◌else◌, Outcome, returns, panics, blocks, Bool-cases, inl, inr,
}
use katamari.Base.Int.{ℤ}
use katamari.Base.Text.{Bytes, codes}
use katamari.Key.{last_index, contains_peer}
use katamari.Objects.{Object, Codec, decode_raw, new}
use katamari.Memory.Map.{
  Entries, load, store, restrict, Distinct, load-store, load-restrict, store-Distinct,
  restrict-Distinct,
}
use katamari.Memory.{
  MemoryStorage, is_active, send, notify, peek, peek_found, stamps, put, set, pivot, del, clear,
}
use katamari.Memory.Spec.{
  Store, Command, sets, pivots, deletes, clears, announce, assign, is_history, next_object, dated,
  spec_step,
}

abbrev pub is_on : Option Bool → Bool
is_on none = false
is_on (some b) = b

-- The specification's view of a storage.
unfoldable pub view : MemoryStorage → Store
view db = record {
  contents = λ k. load k db.mem;
  silent = contains_peer db.no_broadcast_keys;
  on = is_on db.active;
  events = db.sent;
}

-- A storage that was started; while it is active its channel is open. No key stands twice.
pub record IsStarted (db : MemoryStorage) : Type 0 where
  pub distinct : Distinct db.mem
  pub started : db.active ≢ none
  pub channel : db.active ≡ some true → db.watcher ≡ true

-- what `notify` leaves of a started storage
abbrev pub notified : Bytes → Bytes → MemoryStorage → MemoryStorage
notified path operation db =
    if contains_peer db.no_broadcast_keys path
    then db
    else if is_on db.active
    then record db { sent = db.sent ++ record { key = path; operation = operation } ∷ [] }
    else db

pub notify-notified :
    (path operation : Bytes) (db : MemoryStorage)
    → IsStarted db
    → notify path operation db ≡ returns (notified path operation db)
unfolding notify is_active send
notify-notified path operation db s = ground (arith, s.started, s.channel)

pub notified-IsStarted :
    (path operation : Bytes) (db : MemoryStorage)
    → IsStarted db
    → IsStarted (notified path operation db)
notified-IsStarted path operation db s =
    elim (Bool-cases (contains_peer db.no_broadcast_keys path)) [
      | inl e ↦ rw e s
      | inr e ↦ elim (Bool-cases (is_on db.active)) [
        | inl on ↦
            rw (e, on) (record { distinct = s.distinct; started = s.started; channel = s.channel })
        | inr off ↦ rw (e, off) s
      ]
    ]

view-if :
    (b : Bool) (x y : MemoryStorage) → view (if b then x else y) ≡ (if b then view x else view y)
view-if true x y = refl
view-if false x y = refl

pub view-notified :
    (path operation : Bytes) (db : MemoryStorage)
    → view (notified path operation db) ≡ announce path operation (view db)
unfolding view
view-notified path operation db =
    view-if (contains_peer db.no_broadcast_keys path) db _
    ∙ ap (λ a. if contains_peer db.no_broadcast_keys path then view db else a)
        (view-if (is_on db.active) _ db)

view-store :
    (path v : Bytes) (db : MemoryStorage)
    → view (record db { mem = store path v db.mem }) ≡ assign path v (view db)
unfolding view
view-store path v db = rw (fun_ext (λ k. load-store path k v db.mem))

pub same_contents :
    (db : MemoryStorage) (m : Entries) (f : Bytes → Option Bytes)
    → ((k : Bytes) → load k m ≡ f k)
    → view (record db { mem = m }) ≡ record (view db) { contents = f }
unfolding view
same_contents db m f h = rw (fun_ext h)

dated-stamps :
    (now : ℤ) (path content : Bytes) (r : Object × Option Bytes)
    → dated now path content r ≡ record {
      created = (stamps now r).0;
      updated = (stamps now r).1;
      index = last_index path;
      content = content;
    }
dated-stamps now path content (old, none) = refl
dated-stamps now path content (old, some e) = refl

next_object-peek_found :
    (codec : Codec) (now : ℤ) (path content : Bytes) (o : Option Bytes)
    → next_object codec now path content o ≡ record {
      created = (peek_found codec now o).0;
      updated = (peek_found codec now o).1;
      index = last_index path;
      content = content;
    }
next_object-peek_found codec now path content none = refl
next_object-peek_found codec now path content (some v) =
    dated-stamps now path content (decode_raw codec v)

-- the storage that a call leaves, without its result
abbrev pub state_of {ℓ} : {A : Type ℓ} → Outcome (A × MemoryStorage) → Outcome MemoryStorage
state_of (returns (a, db)) = returns db
state_of panics = panics
state_of blocks = blocks

unfoldable pub exec : Codec → Command → MemoryStorage → Outcome MemoryStorage
exec codec (sets now path content) db = state_of (set codec now path content db)
exec codec (pivots path content created updated) db =
    state_of (pivot codec path content created updated db)
exec codec (deletes path) db = state_of (del path db)
exec codec clears db = returns (clear db)

-- The call returns, and what it leaves is what the specification says.
abbrev pub Implements : Codec → Command → MemoryStorage → Type 0
Implements codec c db =
    (db' : MemoryStorage) × (exec codec c db ≡ returns db')
    × IsStarted db'
    × (view db' ≡ spec_step codec c (view db))

put-IsStarted :
    (codec : Codec) (path content : Bytes) (created updated : ℤ) (db : MemoryStorage)
    → IsStarted db
    → IsStarted (put codec path content created updated db)
unfolding put
put-IsStarted codec path content created updated db s = record {
  distinct = store-Distinct path _ db.mem s.distinct;
  started = s.started;
  channel = s.channel;
}

pub restrict-IsStarted :
    (p : Bytes → Bool) (db : MemoryStorage)
    → IsStarted db
    → IsStarted (record db { mem = restrict p db.mem })
restrict-IsStarted p db s = record {
  distinct = restrict-Distinct p db.mem s.distinct;
  started = s.started;
  channel = s.channel;
}

view-put :
    (codec : Codec) (path content : Bytes) (created updated : ℤ) (db : MemoryStorage)
    → view (put codec path content created updated db)
      ≡ assign path
          (new codec (record {
            created = created;
            updated = updated;
            index = last_index path;
            content = content;
          }))
          (view db)
unfolding put
view-put codec path content created updated db = view-store path _ db

view-peek :
    (codec : Codec) (now : ℤ) (path content : Bytes) (db : MemoryStorage)
    → view (put codec path content (peek codec path now db).0 (peek codec path now db).1 db)
      ≡ assign path (new codec (next_object codec now path content (load path db.mem))) (view db)
unfolding peek
view-peek codec now path content db =
    view-put codec path content (peek codec path now db).0 (peek codec path now db).1 db
    ∙ ap (λ o. assign path (new codec o) (view db))
        (sym (next_object-peek_found codec now path content (load path db.mem)))

pub set-Implements :
    (codec : Codec) (now : ℤ) (path content : Bytes) (db : MemoryStorage)
    → IsStarted db
    → Implements codec (sets now path content) db
unfolding exec set spec_step view
set-Implements codec now path content db s =
    let (created, updated) = peek codec path now db in
    let db1 = put codec path content created updated db in
    let s1 = put-IsStarted codec path content created updated db s in
    (
      notified path (codes "set") db1,
      rw (exec, set, notify-notified path (codes "set") db1 s1),
      notified-IsStarted path (codes "set") db1 s1,
      view-notified path (codes "set") db1
          ∙ ap (announce path (codes "set")) (view-peek codec now path content db),
    )

pub pivot-Implements :
    (codec : Codec) (path content : Bytes) (created updated : ℤ) (db : MemoryStorage)
    → IsStarted db
    → Implements codec (pivots path content created updated) db
unfolding exec pivot spec_step
pivot-Implements codec path content created updated db s =
    let db1 = put codec path content created updated db in
    let s1 = put-IsStarted codec path content created updated db s in
    let viewed = view-put codec path content created updated db in
    elim (Bool-cases (is_history path)) [
      | inl e ↦ (db1, rw (exec, pivot, e), s1, rw e viewed)
      | inr e ↦ (
        notified path (codes "set") db1,
        rw (exec, pivot, e, notify-notified path (codes "set") db1 s1),
        notified-IsStarted path (codes "set") db1 s1,
        rw e (view-notified path (codes "set") db1 ∙ ap (announce path (codes "set")) viewed),
      )
    ]

pub clear-Implements :
    (codec : Codec) (db : MemoryStorage) → IsStarted db → Implements codec clears db
unfolding exec clear spec_step
clear-Implements codec db s = (
  clear db,
  refl,
  restrict-IsStarted (λ _. false) db s,
  same_contents db _ (λ k. none) (λ k. load-restrict (λ _. false) k db.mem),
)
