-- ===== src/Memory/Runs.antt =====
-- Any calls of the storage of memory.go, one after another, against its specification.
use katamari.Base.{
  ◌≡◌, refl, ap, ◌∙◌, true, false, not, List, [], ◌∷◌, Option, none, some, arith, if◌then◌else◌,
  Outcome, returns, panics, blocks, Bool-cases, inl, inr, Option-cases,
}
use katamari.Base.Text.{Bytes, codes, bytes_eq, bytes_eq_iff, contains}
use katamari.Key.{match}
use katamari.Objects.{Codec}
use katamari.Storage.{StorageOpt}
use katamari.Memory.Map.{load, delete, restrict, load-restrict, load-delete, other_than}
use katamari.Memory.{MemoryStorage, del, start, fresh}
use katamari.Memory.Spec.{
  Command, sets, pivots, deletes, clears, announce, is_there, spec_step, spec_run,
}
use katamari.Memory.Refine.{
  view, IsStarted, notified, notify-notified, notified-IsStarted, view-notified, same_contents,
  restrict-IsStarted, exec, Implements, set-Implements, pivot-Implements, clear-Implements,
}

match-NoStar : (path k : Bytes) → contains path (codes "*") ≡ false → match path k ≡ bytes_eq path k
unfolding match
match-NoStar path k h = ground arith

forgets-one :
    (path k : Bytes) (db : MemoryStorage)
    → contains path (codes "*") ≡ false
    → load k (delete path db.mem) ≡ (if match path k then none else load k db.mem)
forgets-one path k db h =
    rw (match-NoStar path k h)
      (ground (arith, load-delete path k db.mem, bytes_eq_iff path k, bytes_eq_iff k path))

forgets-matches :
    (path k : Bytes) (db : MemoryStorage)
    → load k (restrict (λ j. not (match path j)) db.mem)
      ≡ (if match path k then none else load k db.mem)
forgets-matches path k db = ground (arith, load-restrict (λ j. not (match path j)) k db.mem)

is_there-glob :
    (path : Bytes) (o : Option Bytes) → contains path (codes "*") ≡ true → is_there path o ≡ true
is_there-glob path none h = h
is_there-glob path (some v) h = refl

del-Implements :
    (codec : Codec) (path : Bytes) (db : MemoryStorage)
    → IsStarted db
    → Implements codec (deletes path) db
unfolding exec del spec_step view delete
del-Implements codec path db s = elim (Bool-cases (contains path (codes "*"))) [
  | inl glob ↦
      let db1 = record db { mem = restrict (λ j. not (match path j)) db.mem } in
      let s1 = restrict-IsStarted (λ j. not (match path j)) db s in
      (
        notified path (codes "del") db1,
        rw (exec, del, glob, notify-notified path (codes "del") db1 s1),
        notified-IsStarted path (codes "del") db1 s1,
        rw (is_there-glob path (load path db.mem) glob) (
            view-notified path (codes "del") db1
            ∙ ap (announce path (codes "del"))
                (same_contents db _ _ (λ k. forgets-matches path k db))),
      )
  | inr one ↦ elim (Option-cases (load path db.mem)) [
    | inl missing ↦ (db, rw (exec, del, one, missing), s, rw (missing, one))
    | inr (v, there) ↦
        let db1 = record db { mem = delete path db.mem } in
        let s1 = restrict-IsStarted (other_than path) db s in
        (
          notified path (codes "del") db1,
          rw (exec, del, one, there, notify-notified path (codes "del") db1 s1),
          notified-IsStarted path (codes "del") db1 s1,
          rw there (
              view-notified path (codes "del") db1
              ∙ ap (announce path (codes "del"))
                  (same_contents db _ _ (λ k. forgets-one path k db one))),
        )
  ]
]

-- Each call of `Set`, `Pivot`, `Del` and `Clear` on a started storage returns, keeps it started,
-- and changes its contents and its events as the specification says: a key is assigned, the keys
-- that a path matches are forgotten, or all of them are.
pub exec-Implements :
    (codec : Codec) (c : Command) (db : MemoryStorage) → IsStarted db → Implements codec c db
exec-Implements codec (sets now path content) db s = set-Implements codec now path content db s
exec-Implements codec (pivots path content created updated) db s =
    pivot-Implements codec path content created updated db s
exec-Implements codec (deletes path) db s = del-Implements codec path db s
exec-Implements codec clears db s = clear-Implements codec db s

unfoldable pub run : Codec → List Command → MemoryStorage → Outcome MemoryStorage
run codec [] db = returns db
run codec (c ∷ cs) db = elim (exec codec c db) [
  | returns db' ↦ run codec cs db'
  | panics ↦ panics
  | blocks ↦ blocks
]

-- Every sequence of `Set`, `Pivot`, `Del` and `Clear` on a started storage returns, and leaves the
-- contents and the events that the specification gives for the sequence.
pub run-spec_run :
    (codec : Codec) (cs : List Command) (db : MemoryStorage)
    → IsStarted db
    → (db' : MemoryStorage) × (run codec cs db ≡ returns db')
      × IsStarted db'
      × (view db' ≡ spec_run codec cs (view db))
unfolding run spec_run
run-spec_run codec [] db s = (db, refl, s, refl)
run-spec_run codec (c ∷ cs) db s =
    let (db1, ran, s1, viewed) = exec-Implements codec c db s in
    let (db2, ran2, s2, viewed2) = run-spec_run codec cs db1 s1 in
    (db2, rw (run, ran) ran2, s2, viewed2 ∙ ap (spec_run codec cs) viewed)

-- A storage that is started for the first time is ready for such calls.
pub start-IsStarted : (opt : StorageOpt) → IsStarted (start opt fresh)
unfolding start
start-IsStarted opt = record { distinct = tt; started = λ e. cc; channel = λ e. refl }
