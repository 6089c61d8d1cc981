-- ===== src/Server/Waiting.antt =====
-- Events of the storage that wait for a worker, as a worker takes one and a request adds some; and the
-- small facts about requests and data that the consistency of the caches rests on.
use katamari.Base.{
  ◌≡◌, ◌≢◌, refl, sym, subst, ◌∙◌, inl, inr, true, false, List, [], ◌∷◌, ◌++◌, none, length, drop,
  In, In-append_left, In-append_right, In-append_cases, ok, err, Outcome, returns, false≢true,
}
use katamari.Base.Text.{Bytes, codes, contains, bytes_eq}
use katamari.Key.{build, peer, is_valid}
use katamari.Storage.{StorageEvent}
use katamari.Memory.Map.{load}
use katamari.Memory.{MemoryStorage, del}
use katamari.Stream.{or_empty}
use katamari.Server.{is_publishable}

-- An event that waits will bring the pools of the key up to date.
abbrev pub Pending : List StorageEvent → Bytes → Type 0
Pending waiting key =
    (ev : StorageEvent) × In ev waiting × (peer key ev.key ≡ true) × (bytes_eq ev.key [] ≡ false)

pub publishable-named : (key : Bytes) → is_publishable key ≡ true → key ≢ []
unfolding is_publishable katamari.Key.is_valid
publishable-named key h e = false≢true (rw e at h)

pub Pending-append :
    (waiting more : List StorageEvent) (key : Bytes)
    → Pending waiting key
    → Pending (waiting ++ more) key
Pending-append waiting more key (ev, i, matches, named) =
    (ev, In-append_left ev waiting more i, matches, named)

pub drop-append : (xs ys : List StorageEvent) → drop (length xs) (xs ++ ys) ≡ ys
drop-append [] ys = refl
drop-append (x ∷ xs) ys = drop-append xs ys

pub returned :
    {A B : Type 0} {o : Outcome (A × B)} {a a' : A} {b b' : B}
    → o ≡ returns (a, b)
    → o ≡ returns (a', b')
    → b ≡ b'
returned h h' = cc

pub clash : {A : Type 0} (e : Bytes) (a : A) → err e ≡ ok a → ⊥
clash e a h = cc

pub served : (content doc : Bytes) → content ≢ [] → content ≡ doc → content ≡ or_empty doc
served [] doc full same = absurd (full refl)
served (c ∷ content) doc full same = subst (λ d. c ∷ content ≡ or_empty d) same refl

pub valid-named : (key : Bytes) → is_valid key ≡ true → bytes_eq key [] ≡ false
unfolding is_valid bytes_eq
valid-named [] h = absurd (false≢true h)
valid-named (c ∷ key) h = refl

pub del-missing :
    (key : Bytes) (db : MemoryStorage)
    → contains key (codes "*") ≡ false
    → load key db.mem ≡ none
    → (e : Bytes) × (del key db ≡ returns (err e, db))
unfolding del
del-missing key db one missing = (codes "katamari: not found", rw (del, one, missing) refl)

pub Pending-worked :
    (before after : List StorageEvent) (ev : StorageEvent) (key : Bytes)
    → peer key ev.key ≡ false
    → Pending (before ++ ev ∷ after) key
    → Pending (before ++ after) key
Pending-worked before after ev key apart (e, i, matches, named) =
    elim (In-append_cases e before (ev ∷ after) i) [
      | inl early ↦ (e, In-append_left e before after early, matches, named)
      | inr (inl same) ↦ absurd (false≢true (sym apart ∙ rw (← same) matches))
      | inr (inr late) ↦ (e, In-append_right e before after late, matches, named)
    ]

pub Pending-skipped :
    (before after : List StorageEvent) (ev : StorageEvent) (key : Bytes)
    → bytes_eq ev.key [] ≡ true
    → Pending (before ++ ev ∷ after) key
    → Pending (before ++ after) key
Pending-skipped before after ev key skipped (e, i, matches, named) =
    elim (In-append_cases e before (ev ∷ after) i) [
      | inl early ↦ (e, In-append_left e before after early, matches, named)
      | inr (inl same) ↦ absurd (false≢true (sym named ∙ rw same skipped))
      | inr (inr late) ↦ (e, In-append_right e before after late, matches, named)
    ]
