-- ===== src/Memory/Keeping.antt =====
-- What the calls of memory.go that write leave alone, also of a storage that was never started.
use katamari.Base.{
  ◌≡◌, refl, Bool, true, false, not, Option, some, if◌then◌else◌, Result, ok, Outcome, returns,
  panics, blocks, Bool-cases, Option-cases, inl, inr,
}
use katamari.Base.Int.{ℤ}
use katamari.Base.Text.{Bytes, codes, contains}
use katamari.Key.{match, contains_peer}
use katamari.Objects.{Codec}
use katamari.Memory.Map.{
  Entries, Distinct, load, delete, restrict, other_than, store-Distinct, restrict-Distinct,
}
use katamari.Memory.{MemoryStorage, is_active, close, send, notify, put, set, del, with_result}

-- No key stands twice, and the flag and the channel are the ones given.
pub record Kept (flag : Option Bool) (channel : Bool) (db : MemoryStorage) : Type 0 where
  pub distinct : Distinct db.mem
  pub active : db.active ≡ flag
  pub watcher : db.watcher ≡ channel

-- of the value of a call, where it returns
abbrev pub Whenever {ℓ κ} : {A : Type ℓ} → (A → Type κ) → Outcome A → Type κ
Whenever P (returns a) = P a
Whenever P panics = Unit
Whenever P blocks = Unit

pub Whenever-if {ℓ κ} :
    {A : Type ℓ} (P : A → Type κ) (b : Bool) (x y : Outcome A)
    → Whenever P x
    → Whenever P y
    → Whenever P (if b then x else y)
Whenever-if P true x y h k = h
Whenever-if P false x y h k = k

Whenever-active {ℓ κ} :
    {A : Type ℓ} (P : A → Type κ) (o : Outcome Bool) (x y : Outcome A)
    → Whenever P x
    → Whenever P y
    → Whenever P
        (elim o [ returns true ↦ x | returns false ↦ y | panics ↦ panics | blocks ↦ blocks ])
Whenever-active P (returns true) x y h k = h
Whenever-active P (returns false) x y h k = k
Whenever-active P panics x y h k = tt
Whenever-active P blocks x y h k = tt

module _ (flag : Option Bool) (channel : Bool) where
  send-Kept :
      (path operation : Bytes) (db : MemoryStorage)
      → Kept flag channel db
      → Whenever (Kept flag channel) (send path operation db)
  unfolding send
  send-Kept path operation db k =
      Whenever-if (Kept flag channel) db.watcher _ _
        (record { distinct = k.distinct; active = k.active; watcher = k.watcher }) tt

  notify-Kept :
      (path operation : Bytes) (db : MemoryStorage)
      → Kept flag channel db
      → Whenever (Kept flag channel) (notify path operation db)
  unfolding notify
  notify-Kept path operation db k =
      Whenever-if (Kept flag channel) (contains_peer db.no_broadcast_keys path) _ _ k
        (Whenever-active (Kept flag channel) (is_active db) _ _ (send-Kept path operation db k) k)

  with_result-Kept :
      {A : Type 0} (a : A) (o : Outcome MemoryStorage)
      → Whenever (Kept flag channel) o
      → Whenever (λ (r : A × MemoryStorage). Kept flag channel r.1) (with_result a o)
  with_result-Kept a (returns db') h = h
  with_result-Kept a panics h = tt
  with_result-Kept a blocks h = tt

pub set-Kept :
    (codec : Codec) (now : ℤ) (path content : Bytes) (db : MemoryStorage)
    → Distinct db.mem
    → Whenever
        (λ (r : Bytes × MemoryStorage). Kept db.active db.watcher r.1)
        (set codec now path content db)
unfolding set put
set-Kept codec now path content db d = with_result-Kept db.active db.watcher _ _ (
    notify-Kept db.active db.watcher path (codes "set") _
      (record { distinct = store-Distinct path _ db.mem d; active = refl; watcher = refl }))

pub del-Kept :
    (path : Bytes) (db : MemoryStorage)
    → Distinct db.mem
    → Whenever
        (λ (r : Result (Unit {0}) × MemoryStorage). Kept db.active db.watcher r.1)
        (del path db)
unfolding del delete
del-Kept path db d =
    let narrowed = λ (p : Bytes → Bool). with_result-Kept db.active db.watcher (ok tt) _ (
      notify-Kept db.active db.watcher path (codes "del") (record db { mem = restrict p db.mem })
        (record { distinct = restrict-Distinct p db.mem d; active = refl; watcher = refl })) in
    elim (Bool-cases (contains path (codes "*"))) [
      | inl glob ↦ simp glob (narrowed (λ k. not (match path k)))
      | inr one ↦ elim (Option-cases (load path db.mem)) [
        | inl missing ↦ simp (one, missing) (record { distinct = d; active = refl; watcher = refl })
        | inr (v, there) ↦ simp (one, there) (narrowed (other_than path))
      ]
    ]

-- What `Close` leaves, where it returns.
pub record Closed (entries : Entries) (db : MemoryStorage) : Type 0 where
  pub same : db.mem ≡ entries
  pub inactive : db.active ≡ some false
  pub unwired : db.watcher ≡ false

pub close-Closed : (db : MemoryStorage) → Whenever (Closed db.mem) (close db)
unfolding close
close-Closed db = elim (Option-cases db.active) [
  | inl nil ↦ simp (close, nil) tt
  | inr (b, there) ↦
      simp (close, there)
        (Whenever-if (Closed db.mem) db.watcher _ _
          (record { same = refl; inactive = refl; unwired = refl }) tt)
]
