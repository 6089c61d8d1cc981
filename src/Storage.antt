-- ===== src/Storage.antt =====
-- storage.go: the events of a storage and its options.
pub mod Suite
use katamari.Base.{Bool, true, false, [], ◌∷◌, List, Result, Outcome, returns, panics, blocks}
use katamari.Base.Int.{ℤ}
use katamari.Base.Text.{Bytes}
use katamari.Objects.{Object}

-- `StorageEvent`
pub record StorageEvent : Type 0 where
  pub key : Bytes
  pub operation : Bytes

-- `StorageOpt`; the options of other databases (`DbOpt`) are not used by the storage in memory
pub record StorageOpt : Type 0 where
  pub no_broadcast_keys : List Bytes

-- `Database`, on a storage's state `D`. The time that `Set` reads is its first argument, and `watch`
-- gives the events sent on the channel so far; a call that fails returns no data.
pub record Database (D : Type 0) : Type 0 where
  pub is_active : D → Outcome Bool
  pub start : StorageOpt → D → Result (Unit {0}) × D
  pub close : D → Outcome D
  pub all_keys : D → Result Bytes
  pub keys_range : Bytes → ℤ → ℤ → D → Result (List Bytes)
  pub get : Bytes → D → Result Bytes
  pub get_n : Bytes → ℤ → D → Result (List Object)
  pub get_n_range : Bytes → ℤ → ℤ → ℤ → D → Result (List Object)
  pub set : ℤ → Bytes → Bytes → D → Outcome (Result Bytes × D)
  pub pivot : Bytes → Bytes → ℤ → ℤ → D → Outcome (Result Bytes × D)
  pub del : Bytes → D → Outcome (Result (Unit {0}) × D)
  pub clear : D → D
  pub watch : D → List StorageEvent

-- `WatchStorageNoop`: `states` are the states of the storage behind each receive, and what is
-- returned are the receives that are left to others; with no event more it waits.
module _ {D : Type 0} (database : Database D) where
  unfoldable pub watch_storage_noop : List D → Outcome (List D)
  watch_storage_noop [] = blocks
  watch_storage_noop (db ∷ states) =
      let rest = watch_storage_noop states in
      elim (database.is_active db) [
        | returns true ↦ rest
        | returns false ↦ returns states
        | panics ↦ panics
        | blocks ↦ blocks
      ]
