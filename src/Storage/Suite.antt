-- ===== src/Storage/Suite.antt =====
-- The test of storageTest.go that every storage runs on its objects.
use katamari.Base.{
  Bool, true, false, ◌&&◌, [], ◌∷◌, Option, none, some, zero, suc, if◌then◌else◌, Result, ok, err,
  Outcome, returns, panics, blocks,
}
use katamari.Base.Int.{ℤ, pos, negsuc}
use katamari.Base.Text.{Bytes, codes, bytes_eq}
use katamari.Objects.{Object, Codec, decode_raw}
use katamari.Storage.{Database}

-- `require.NoError` and `require.NotEmpty` on what `Set` returns; a test that fails stops
abbrev pub after_set :
    {D : Type 0} → Outcome (Result Bytes × D) → (D → Outcome (Bool × D)) → Outcome (Bool × D)
after_set (returns (ok [], d)) next = returns (false, d)
after_set (returns (ok (c ∷ s), d)) next = next d
after_set (returns (err e, d)) next = returns (false, d)
after_set panics next = panics
after_set blocks next = blocks

-- `require.NoError` on what `Del` returns
abbrev pub after_del :
    {D : Type 0} → Outcome (Result (Unit {0}) × D) → (D → Outcome (Bool × D)) → Outcome (Bool × D)
after_del (returns (ok _, d)) next = next d
after_del (returns (err e, d)) next = returns (false, d)
after_del panics next = panics
after_del blocks next = blocks

-- the data, where the error is not looked at
abbrev pub data_of : Result Bytes → Bytes
data_of (ok raw) = raw
data_of (err e) = []

abbrev pub is_empty : Bytes → Bool
is_empty [] = true
is_empty (c ∷ s) = false

abbrev pub is_ok : Result Bytes → Bool
is_ok (ok raw) = true
is_ok (err e) = false

abbrev pub is_zero : ℤ → Bool
is_zero (pos zero) = true
is_zero (pos (suc n)) = false
is_zero (negsuc n) = false

-- an object without an error, with the data given
abbrev pub has_data : Bytes → Object × Option Bytes → Bool
has_data text (o, none) = bytes_eq text o.content
has_data text (o, some e) = false

abbrev pub path : Bytes
path = codes "test"

module _ {D : Type 0} (database : Database D) (codec : Codec) where
  abbrev pub first_read : Result Bytes → Bool
  first_read got =
      let read = decode_raw codec (data_of got) in
      has_data (codes "test") read && is_zero read.0.updated

  abbrev pub second_read : Result Bytes → Bool
  second_read got = is_ok got && has_data (codes "test_update") (decode_raw codec (data_of got))

  abbrev pub third_part : D → Outcome (Bool × D)
  third_part d =
      after_del (database.del path d) (λ d. returns (is_empty (data_of (database.get path d)), d))

  abbrev pub second_part : ℤ → D → Outcome (Bool × D)
  second_part later d =
      after_set (database.set later path (codes "test_update") d)
        (λ d. if second_read (database.get path d) then third_part d else returns (false, d))

  -- `StorageObjectTest`, with the times of its two writes; the result tells whether it passes
  unfoldable pub storage_object_test : ℤ → ℤ → D → Outcome (Bool × D)
  storage_object_test now later d =
      after_set (database.set now path (codes "test") (database.clear d))
        (λ d. if first_read (database.get path d) then second_part later d else returns (false, d))
