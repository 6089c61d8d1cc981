-- ===== src/Base/Int.antt =====
-- Signed integers: int64 values, compared and printed but never added by the program.
use Prim.Native.Nat.{ℕ, ◌^◌, ◌<◌}
use mathlib.Core.Path.{◌≡◌}
use mathlib.Core.Bool.{Bool, true, false}
use native.Mathlib.Omega.{arith}
use katamari.Base.Tests.{ltb}

-- `negsuc n` is -(n + 1).
pub data ℤ : Type 0 where
  pos : ℕ → ℤ
  negsuc : ℕ → ℤ

-- a < b
abbrev pub ltℤ : ℤ → ℤ → Bool
ltℤ (pos a) (pos b) = ltb a b
ltℤ (pos a) (negsuc b) = false
ltℤ (negsuc a) (pos b) = true
ltℤ (negsuc a) (negsuc b) = ltb b a

-- The values of an int64.
abbrev pub InInt64 : ℤ → Type 0
InInt64 (pos n) = n < 2 ^ 63
InInt64 (negsuc n) = n < 2 ^ 63

pub ltℤ-irrefl : (a : ℤ) → ltℤ a a ≡ false
ltℤ-irrefl (pos a) = ground arith
ltℤ-irrefl (negsuc a) = ground arith

-- `not (a < b)` is a total preorder.
pub ltℤ-asymm : (a b : ℤ) → ltℤ a b ≡ true → ltℤ b a ≡ false
ltℤ-asymm (pos a) (pos b) h = ground arith
ltℤ-asymm _ _ h = ground arith

pub ltℤ-cotrans : (a b c : ℤ) → ltℤ a b ≡ false → ltℤ b c ≡ false → ltℤ a c ≡ false
ltℤ-cotrans (pos a) (pos b) (pos c) h k = ground arith
ltℤ-cotrans _ _ _ h k = ground arith
