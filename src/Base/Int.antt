-- ===== src/Base/Int.antt =====
-- Signed integers over the native numbers, with the tests that C code makes on an `int`.
use Prim.Native.Nat.{ℕ, zero, suc}
use mathlib.Core.Path.{◌≡◌, refl}
use mathlib.Core.Logic.{◌↔◌}
use mathlib.Core.Bool.{Bool, true, false}
use native.Mathlib.Omega.{arith}
use Prim.Native.Nat.{◌+◌, ◌^◌, ◌<◌}
use model_lib.Base.Tests.{◌==◌, if◌then◌else◌}

-- `negsuc n` is -(n + 1).
pub data ℤ : Type 0 where
  pos : ℕ → ℤ
  negsuc : ℕ → ℤ

abbrev pub int_eq : ℤ → ℤ → Bool
int_eq (pos a) (pos b) = a == b
int_eq (negsuc a) (negsuc b) = a == b
int_eq (pos a) (negsuc b) = false
int_eq (negsuc a) (pos b) = false

pub int_eq_iff : (a b : ℤ) → (int_eq a b ≡ true) ↔ (a ≡ b)
int_eq_iff (pos a) (pos b) = ground arith
int_eq_iff (negsuc a) (negsuc b) = ground arith
int_eq_iff (pos a) (negsuc b) = ground arith
int_eq_iff (negsuc a) (pos b) = ground arith

pub int_eq_refl : (a : ℤ) → int_eq a a ≡ true
int_eq_refl a = (int_eq_iff a a).1 refl

-- `++` on a 32-bit `int`, which goes round at the top.
unfoldable pub int_inc : ℤ → ℤ
int_inc (pos n) = if n == 2147483647 then negsuc 2147483647 else pos (n + 1)
int_inc (negsuc zero) = pos 0
int_inc (negsuc (suc n)) = negsuc n

pub int_inc-pos : (k : ℕ) → k + 1 < 2 ^ 31 → int_inc (pos k) ≡ pos (k + 1)
unfolding int_inc
int_inc-pos k h = ground arith
