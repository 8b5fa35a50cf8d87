-- ===== src/Base/Int.antt =====
-- Signed integers over the native numbers: the `i32` versions that a request carries.
use Prim.Native.Nat.{ℕ}
use mathlib.Core.Path.{◌≡◌}
use mathlib.Core.Bool.{Bool, true, false}
use native.Mathlib.Omega.{arith}
use prosepect.Base.Tests.{ltb, ◌==◌}

-- `negsuc n` is -(n + 1).
pub data ℤ : Type 0 where
  pos : ℕ → ℤ
  negsuc : ℕ → ℤ

-- `expected_version < 1`
abbrev pub below_one : ℤ → Bool
below_one (pos n) = ltb n 1
below_one (negsuc n) = true

-- `version = $n`, for a version column, which the database keeps positive.
abbrev pub is_version : ℤ → ℕ → Bool
is_version (pos n) version = n == version
is_version (negsuc n) version = false

pub is_version-eq : (e : ℤ) (version : ℕ) → is_version e version ≡ true → e ≡ pos version
is_version-eq e version h = ground arith
