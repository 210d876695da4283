-- ===== src/Base/Int.antt =====
-- A C `int`: error codes, and the indices that use -1 for "none". Words of 32 bits.
use Prim.Native.Nat.{ℕ, zero, suc, ◌+◌, ◌-◌, ◌%◌, ◌^◌}
use mathlib.Core.Path.{◌≡◌, refl}
use mathlib.Core.Logic.{◌≢◌}
use mathlib.Core.Bool.{Bool, true, false, not}
use native.Mathlib.Omega.{arith}
use la9310_driver.Base.Tests.{◌==◌, ltb}

-- `negsuc n` is -(n + 1).
pub data ℤ : Type 0 where
  pos : ℕ → ℤ
  negsuc : ℕ → ℤ

-- The error code -n, for 0 < n.
abbrev pub neg : ℕ → ℤ
neg n = negsuc (n - 1)

-- `x < 0`
abbrev pub is_neg : ℤ → Bool
is_neg (pos n) = false
is_neg (negsuc n) = true

-- `x == 0`
abbrev pub is_zero : ℤ → Bool
is_zero (pos n) = n == 0
is_zero (negsuc n) = false

-- `<` and `==` of an `int`.
abbrev pub int_lt : ℤ → ℤ → Bool
int_lt (pos a) (pos b) = ltb a b
int_lt (pos a) (negsuc b) = false
int_lt (negsuc a) (pos b) = true
int_lt (negsuc a) (negsuc b) = ltb b a

abbrev pub int_eq : ℤ → ℤ → Bool
int_eq (pos a) (pos b) = a == b
int_eq (pos a) (negsuc b) = false
int_eq (negsuc a) (pos b) = false
int_eq (negsuc a) (negsuc b) = a == b

abbrev pub negate : ℤ → ℤ
negate (pos zero) = pos 0
negate (pos (suc n)) = negsuc n
negate (negsuc n) = pos (suc n)

-- A difference of words, and `++` of a counter.
abbrev pub sub32 : ℕ → ℕ → ℕ
sub32 a b = (a + 2 ^ 32 - b) % 2 ^ 32

abbrev pub next32 : ℕ → ℕ
next32 n = (n + 1) % 2 ^ 32

-- What `if(ret)` tells in each branch.
pub failure : (r : ℤ) → not (is_zero r) ≡ true → r ≢ pos 0
failure (pos zero) h e = cc
failure (pos (suc n)) h e = cc
failure (negsuc n) h e = cc

pub success : (r : ℤ) → not (is_zero r) ≡ false → r ≡ pos 0
success (pos zero) h = refl
success (pos (suc n)) h = ground arith
success (negsuc n) h = absurd (cc)
