-- ===== src/Prelude/Words.antt =====
-- Machine integers as bit patterns: `unsigned long long` (64 bits) and `int` (32 bits, two's
-- complement). A pattern is a native number below the modulus.
use Prim.Native.Nat.{ℕ, ◌+◌, ◌-◌, ◌%◌, ◌^◌, ◌≤◌, ◌<◌}
use mathlib.Core.Path.{◌≡◌}
use mathlib.Core.Bool.{Bool}
use native.Mathlib.Omega.{arith}
use edge_frame.Prelude.Tests.{ltb}

-- `a - b` and `a + b` on `unsigned long long`.
unfoldable pub sub_u64 : ℕ → ℕ → ℕ
sub_u64 a b = (a + 2 ^ 64 - b) % 2 ^ 64

unfoldable pub add_u64 : ℕ → ℕ → ℕ
add_u64 a b = (a + b) % 2 ^ 64

-- `a + b` on `int`, and the conversion of a wider integer to `int`.
unfoldable pub add_int : ℕ → ℕ → ℕ
add_int a b = (a + b) % 2 ^ 32

unfoldable pub to_int : ℕ → ℕ
to_int a = a % 2 ^ 32

-- `a < b` on `int`: the order of the patterns after the sign bit is flipped.
unfoldable pub int_lt : ℕ → ℕ → Bool
int_lt a b = ltb ((a + 2 ^ 31) % 2 ^ 32) ((b + 2 ^ 31) % 2 ^ 32)

-- The pattern of the `int` -1.
abbrev pub minus_one : ℕ
minus_one = 2 ^ 32 - 1

pub sub_u64-eq-sub : (a b : ℕ) → b ≤ a → a < 2 ^ 64 → sub_u64 a b ≡ a - b
unfolding sub_u64
sub_u64-eq-sub a b h k = omega arith

-- A subtraction that goes below zero comes out near the top of the range.
pub sub_u64_wraps : (a b : ℕ) → a < b → b < 2 ^ 64 → sub_u64 a b + (b - a) ≡ 2 ^ 64
unfolding sub_u64
sub_u64_wraps a b h k = omega arith

pub to_int-eq : (a : ℕ) → a < 2 ^ 32 → to_int a ≡ a
unfolding to_int
to_int-eq a h = omega arith

pub add_int-eq : (a b : ℕ) → a + b < 2 ^ 32 → add_int a b ≡ a + b
unfolding add_int
add_int-eq a b h = omega arith

pub add_u64-eq : (a b : ℕ) → a + b < 2 ^ 64 → add_u64 a b ≡ a + b
unfolding add_u64
add_u64-eq a b h = omega arith

-- `a - b` on `int`.
unfoldable pub sub_int : ℕ → ℕ → ℕ
sub_int a b = (a + 2 ^ 32 - b % 2 ^ 32) % 2 ^ 32
