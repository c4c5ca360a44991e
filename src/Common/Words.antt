-- ===== src/Common/Words.antt =====
-- C integers as natural numbers below a power of two, their wrap-around written out.
use Prim.Native.Nat.{ℕ, ◌+◌, ◌-◌, ◌%◌, ◌^◌, ◌<◌}
use mathlib.Core.Path.{◌≡◌}
use native.Mathlib.Omega.{arith}
use alib_c.Common.Tests.{ltb, if◌then◌else◌}

-- size_t: 64 bits
abbrev pub size_max : ℕ
size_max = 2 ^ 64

abbrev pub add_size : ℕ → ℕ → ℕ
add_size a b = (a + b) % size_max

abbrev pub sub_size : ℕ → ℕ → ℕ
sub_size a b = (a + size_max - b) % size_max

-- The size_t that an int32_t with the low 32 bits of `x` converts to (it is sign extended).
abbrev pub size_of_int32 : ℕ → ℕ
size_of_int32 x = if ltb (x % 2 ^ 32) (2 ^ 31) then x % 2 ^ 32 else x % 2 ^ 32 + (2 ^ 64 - 2 ^ 32)

pub size_of_int32_small : (x : ℕ) → x < 2 ^ 31 → size_of_int32 x ≡ x
size_of_int32_small x h = ground arith
