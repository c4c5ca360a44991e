-- ===== src/Common/Int.antt =====
-- Signed C results, and the error codes of includes/alib_error.h that the models return.
use Prim.Native.Nat.{ℕ, ◌-◌, ◌%◌, ◌^◌, ◌<◌}
use mathlib.Core.Path.{◌≡◌}
use native.Mathlib.Omega.{arith}
use alib_c.Common.Tests.{ltb, if◌then◌else◌}

-- `negsuc n` is -(n + 1).
pub data ℤ : Type 0 where
  pos : ℕ → ℤ
  negsuc : ℕ → ℤ

abbrev pub alib_ok : ℤ
alib_ok = pos 0

abbrev pub alib_bad_arg : ℤ
alib_bad_arg = negsuc 0

abbrev pub alib_mem_err : ℤ
alib_mem_err = negsuc 1

abbrev pub alib_obj_corruption : ℤ
alib_obj_corruption = negsuc 8

abbrev pub alib_internal_max_reached : ℤ
alib_internal_max_reached = negsuc 15

abbrev pub alib_bad_index : ℤ
alib_bad_index = negsuc 16

abbrev pub alib_file_write_err : ℤ
alib_file_write_err = negsuc 13

abbrev pub alib_file_read_err : ℤ
alib_file_read_err = negsuc 12

abbrev pub alib_file_err : ℤ
alib_file_err = negsuc 10

abbrev pub alib_timeout : ℤ
alib_timeout = negsuc 17

-- The int that a size_t converts to.
abbrev pub int_of_size : ℕ → ℤ
int_of_size x =
    if ltb (x % 2 ^ 32) (2 ^ 31) then pos (x % 2 ^ 32) else negsuc (2 ^ 32 - 1 - x % 2 ^ 32)

pub int_of_size_small : (x : ℕ) → x < 2 ^ 31 → int_of_size x ≡ pos x
int_of_size_small x h = ground arith
