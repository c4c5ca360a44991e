-- ===== src/AlibString.antt =====
-- Copying inside one object: memcpy(), and memcpy_back() and memcpy_safe() of source/alib_string.c.
-- The C standard leaves memcpy() between stretches that overlap undefined, so it is a fault here.
pub mod Copies
pub mod Text
use alib_c.Common.{
  ℕ, zero, suc, ◌+◌, Option, none, some, List, length, get_elem?, set, ltb, leb, Bool, ◌||◌, ◌==◌,
  if◌then◌else◌,
}
use alib_c.Common.Run.{Run, ok, fault, ◌>>=◌, read, write}

-- Whether two stretches of `n` bytes have no byte in common
abbrev pub apart : ℕ → ℕ → ℕ → Bool
apart to from n = n == 0 || (leb (to + n) from || leb (from + n) to)

-- memcpy(mem + to, mem + from, n)
pub memcpy : List ℕ → ℕ → ℕ → ℕ → Run (List ℕ)
memcpy mem to from n =
    let copied = (do bytes ← read mem from n; write mem to bytes) in
    if apart to from n then copied else fault

-- `*to = *from`
pub copy_byte : List ℕ → ℕ → Option ℕ → Run (List ℕ)
copy_byte mem to none = fault
copy_byte mem to (some c) = if ltb to (length mem) then ok (set mem to c) else fault

-- The loop of memcpy_back(), which goes down: `n` bytes are left.
pub memcpy_back : List ℕ → ℕ → ℕ → ℕ → Run (List ℕ)
memcpy_back mem to from zero = ok mem
memcpy_back mem to from (suc n) = do
  mem' ← copy_byte mem (to + n) (get_elem? mem (from + n))
  memcpy_back mem' to from n

pub memcpy_safe : List ℕ → ℕ → ℕ → ℕ → Run (List ℕ)
memcpy_safe mem to from n = if ltb from to then memcpy_back mem to from n else memcpy mem to from n
