-- ===== src/RBuff/Invariant.antt =====
-- The representation invariant of `struct RBuff`, and what _incrementIt() does under it.
use alib_c.Common.{ℕ, ◌+◌, ◌^◌, ◌≤◌, ◌<◌, ◌≡◌, ◌⊎◌, some, List, arith, length, alib_ok}
use alib_c.RBuff.{RBuff, get_size, get_remaining, step_it, init}

-- `count` bytes from `b` on end at `e`, going round at `size`. `e` may stand at `size` or at 0 for
-- the same place, also when the buffer has been emptied.
abbrev pub Meets : ℕ → ℕ → ℕ → ℕ → Type 0
Meets size b count e = (b + count ≡ e) ⊎ (b + count ≡ e + size) ⊎ (b + count + size ≡ e)

-- Sizes stay below 2^31, where the int32_t of RBuff_pushback() is exact.
pub record IsValid (r : RBuff) : Type 0 where
  pub storage : length r.mem ≡ r.buff_end
  pub nonempty : 0 < r.buff_end
  pub small : r.buff_end < 2 ^ 31
  pub begin_in : r.it_begin < r.buff_end
  pub end_in : r.it_end ≤ r.buff_end
  pub count_in : r.count ≤ r.buff_end
  pub meets : Meets r.buff_end r.it_begin r.count r.it_end

-- Moving an iterator by at most the size goes round at the end of the buffer once.
pub step_it_begin :
    {r : RBuff} (n : ℕ)
    → IsValid r
    → n ≤ r.buff_end
    → (step_it r r.it_begin n < r.buff_end)
      × ((step_it r r.it_begin n ≡ r.it_begin + n)
          ⊎ (step_it r r.it_begin n + r.buff_end ≡ r.it_begin + n))
unfolding step_it
step_it_begin n v h = ground arith

pub step_it_end :
    {r : RBuff} (n : ℕ)
    → IsValid r
    → n ≤ r.buff_end
    → (step_it r r.it_end n ≤ r.buff_end)
      × ((step_it r r.it_end n ≡ r.it_end + n) ⊎ (step_it r r.it_end n + r.buff_end ≡ r.it_end + n))
unfolding step_it
step_it_end n v h = ground arith

-- RBuff_init() accepts a buffer of at least one byte and less than 2^31, and leaves it empty and
-- valid, with the flags given.
pub init-IsValid :
    (old : RBuff) (mem : List ℕ) (flags : ℕ)
    → 0 < length mem
    → length mem < 2 ^ 31
    → (r : RBuff) × (init (some old) (some mem) (length mem) flags ≡ (alib_ok, some r))
      × IsValid r
      × (r.count ≡ 0)
      × (r.flags ≡ flags)
unfolding init
init-IsValid old mem flags h k = (
  record { mem = mem; buff_end = length mem; it_begin = 0; it_end = 0; count = 0; flags = flags },
  ground arith,
  omega arith,
  omega arith,
  omega arith,
)

-- The bytes free and the bytes held make up the size.
pub get_remaining-add-count :
    {r : RBuff} → IsValid r → get_remaining (some r) + r.count ≡ get_size (some r)
unfolding get_remaining
get_remaining-add-count v = omega arith
