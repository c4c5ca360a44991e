-- ===== src/RBuffIt/Back.antt =====
-- RBuffIt_prev() and RBuffIt_get_index().
use alib_c.Common.{
  ℕ, ◌+◌, ◌-◌, ◌<◌, ◌≡◌, true, none, some, arith, ltb, if◌then◌else◌, pos, int_of_size,
  int_of_size_small, ap, ◌∙◌,
}
use alib_c.RBuff.{RBuff}
use alib_c.RBuff.Invariant.{IsValid}
use alib_c.RBuffIt.{RBuffIt, next, prev, get_index, next_it, stop_at, prev_it, index_it}

abbrev pub at : RBuff → ℕ → RBuffIt
at r p = record { rbuff = r; it = some p }

-- The pointer to the item of index `n`.
abbrev pub item : RBuff → ℕ → ℕ
item r n = if ltb (r.it_begin + n) r.buff_end then r.it_begin + n else r.it_begin + n - r.buff_end

-- RBuffIt_get_index() of an iterator at the item of index `n` of a valid buffer, which holds more
-- than `n`, is `n`.
pub get_index-item :
    {r : RBuff} (n : ℕ) → IsValid r → n < r.count → get_index (some (at r (item r n))) ≡ pos n
unfolding get_index index_it
get_index-item {r} n v h = ap int_of_size place ∙ int_of_size_small n (omega arith)
  where
    place :
        (if ltb (item r n) r.it_begin
          then r.buff_end - r.it_begin + item r n
          else item r n - r.it_begin)
        ≡ n
    place = ground arith

-- On a valid buffer whose end iterator stands in front of the end of the memory, RBuffIt_next() at
-- an item that is not the last goes to the next item, and RBuffIt_prev() there comes back.
pub prev-next :
    {r : RBuff} (n : ℕ)
    → IsValid r
    → r.it_end < r.buff_end
    → n + 1 < r.count
    → (next (some (at r (item r n))) ≡ (true, some (at r (item r (n + 1)))))
      × (prev (some (at r (item r (n + 1)))) ≡ (true, some (at r (item r n))))
unfolding next next_it stop_at prev prev_it
prev-next {r} n v h k = (ground arith, ground arith)

-- On a valid buffer that is neither empty nor full, the first RBuffIt_prev() of a reset iterator
-- does not reach the last item: it goes to the end iterator, which stands behind the last item, and
-- the next call goes to the last item.
pub prev_first :
    {r : RBuff}
    → IsValid r
    → 0 < r.count
    → r.count < r.buff_end
    → (prev (some (record { rbuff = r; it = none })) ≡ (true, some (at r r.it_end)))
      × (prev (some (at r r.it_end)) ≡ (true, some (at r (item r (r.count - 1)))))
unfolding prev prev_it
prev_first {r} v h k = (ground arith, ground arith)
