-- ===== src/DListItem/Moving.antt =====
-- source/DListItem.c: moving items inside a list, with indices that are a size_t or a long.
use alib_c.Common.{
  ℕ, zero, ◌-◌, ◌^◌, Bool, true, false, ltb, ◌==◌, if◌then◌else◌, sub_size, ℤ, pos, negsuc,
  alib_bad_arg, alib_bad_index,
}
use alib_c.Common.Run.{Run, ok, ◌>>=◌}
use alib_c.DListItem.{Heap, at, set_next, set_prev, set_next_if, set_prev_if}
use alib_c.DListItem.Lookup.{get, get_by_relative_index}
use alib_c.DListItem.Pull.{long_of_size}

-- The size_t that a long converts to
pub size_of_long : ℤ → ℕ
size_of_long (pos n) = n
size_of_long (negsuc n) = 2 ^ 64 - 1 - n

pub is_zero : ℤ → Bool
is_zero (pos zero) = true
is_zero _ = false

-- `if(from->prev) from->prev->next = from_end->next;` and the same for what is behind
pub unlink : Heap → ℕ → ℕ → Run Heap
unlink h from from_end = do
  f ← at h from
  e ← at h from_end
  h₁ ← set_next_if h f.prev e.next
  e₁ ← at h₁ from_end
  f₁ ← at h₁ from
  set_prev_if h₁ e₁.next f₁.prev

-- Behind `to`
pub link_behind : Heap → ℕ → ℕ → Run Heap
link_behind h from to = do
  h₁ ← set_prev h from to
  t ← at h₁ to
  h₂ ← set_next h₁ from t.next
  h₃ ← set_next h₂ to from
  f ← at h₃ from
  set_prev_if h₃ f.next from

-- In front of `to`
pub link_in_front : Heap → ℕ → ℕ → ℕ → Run Heap
link_in_front h from from_end to = do
  t ← at h to
  h₁ ← set_prev h from t.prev
  h₂ ← set_next h₁ from_end to
  h₃ ← set_prev h₂ to from_end
  f ← at h₃ from
  set_next_if h₃ f.prev from

-- DListItem_move() to a later index
pub move_on : ℕ → Heap → ℕ → ℕ → ℕ → Run (ℤ × Heap)
move_on fuel h list from_index to_index = do
  f ← get fuel h list from_index
  let from = f.0
  let refused = ok (alib_bad_index, h)
  let moved = (do
    t ← get_by_relative_index h from (long_of_size (sub_size to_index from_index))
    let stays = ok (long_of_size from_index, h)
    let goes = (do
      h₁ ← unlink h from from
      h₂ ← link_behind h₁ from t.0
      ok (long_of_size (sub_size to_index (size_of_long t.1)), h₂))
    if from == t.0 then stays else goes)
  if f.1 == 0 then moved else refused

-- DListItem_move() to an earlier index
pub move_back : ℕ → Heap → ℕ → ℕ → ℕ → Run (ℤ × Heap)
move_back fuel h list from_index to_index = do
  t ← get fuel h list to_index
  let to = t.0
  let refused = ok (alib_bad_index, h)
  let moved = (do
    f ← get_by_relative_index h to (long_of_size (sub_size from_index to_index))
    let from = f.0
    let stays = ok (long_of_size from_index, h)
    let goes = (do
      h₁ ← unlink h from from
      h₂ ← link_in_front h₁ from from to
      ok (long_of_size to_index, h₂))
    if is_zero f.1 then (if from == to then stays else goes) else refused)
  if t.1 == 0 then moved else refused

pub move : ℕ → Heap → ℕ → ℕ → ℕ → Run (ℤ × Heap)
move fuel h list from_index to_index =
    if list == 0
    then ok (alib_bad_arg, h)
    else if from_index == to_index
    then ok (long_of_size from_index, h)
    else if ltb from_index to_index
    then move_on fuel h list from_index to_index
    else move_back fuel h list from_index to_index

-- DListItem_move_count() to a later index
pub move_count_on : ℕ → Heap → ℕ → ℕ → ℕ → ℕ → Run (ℤ × Heap)
move_count_on fuel h list from_index to_index count = do
  f ← get fuel h list from_index
  let from = f.0
  let refused = ok (alib_bad_index, h)
  let stays = ok (long_of_size from_index, h)
  let moved = (do
    e ← get_by_relative_index h from (long_of_size (sub_size count 1))
    let from_end = e.0
    n ← at h from_end
    let goes = (do
      t ← get_by_relative_index h from_end (long_of_size (sub_size to_index from_index))
      h₁ ← unlink h from from_end
      h₂ ← link_in_front h₁ from from_end t.0
      ok (long_of_size (sub_size to_index (size_of_long t.1)), h₂))
    if is_zero e.1 then (if n.next == 0 then stays else goes) else stays)
  if f.1 == 0 then moved else refused

-- DListItem_move_count() to an earlier index
pub move_count_back : ℕ → Heap → ℕ → ℕ → ℕ → ℕ → Run (ℤ × Heap)
move_count_back fuel h list from_index to_index count = do
  t ← get fuel h list to_index
  let to = t.0
  let refused = ok (alib_bad_index, h)
  let moved = (do
    f ← get_by_relative_index h to (long_of_size (sub_size from_index to_index))
    let from = f.0
    let goes = (do
      e ← get_by_relative_index h from (long_of_size (sub_size count 1))
      h₁ ← unlink h from e.0
      h₂ ← link_in_front h₁ from e.0 to
      ok (long_of_size to_index, h₂))
    if is_zero f.1 then goes else refused)
  if t.1 == 0 then moved else refused

pub move_count : ℕ → Heap → ℕ → ℕ → ℕ → ℕ → Run (ℤ × Heap)
move_count fuel h list from_index to_index count =
    if list == 0
    then ok (alib_bad_arg, h)
    else if ltb from_index to_index
    then move_count_on fuel h list from_index to_index count
    else move_count_back fuel h list from_index to_index count
