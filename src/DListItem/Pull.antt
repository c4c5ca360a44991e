-- ===== src/DListItem/Pull.antt =====
-- source/DListItem.c: taking nodes out of a list, making them and deleting them.
use alib_c.Common.{
  ℕ, zero, suc, ◌-◌, ◌^◌, Option, none, some, List, [], ◌∷◌, ltb, ◌==◌, if◌then◌else◌, sub_size, ℤ,
  pos, negsuc,
}
use alib_c.Common.Run.{Run, ok, fault, ◌>>=◌}
use alib_c.DListItem.{Heap, at, put, set_next, set_prev, set_next_if, set_prev_if, set_list_parent}
use alib_c.DListItem.Lookup.{get_by_relative_index}

-- DListItem_pull_out() of an item that is not NULL: the item, what the caller's pointer is set to, and
-- the heap.
unfoldable pub pull_out : ℕ → Heap → ℕ → Run (ℕ × ℕ × Heap)
pull_out fuel h item = do
  n ← at h item
  h₁ ← set_prev_if h n.next n.prev
  n₁ ← at h₁ item
  h₂ ← set_next_if h₁ n₁.prev n₁.next
  h₃ ← set_next h₂ item 0
  h₄ ← set_prev h₃ item 0
  r ← set_list_parent fuel h₄ item 0
  ok (item, if n.prev == 0 then n.next else n.prev, r.1)

-- The long that a size_t converts to
pub long_of_size : ℕ → ℤ
long_of_size n = if ltb n (2 ^ 63) then pos n else negsuc (2 ^ 64 - 1 - n)

-- DListItem_pull_out_count() of an item that is not NULL
unfoldable pub pull_out_count : ℕ → Heap → ℕ → ℕ → Run (ℕ × ℕ × Heap)
pull_out_count fuel h item count = if count == 0 then ok (0, item, h) else do
  r ← get_by_relative_index h item (long_of_size (sub_size count 1))
  let end = r.0
  n ← at h item
  e ← at h end
  h₁ ← set_next_if h n.prev e.next
  e₁ ← at h₁ end
  n₁ ← at h₁ item
  h₂ ← set_prev_if h₁ e₁.next n₁.prev
  h₃ ← set_prev h₂ item 0
  h₄ ← set_next h₃ end 0
  r' ← set_list_parent fuel h₄ item 0
  ok (item, if n.prev == 0 then e.next else n.prev, r'.1)

-- newDListItem(). malloc() gives `p`, and newListItemVal() gives `val`; `old_list` is the pointer that the
-- caller's points to. The result is the new item, that pointer afterwards, and the heap.
unfoldable pub new : (p val : ℕ) → Heap → Option ℕ → Run (ℕ × Option ℕ × Heap)
new p val h none =
    ok (
      p,
      none,
      if p == 0 then h else put h p (record { parent = 0; val = val; next = 0; prev = 0 }),
    )
new p val h (some old) =
    if p == 0
    then ok (0, some old, h)
    else if old == 0
    then ok (p, some p, put h p (record { parent = 0; val = val; next = 0; prev = 0 }))
    else do
      o ← at h old
      let h₁ = put h p (record { parent = 0; val = val; next = o.next; prev = old })
      h₂ ← set_prev_if h₁ o.next p
      h₃ ← set_next h₂ old p
      ok (p, some p, h₃)

pub freed : Heap → ℕ → Heap
freed h p q = if q == p then none else h q

-- delDListItem() of an item that is not NULL: what the caller's pointer is set to, the ListItemVal that is
-- given to delListItemVal(), and the heap.
unfoldable pub del : Heap → ℕ → Run (ℕ × ℕ × Heap)
del h item = do
  n ← at h item
  h₁ ← set_next_if h n.prev n.next
  n₁ ← at h₁ item
  h₂ ← set_prev_if h₁ n₁.next n₁.prev
  ok (if n.prev == 0 then n.next else n.prev, n.val, freed h₂ item)

-- delDListItem_all(), on fuel: the ListItemVal objects in the order in which they are given up
pub del_all : ℕ → Heap → ℕ → Run (List ℕ × Heap)
del_all zero h item = if item == 0 then ok ([], h) else fault
del_all (suc fuel) h item =
    if item == 0
    then ok ([], h)
    else do r ← del h item; s ← del_all fuel r.2 r.0; ok (r.1 ∷ s.0, s.1)
