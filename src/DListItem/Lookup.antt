-- ===== src/DListItem/Lookup.antt =====
-- source/DListItem.c: finding a node of a list, and counting the nodes.
use alib_c.Common.{
  ℕ, zero, suc, ◌+◌, ◌^◌, Option, none, some, ltb, ◌==◌, if◌then◌else◌, add_size, ℤ, pos, negsuc,
  alib_bad_arg,
}
use alib_c.Common.Run.{Run, ok, fault, ◌>>=◌}
use alib_c.DListItem.{Heap, at, get_first_item}

-- `for(; index && list->next; --index, list = list->next);` and what is left of the index
unfoldable pub forward : Heap → ℕ → ℕ → Run (ℕ × ℕ)
forward h p zero = ok (p, 0)
forward h p (suc i) = do
  n ← at h p
  let rest = forward h n.next i
  if n.next == 0 then ok (p, suc i) else rest

-- The same towards the front
pub backward : Heap → ℕ → ℕ → Run (ℕ × ℕ)
backward h p zero = ok (p, 0)
backward h p (suc i) = do
  n ← at h p
  let rest = backward h n.prev i
  if n.prev == 0 then ok (p, suc i) else rest

-- DListItem_get(): the node, and what `index_exceeds` is set to
unfoldable pub get : ℕ → Heap → ℕ → ℕ → Run (ℕ × ℕ)
get fuel h list index =
    if list == 0
    then ok (0, index)
    else do first ← get_first_item fuel h list; forward h first index

abbrev pub negated : ℕ × ℕ → ℕ × ℤ
negated (p, zero) = (p, pos 0)
negated (p, suc i) = (p, negsuc i)

pub get_by_relative_index : Heap → ℕ → ℤ → Run (ℕ × ℤ)
get_by_relative_index h list (pos i) =
    if list == 0 then ok (0, pos i) else do r ← forward h list i; ok (r.0, pos r.1)
get_by_relative_index h list (negsuc i) =
    if list == 0 then ok (0, negsuc i) else do r ← backward h list (suc i); ok (negated r)

abbrev pub value_of : Option ℕ → Run ℕ
value_of none = fault
value_of (some v) = ok v

-- `p->base.val->value`; `values` is the memory of the ListItemVal objects.
pub value_at : (ℕ → Option ℕ) → Heap → ℕ → Run ℕ
value_at values h p = do n ← at h p; value_of (values n.val)

-- The loops of DListItem_get_by_value(): up to a node with the value, or NULL
pub search_back : ℕ → (ℕ → Option ℕ) → Heap → ℕ → ℕ → Run ℕ
search_back zero values h p value = if p == 0 then ok 0 else fault
search_back (suc fuel) values h p value = if p == 0 then ok 0 else do
  v ← value_at values h p
  n ← at h p
  let rest = search_back fuel values h n.prev value
  if v == value then ok p else rest

pub search_on : ℕ → (ℕ → Option ℕ) → Heap → ℕ → ℕ → Run ℕ
search_on zero values h p value = if p == 0 then ok 0 else fault
search_on (suc fuel) values h p value = if p == 0 then ok 0 else do
  v ← value_at values h p
  n ← at h p
  let rest = search_on fuel values h n.next value
  if v == value then ok p else rest

pub get_by_value : ℕ → (ℕ → Option ℕ) → Heap → ℕ → ℕ → Run ℕ
get_by_value fuel values h list value = if list == 0 then ok 0 else do
  p ← search_back fuel values h list value
  n ← at h list
  let rest = search_on fuel values h n.next value
  if p == 0 then rest else ok p

-- The loops of DListItem_count()
unfoldable pub count_back : ℕ → Heap → ℕ → ℕ → Run ℕ
count_back zero h p count = if p == 0 then ok count else fault
count_back (suc fuel) h p count =
    if p == 0 then ok count else do n ← at h p; count_back fuel h n.prev (add_size count 1)

unfoldable pub count_on : ℕ → Heap → ℕ → ℕ → Run ℕ
count_on zero h p count = if p == 0 then ok count else fault
count_on (suc fuel) h p count =
    if p == 0 then ok count else do n ← at h p; count_on fuel h n.next (add_size count 1)

unfoldable pub count : ℕ → Heap → ℕ → Run ℕ
count fuel h list =
    if list == 0
    then ok 0
    else do n ← at h list; before ← count_back fuel h n.prev 0; count_on fuel h list before

-- The loop of DListItem_index(). It looks at no NULL, and its int must not overflow.
unfoldable pub index_from : ℕ → Heap → ℕ → ℕ → ℕ → Run ℤ
index_from zero h begin list index = if begin == list then ok (pos index) else fault
index_from (suc fuel) h begin list index = if begin == list then ok (pos index) else do
  n ← at h begin
  let rest = index_from fuel h n.next list (index + 1)
  if ltb (index + 1) (2 ^ 31) then rest else fault

unfoldable pub index : ℕ → Heap → ℕ → Run ℤ
index fuel h list =
    if list == 0
    then ok alib_bad_arg
    else do begin ← get_first_item fuel h list; index_from fuel h begin list 0

pub get_next_item : Heap → ℕ → Run ℕ
get_next_item h list = do n ← at h list; ok n.next

pub get_prev_item : Heap → ℕ → Run ℕ
get_prev_item h list = do n ← at h list; ok n.prev

pub get_value : (ℕ → Option ℕ) → Heap → ℕ → Run ℕ
get_value values h item = value_at values h item

pub get_value_object : Heap → ℕ → Run ℕ
get_value_object h item = do n ← at h item; ok n.val
