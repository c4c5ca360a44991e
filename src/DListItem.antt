-- ===== src/DListItem.antt =====
-- source/DListItem.c and includes/DListItem_private.h: doubly linked lists of nodes in the heap. An address
-- is a number, 0 is NULL, and a read through NULL or of memory that is no node is a fault. The loops along
-- the links run on fuel.
pub mod Lookup
pub mod Pull
pub mod Moving
pub mod Chain
pub mod Walk
pub mod Counts
pub mod Links
pub mod Pulling
pub mod Inserting
mod Tests
use alib_c.Common.{
  ℕ, zero, suc, ◌+◌, ◌-◌, ◌*◌, ◌^◌, Bool, true, false, Option, none, some, List, [], ◌∷◌, ltb, ◌==◌,
  if◌then◌else◌, add_size, sub_size, ℤ, pos, negsuc, alib_ok, alib_bad_arg, alib_bad_index,
}
use alib_c.Common.Run.{Run, ok, fault, ◌>>=◌}

-- `base.parent`, the address of `base.val`, and the links
pub record Node : Type 0 where
  pub parent : ℕ
  pub val : ℕ
  pub next : ℕ
  pub prev : ℕ

abbrev pub Heap : Type 0
Heap = ℕ → Option Node

abbrev pub found : Option Node → Run Node
found none = fault
found (some n) = ok n

abbrev pub at : Heap → ℕ → Run Node
at h p = if p == 0 then fault else found (h p)

abbrev pub put : Heap → ℕ → Node → Heap
put h p n q = if q == p then some n else h q

-- `p->next = q` and so on
pub set_next : Heap → ℕ → ℕ → Run Heap
set_next h p q = do n ← at h p; ok (put h p (record n { next = q }))

pub set_prev : Heap → ℕ → ℕ → Run Heap
set_prev h p q = do n ← at h p; ok (put h p (record n { prev = q }))

pub set_parent : Heap → ℕ → ℕ → Run Heap
set_parent h p q = do n ← at h p; ok (put h p (record n { parent = q }))

-- `if(p) p->next = q;`
pub set_next_if : Heap → ℕ → ℕ → Run Heap
set_next_if h p q = if p == 0 then ok h else set_next h p q

pub set_prev_if : Heap → ℕ → ℕ → Run Heap
set_prev_if h p q = if p == 0 then ok h else set_prev h p q

-- `while(list->prev) list = list->prev;`
pub first_from : ℕ → Heap → ℕ → Run ℕ
first_from zero h p = fault
first_from (suc fuel) h p = do
  n ← at h p
  let rest = first_from fuel h n.prev
  if n.prev == 0 then ok p else rest

pub get_first_item : ℕ → Heap → ℕ → Run ℕ
get_first_item fuel h list = if list == 0 then ok 0 else first_from fuel h list

-- `while(list->next) list = list->next;`
pub last_from : ℕ → Heap → ℕ → Run ℕ
last_from zero h p = fault
last_from (suc fuel) h p = do
  n ← at h p
  let rest = last_from fuel h n.next
  if n.next == 0 then ok p else rest

pub get_last_item : ℕ → Heap → ℕ → Run ℕ
get_last_item fuel h list = if list == 0 then ok 0 else last_from fuel h list

-- The loop of DListItem_set_list_parent()
pub parent_from : ℕ → Heap → ℕ → ℕ → Run Heap
parent_from zero h p parent = if p == 0 then ok h else fault
parent_from (suc fuel) h p parent =
    if p == 0
    then ok h
    else do h' ← set_parent h p parent; n ← at h' p; parent_from fuel h' n.next parent

pub set_list_parent : ℕ → Heap → ℕ → ℕ → Run (ℤ × Heap)
set_list_parent fuel h list parent = if list == 0 then ok (alib_bad_arg, h) else do
  n ← at h list
  if n.parent == parent then ok (alib_ok, h) else do
    first ← get_first_item fuel h list
    h' ← parent_from fuel h first parent
    ok (alib_ok, h')

-- The start of the functions that add `new_item`: what they return without adding it, or the rest.
pub unless_owned : ℕ → Heap → ℕ → ℕ → Run (ℕ × Heap) → Run (ℕ × Heap)
unless_owned fuel h list new_item add =
    if list == 0
    then (do first ← get_first_item fuel h new_item; ok (first, h))
    else if new_item == 0
    then ok (list, h)
    else do n ← at h new_item; if n.parent == 0 then add else ok (list, h)

pub link_after : ℕ → Heap → ℕ → ℕ → Run (ℕ × Heap)
link_after fuel h list new_item = do
  end ← get_last_item fuel h new_item
  begin ← get_first_item fuel h new_item
  l ← at h list
  r ← set_list_parent fuel h begin l.parent
  l' ← at r.1 list
  h₁ ← set_next r.1 end l'.next
  e ← at h₁ end
  h₂ ← set_prev_if h₁ e.next end
  h₃ ← set_prev h₂ begin list
  h₄ ← set_next h₃ list begin
  ok (begin, h₄)

pub insert_after : ℕ → Heap → ℕ → ℕ → Run (ℕ × Heap)
insert_after fuel h list new_item =
    unless_owned fuel h list new_item (link_after fuel h list new_item)

-- `new_item->prev->next` is written whether there is a node in front or not.
pub link_before : ℕ → Heap → ℕ → ℕ → Run (ℕ × Heap)
link_before fuel h list new_item = do
  end ← get_last_item fuel h new_item
  begin ← get_first_item fuel h new_item
  l ← at h list
  r ← set_list_parent fuel h begin l.parent
  h₁ ← set_next r.1 end list
  l' ← at h₁ list
  h₂ ← set_prev h₁ begin l'.prev
  e ← at h₂ end
  h₃ ← set_prev_if h₂ e.next end
  b ← at h₃ begin
  h₄ ← set_next h₃ b.prev begin
  ok (begin, h₄)

pub insert_before : ℕ → Heap → ℕ → ℕ → Run (ℕ × Heap)
insert_before fuel h list new_item =
    unless_owned fuel h list new_item (link_before fuel h list new_item)

pub push_back : ℕ → Heap → ℕ → ℕ → Run (ℕ × Heap)
push_back fuel h list new_item = unless_owned fuel h list new_item (do
  last ← get_last_item fuel h list
  begin ← get_first_item fuel h new_item
  l ← at h last
  r ← set_list_parent fuel h begin l.parent
  h₁ ← set_next r.1 last begin
  h₂ ← set_prev h₁ begin last
  ok (begin, h₂))

pub push_forward : ℕ → Heap → ℕ → ℕ → Run (ℕ × Heap)
push_forward fuel h list new_item = unless_owned fuel h list new_item (do
  end ← get_last_item fuel h new_item
  begin ← get_first_item fuel h new_item
  l ← at h list
  r ← set_list_parent fuel h begin l.parent
  first ← get_first_item fuel r.1 list
  h₁ ← set_prev r.1 first end
  h₂ ← set_next h₁ end first
  ok (begin, h₂))
