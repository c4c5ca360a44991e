-- ===== src/ArrayList/Edit.antt =====
-- The functions of source/ArrayList.c that add, remove and move items. Each is what stands behind its
-- check of `list` for NULL; `room n` says whether the C library can allocate `n` pointers.
use alib_c.Common.{
  ℕ, zero, suc, ◌+◌, ◌-◌, ◌^◌, Bool, true, false, Option, none, some, List, [], ◌∷◌, ltb, ◌==◌,
  if◌then◌else◌, set, get_elem?, sub_size, length, ℤ, alib_ok, alib_obj_corruption,
}
use alib_c.Common.Run.{Run, ok, fault, ◌>>=◌}
use alib_c.ArrayList.State.{
  Item, Slot, ArrayList, slots, handed, is_item, is_null, search_from, null_items,
}
use alib_c.ArrayList.Resize.{expand}

-- `list->list[i] = item`, a fault outside the array
unfoldable pub put : Option (List Slot) → ℕ → Slot → Run (List Slot)
put none i x = fault
put (some xs) i x = if ltb i (length xs) then ok (set xs i x) else fault

-- ArrayList_remove_by_ptr_no_free() of the slot `i`
unfoldable pub remove_by_ptr_no_free : ArrayList → Option ℕ → Run ArrayList
unfolding put
remove_by_ptr_no_free l none = ok l
remove_by_ptr_no_free l (some i) = do
  xs ← put l.list i none
  ok (record l { list = some xs; count = sub_size l.count 1 })

unfoldable pub slot_item : Option Slot → List Item
slot_item (some (some p)) = p ∷ []
slot_item (some none) = []
slot_item none = []

-- ArrayList_remove_by_ptr(): the items handed to `free_item` too
unfoldable pub remove_by_ptr : ArrayList → Option ℕ → Run (ArrayList × List Item)
unfolding slot_item put
remove_by_ptr l none = ok (l, [])
remove_by_ptr l (some i) = do
  xs ← put l.list i none
  ok (
    record l { list = some xs; count = sub_size l.count 1 },
    handed l.frees (slot_item (get_elem? (slots l) i)),
  )

-- The first free slot takes the item; if the search fails the list is corrupt.
unfoldable pub add_at : ArrayList → Item → Option ℕ → Run (Bool × ArrayList)
add_at l p none = ok (false, l)
add_at l p (some i) =
    ok (true, record l { list = some (set (slots l) i (some p)); count = l.count + 1 })

-- The slot behind the items of a list that has just been expanded
unfoldable pub add_behind : ArrayList → Item → Run (Bool × ArrayList)
unfolding put
add_behind l p = do
  xs ← put l.list l.count (some p)
  ok (true, record l { list = some xs; count = l.count + 1 })

unfoldable pub add : (ℕ → Bool) → ArrayList → Option Item → Run (Bool × ArrayList)
unfolding add_at add_behind
add room l none = ok (false, l)
add room l (some p) =
    if ltb l.count l.capacity
    then (do found ← search_from is_null l.capacity 0 (slots l); add_at l p found)
    else if l.capacity == l.max_cap
    then ok (false, l)
    else do (l', cap, freed) ← expand room l; add_behind l' p

unfoldable pub remove_no_free : ArrayList → Option Item → Run ArrayList
unfolding remove_by_ptr_no_free
remove_no_free l none = ok l
remove_no_free l (some p) = do
  found ← search_from (is_item p) l.capacity 0 (slots l)
  remove_by_ptr_no_free l found

unfoldable pub remove : ArrayList → Option Item → Run (ArrayList × List Item)
unfolding remove_by_ptr
remove l none = ok (l, [])
remove l (some p) = do found ← search_from (is_item p) l.capacity 0 (slots l); remove_by_ptr l found

-- The items are handed to `free_item` in order.
unfoldable pub clear : ArrayList → Run (ArrayList × List Item)
clear l = do
  (xs, ps) ← null_items l.count (slots l)
  ok (record l { list = if l.count == 0 then l.list else some xs; count = 0 }, handed l.frees ps)

-- `for(; end != it && !*end; --end);`
unfoldable pub seek : List Slot → ℕ → ℕ → Run ℕ
seek xs it zero =
    if zero == it then ok zero else elim (get_elem? xs zero) [ some (some p) ↦ ok zero | _ ↦ fault ]
seek xs it (suc end) =
    let rest = seek xs it end in
    if suc end == it then ok (suc end) else elim (get_elem? xs (suc end)) [
      | none ↦ fault
      | some s ↦ elim s [ none ↦ rest | some p ↦ ok (suc end) ]
    ]

-- The loop of ArrayList_sift(), with `n` rounds left: the result, the array and the new count
-- when it finds the list corrupt.
unfoldable pub sift_slot :
    ℕ
    → ℕ
    → List Slot
    → (ℕ → List Slot → Run (Option ℕ × List Slot))
    → Option Slot
    → Run (Option ℕ × List Slot)
sift_slot it end xs next none = fault
sift_slot it end xs next (some (some p)) = next end xs
sift_slot it end xs next (some none) = do
  e ← seek xs it end
  if e == it
      then ok (some it, xs)
      else elim (get_elem? xs e) [ none ↦ fault | some s ↦ next e (set (set xs it s) e none) ]

unfoldable pub sift_loop : ℕ → ℕ → ℕ → List Slot → Run (Option ℕ × List Slot)
sift_loop zero it end xs = ok (none, xs)
sift_loop (suc n) it end xs = sift_slot it end xs (sift_loop n (it + 1)) (get_elem? xs it)

unfoldable pub sift_end : ArrayList → Option ℕ × List Slot → ℤ × ArrayList
sift_end l (none, xs) = (alib_ok, record l { list = some xs })
sift_end l (some n, xs) = (alib_obj_corruption, record l { list = some xs; count = n })

unfoldable pub sift : ArrayList → Run (ℤ × ArrayList)
sift l =
    if l.count == 0
    then ok (alib_ok, l)
    else do r ← sift_loop l.count 0 (l.capacity - 1) (slots l); ok (sift_end l r)

unfoldable pub extract_array : ArrayList → Option (List Slot) × ArrayList
extract_array l = (l.list, record l { capacity = 0; count = 0; list = none })

abbrev pub ulong_max : ℕ
ulong_max = 2 ^ 64 - 1

-- The code stores the value in `capacity`.
unfoldable pub set_max_cap : ArrayList → ℕ → ArrayList
set_max_cap l n = record l { capacity = if n == 0 then ulong_max else n }
