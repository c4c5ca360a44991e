-- ===== src/ArrayList/Calls/Edges.antt =====
-- The calls of source/ArrayList.c at their edges: no item, no capacity, the maximum.
use alib_c.Common.{
  ℕ, ◌≤◌, ◌≡◌, refl, ap, Bool, false, Option, none, some, List, [], arith, length, ltb, ◌==◌,
}
use alib_c.Common.Run.{ok}
use alib_c.ArrayList.State.{Slot, ArrayList, array}
use alib_c.ArrayList.Resize.{resize_list, resize, shrink, expand}
use alib_c.ArrayList.Edit.{add, remove, remove_no_free, extract_array}
use alib_c.ArrayList.Invariant.{IsValid}

pub emptied :
    {l : ArrayList} → IsValid l → IsValid (record l { list = none; count = 0; capacity = 0 })
emptied v = omega (arith, v.bounded)

pub resize_list-zero :
    (room : ℕ → Bool) (l : ArrayList) (o : Option (List Slot))
    → l.list ≡ o
    → IsValid l
    → (0 == l.capacity) ≡ false
    → resize_list room l o 0 ≡ ok (record l { list = none; count = 0; capacity = 0 }, 0, [])
unfolding resize_list
resize_list-zero room l none e v ne =
    absurd (ground (arith, v.allocated, ap (λ o. length (array o)) e))
resize_list-zero room l (some xs) e v ne = refl

pub expand_at_max :
    (room : ℕ → Bool) (l : ArrayList)
    → IsValid l
    → l.max_cap ≤ l.capacity
    → expand room l ≡ ok (l, l.capacity, [])
unfolding expand
expand_at_max room l v h =
    let some_yet : (l.capacity == 0) ≡ false = ground (arith, v.bounded) in
    let not_below : ltb l.capacity l.max_cap ≡ false = ground arith in rw (some_yet, not_below)

pub add-none : (room : ℕ → Bool) (l : ArrayList) → add room l none ≡ ok (false, l)
unfolding add
add-none room l = refl

pub remove-none : (l : ArrayList) → remove l none ≡ ok (l, [])
unfolding remove
remove-none l = refl

pub remove_no_free-none : (l : ArrayList) → remove_no_free l none ≡ ok l
unfolding remove_no_free
remove_no_free-none l = refl

pub shrink-resize : (room : ℕ → Bool) (l : ArrayList) → resize room l l.count ≡ shrink room l
unfolding shrink
shrink-resize room l = refl

pub extract-parts :
    (l : ArrayList) → extract_array l ≡ (l.list, record l { capacity = 0; count = 0; list = none })
unfolding extract_array
extract-parts l = refl
