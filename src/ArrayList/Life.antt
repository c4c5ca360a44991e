-- ===== src/ArrayList/Life.antt =====
-- The constructors and the destructor of source/ArrayList.c.
use alib_c.Common.{
  ℕ, ◌≤◌, ◌<◌, ◌^◌, ◌≡◌, refl, ap, ◌∙◌, inl, inr, Bool, true, false, Option, none, some, List, [],
  arith, ltb, ◌==◌, if◌then◌else◌, Bool-cases, replicate, length-replicate,
}
use alib_c.Common.Run.{Run, ok, ◌>>=◌}
use alib_c.ArrayList.State.{Item, Slot, ArrayList, slots, items, handed}
use alib_c.ArrayList.Resize.{calloc}
use alib_c.ArrayList.Edit.{ulong_max, clear}
use alib_c.ArrayList.Invariant.{IsValid, Roomy, items-replicate}
use alib_c.ArrayList.Removing.{clear_lem}

-- `if(capacity) list = calloc(capacity); else list = NULL;`
start_list : (ℕ → Bool) → ℕ → Option (List Slot)
start_list room n = if n == 0 then none else calloc room n

started : (ℕ → Bool) → Bool → ℕ → ℕ → Bool → ArrayList
started room frees start max use_mutex = record {
  list = start_list room start;
  count = 0;
  capacity = start;
  max_cap = max;
  frees = frees;
  use_mutex = use_mutex;
  locked = false;
}

-- `if(capacity && !list) delArrayList(&list);`
checked_list : ArrayList → Option (List Slot) → Option ArrayList
checked_list l none = none
checked_list l (some xs) = some l

checked : ArrayList → Option ArrayList
checked l = if l.capacity == 0 then some l else checked_list l l.list

-- newArrayList_ex(); `object` says whether malloc() of the struct succeeds.
unfoldable pub new_ex : (ℕ → Bool) → (object : Bool) → Bool → ℕ → ℕ → Bool → Option ArrayList
unfolding started checked checked_list start_list
new_ex room object frees start max use_mutex =
    let max' = if max == 0 then ulong_max else max in
    if ltb max' start
    then none
    else if object
    then checked (started room frees start max' use_mutex)
    else none

unfoldable pub new : (ℕ → Bool) → (object : Bool) → Bool → Option ArrayList
unfolding new_ex
new room object frees = new_ex room object frees 4 0 true

-- delArrayList(): the items handed to `free_item`; the pointer is NULL afterwards.
unfoldable pub del : Option ArrayList → Run (Option ArrayList × List Item)
del none = ok (none, [])
del (some l) = do (l', ps) ← clear l; ok (none, ps)

checked-none : (l : ArrayList) → (l.capacity == 0) ≡ true → checked l ≡ some l
unfolding checked
checked-none l e = rw e

checked-some :
    (l : ArrayList) (xs : List Slot)
    → (l.capacity == 0) ≡ false
    → l.list ≡ some xs
    → checked l ≡ some l
unfolding checked checked_list
checked-some l xs e h =
    let c : checked l ≡ checked_list l l.list = rw e in c ∙ ap (checked_list l) h

checked-started :
    (room : ℕ → Bool) (frees : Bool) (start max : ℕ) (use_mutex : Bool)
    → Roomy room
    → checked (started room frees start max use_mutex)
      ≡ some (started room frees start max use_mutex)
unfolding started start_list calloc
checked-started room frees start max use_mutex roomy = elim (Bool-cases (start == 0)) [
  | inl e ↦ checked-none (started room frees start max use_mutex) e
  | inr ne ↦
      checked-some (started room frees start max use_mutex) (replicate start none) ne
        (rw (ne, roomy start))
]

started-IsValid :
    (room : ℕ → Bool) (frees : Bool) (start max : ℕ) (use_mutex : Bool)
    → Roomy room
    → start ≤ max
    → 0 < max
    → max < 2 ^ 64
    → IsValid (started room frees start max use_mutex)
      × (items (slots (started room frees start max use_mutex)) ≡ [])
unfolding started start_list calloc
started-IsValid room frees start max use_mutex roomy h k small = elim (Bool-cases (start == 0)) [
  | inl e ↦
      let zero_slots : start ≡ 0 = ground arith in
      (
        record { allocated = rw (e, zero_slots); counted = rw e; capped = h; bounded = (k, small) },
        rw e,
      )
  | inr ne ↦ (
    record {
      allocated = rw (ne, roomy start, length-replicate {A = Slot} start none);
      counted = rw (ne, roomy start, items-replicate start);
      capped = h;
      bounded = (k, small);
    },
    rw (ne, roomy start) (items-replicate start),
  )
]

-- If allocation succeeds, newArrayList_ex() with a start capacity within the maximum, which is below
-- 2^64 and stands for ULONG_MAX when it is 0, gives a valid list without items, with that maximum
-- and with its mutex free.
pub new_ex-IsValid :
    (room : ℕ → Bool) (frees : Bool) (start max : ℕ) (use_mutex : Bool)
    → Roomy room
    → let max' : ℕ = if max == 0 then ulong_max else max in
      start ≤ max'
      → max < 2 ^ 64
      → (l : ArrayList) × (new_ex room true frees start max use_mutex ≡ some l)
        × IsValid l
        × (items (slots l) ≡ [])
        × (l.max_cap ≡ max')
        × (l.locked ≡ false)
unfolding new_ex started
new_ex-IsValid room frees start max use_mutex roomy h small =
    let max' : ℕ = if max == 0 then ulong_max else max in
    let below : ltb max' start ≡ false = ground arith in
    let (v, empty) =
      started-IsValid room frees start max' use_mutex roomy h (ground arith) (ground arith) in
    (
      started room frees start max' use_mutex,
      rw (below, checked-started room frees start max' use_mutex roomy),
      v,
      empty,
      refl,
      refl,
    )

-- delArrayList() hands all items of a valid list to `free_item`, in order.
pub del_lem :
    {l : ArrayList} → IsValid l → del (some l) ≡ ok (none, handed l.frees (items (slots l)))
unfolding del
del_lem v = let (l', runs, k, empty) = clear_lem v in rw runs
