-- ===== src/ArrayList/Access.antt =====
-- The getters of source/ArrayList.c, ArrayList_use_mutex() and ArrayList_sort(), and the *_tsafe()
-- functions that call one that reads the list or sorts it.
use alib_c.Common.{
  ℕ, Bool, true, false, Option, none, some, List, ◌++◌, take, drop, if◌then◌else◌, ℤ, alib_bad_arg,
  [],
}
use alib_c.Common.Run.{Run, ok, ◌>>=◌}
use alib_c.ArrayList.State.{Item, Slot, ArrayList}
use alib_c.ArrayList.Edit.{sift, remove_by_ptr, remove_by_ptr_no_free}
use alib_c.ArrayList.Query.{get_first_item, find_item_by_value, get_by_index, get_item_index}
use alib_c.ArrayList.Guarded.{mutex_lock, mutex_unlock}

abbrev pub get_count : ArrayList → ℕ
get_count l = l.count

abbrev pub get_capacity : ArrayList → ℕ
get_capacity l = l.capacity

abbrev pub get_max_capacity : ArrayList → ℕ
get_max_capacity l = l.max_cap

abbrev pub get_array_ptr : ArrayList → Option (List Slot)
get_array_ptr l = l.list

-- The mutex is initialised, and so free, or destroyed.
unfoldable pub use_mutex_with : Option ArrayList → Bool → Option ArrayList
use_mutex_with none b = none
use_mutex_with (some l) b =
    if l.use_mutex
    then (if b then some l else some (record l { use_mutex = false; locked = false }))
    else if b
    then some (record l { use_mutex = true; locked = false })
    else some l

-- The array with its first `n` slots as qsort() leaves them.
unfoldable pub sorted_slots : (List Slot → List Slot) → ℕ → Option (List Slot) → Option (List Slot)
sorted_slots qsort n none = none
sorted_slots qsort n (some xs) = some (qsort (take n xs) ++ drop n xs)

-- ArrayList_sort() with a callback; `qsort` is what the C library makes of a stretch of the array.
unfoldable pub sort_with : (List Slot → List Slot) → ArrayList → Run (ℤ × ArrayList)
unfolding sorted_slots
sort_with qsort l = do
  (code, l') ← sift l
  ok (code, record l' { list = sorted_slots qsort l'.count l'.list })

unfoldable pub sort : Option (List Slot → List Slot) → Option ArrayList → Run (ℤ × Option ArrayList)
unfolding sort_with
sort qsort none = ok (alib_bad_arg, none)
sort none (some l) = ok (alib_bad_arg, some l)
sort (some qsort) (some l) = do (code, l') ← sort_with qsort l; ok (code, some l')

module _ {ℓ} {A : Type ℓ} where
  unfoldable pub let_go : ArrayList × A → Run (ArrayList × A)
  let_go (l, a) = ok (mutex_unlock l, a)

  unfoldable pub run_locked : ArrayList → (ArrayList → Run (ArrayList × A)) → Run (ArrayList × A)
  unfolding let_go
  run_locked l op = do l₁ ← mutex_lock l; r ← op l₁; let_go r

  -- `if(use_mutex) { lock; call; unlock; } else call;`
  unfoldable pub with_mutex : ArrayList → (ArrayList → Run (ArrayList × A)) → Run (ArrayList × A)
  unfolding run_locked
  with_mutex l op = if l.use_mutex then run_locked l op else op l

unfoldable pub reading {ℓ} : {A : Type ℓ} → (ArrayList → Run A) → ArrayList → Run (ArrayList × A)
reading op l = do a ← op l; ok (l, a)

unfoldable pub get_first_item_tsafe : ArrayList → Run (ArrayList × Option Item)
unfolding with_mutex reading
get_first_item_tsafe l = with_mutex l (reading get_first_item)

unfoldable pub find_item_by_value_tsafe :
    ArrayList → Option (Item → Bool) → Run (ArrayList × Option Item)
unfolding with_mutex reading
find_item_by_value_tsafe l matches = with_mutex l (reading (λ l₁. find_item_by_value l₁ matches))

unfoldable pub get_by_index_tsafe : ArrayList → ℕ → Run (ArrayList × Option Item)
unfolding with_mutex reading
get_by_index_tsafe l n = with_mutex l (reading (λ l₁. get_by_index l₁ n))

unfoldable pub get_item_index_tsafe : ArrayList → Option Item → Run (ArrayList × ℤ)
unfolding with_mutex reading
get_item_index_tsafe l p = with_mutex l (reading (λ l₁. get_item_index l₁ p))

unfoldable pub swapped : Run (ℤ × ArrayList) → Run (ArrayList × ℤ)
swapped m = do (code, l) ← m; ok (l, code)

-- ArrayList_sort_tsafe() with a callback
unfoldable pub sort_tsafe : (List Slot → List Slot) → ArrayList → Run (ArrayList × ℤ)
unfolding with_mutex swapped
sort_tsafe qsort l = with_mutex l (λ l₁. swapped (sort_with qsort l₁))

unfoldable pub remove_by_ptr_tsafe : ArrayList → Option ℕ → Run (ArrayList × List Item)
unfolding with_mutex
remove_by_ptr_tsafe l none = ok (l, [])
remove_by_ptr_tsafe l (some i) = with_mutex l (λ l₁. remove_by_ptr l₁ (some i))

unfoldable pub remove_by_ptr_no_free_tsafe : ArrayList → Option ℕ → Run (ArrayList × List Item)
unfolding with_mutex
remove_by_ptr_no_free_tsafe l none = ok (l, [])
remove_by_ptr_no_free_tsafe l (some i) =
    with_mutex l (λ l₁. do l' ← remove_by_ptr_no_free l₁ (some i); ok (l', []))
