-- ===== src/ArrayList/Tsafe.antt =====
-- All fifteen *_tsafe() functions of source/ArrayList.c, as a client calls them.
pub mod Returning
use alib_c.Common.{
  ℕ, ◌≡◌, refl, sym, ap, ◌∙◌, inl, inr, Bool, true, false, Option, none, some, List, [], ◌∷◌,
  get_elem?, ℤ, alib_bad_arg, alib_ok, Bool-cases,
}
use alib_c.Common.Run.{Run, ok, ◌>>=◌}
use alib_c.ArrayList.State.{Item, Slot, ArrayList, slots, items, handed}
use alib_c.ArrayList.Edit.{remove_by_ptr, remove_by_ptr_no_free}
use alib_c.ArrayList.Query.{get_first_item, find_item_by_value, get_by_index, get_item_index}
use alib_c.ArrayList.Invariant.{IsValid, Roomy}
use alib_c.ArrayList.Removing.{Kept, remove_by_ptr-Kept}
use alib_c.ArrayList.Lookups.{
  find, index_of, get_first_item_lem, find_item_by_value_lem, get_by_index_lem, get_item_index_lem,
}
use alib_c.ArrayList.Calls.{Reply}
use alib_c.ArrayList.Calls.Sound.{Respects}
use alib_c.ArrayList.Guarded.{
  Guarded, plain, call_tsafe, Released, call_tsafe-Released, set_locked-IsValid,
}
use alib_c.ArrayList.Sort.{Sorts, sort_with-Front}
use alib_c.ArrayList.Locked.{with_mutex-locked, with_mutex-plain}
use alib_c.ArrayList.Access.{
  with_mutex, reading, sort_with, sort_tsafe, swapped, get_first_item_tsafe,
  find_item_by_value_tsafe, get_by_index_tsafe, get_item_index_tsafe, remove_by_ptr_tsafe,
  remove_by_ptr_no_free_tsafe,
}

pub data Tsafe : Type 0 where
  changing : Guarded → Tsafe
  remove_ptr : Option ℕ → Tsafe
  remove_ptr_no_free : Option ℕ → Tsafe
  sort_by : Option (List Slot → List Slot) → Tsafe
  find_by : Option (Item → Bool) → Tsafe
  first_item : Tsafe
  at_index : ℕ → Tsafe
  index_of_item : Option Item → Tsafe

-- What a call gives back
pub data Answer : Type 0 where
  reply : Reply → Answer
  given : List Item → Answer
  code : ℤ → Answer
  item : Option Item → Answer

answered {ℓ} : {A : Type ℓ} → (A → Answer) → Run (ArrayList × A) → Run (Option ArrayList × Answer)
answered f m = do (l, a) ← m; ok (some l, f a)

answered_by : Run (Option ArrayList × Reply) → Run (Option ArrayList × Answer)
answered_by m = do (l, a) ← m; ok (l, reply a)

module _ (room : ℕ → Bool) where
  -- A call; ArrayList_sort() without a callback is a bad argument.
  pub run_tsafe : Option ArrayList → Tsafe → Run (Option ArrayList × Answer)
  run_tsafe l (changing g) = answered_by (call_tsafe room l g)
  run_tsafe none (remove_ptr i) = ok (none, given [])
  run_tsafe (some l) (remove_ptr i) = answered given (remove_by_ptr_tsafe l i)
  run_tsafe none (remove_ptr_no_free i) = ok (none, given [])
  run_tsafe (some l) (remove_ptr_no_free i) = answered given (remove_by_ptr_no_free_tsafe l i)
  run_tsafe none (sort_by qsort) = ok (none, code alib_bad_arg)
  run_tsafe (some l) (sort_by none) = answered code (with_mutex l (reading (λ l₁. ok alib_bad_arg)))
  run_tsafe (some l) (sort_by (some qsort)) = answered code (sort_tsafe qsort l)
  run_tsafe none (find_by matches) = ok (none, item none)
  run_tsafe (some l) (find_by matches) = answered item (find_item_by_value_tsafe l matches)
  run_tsafe none first_item = ok (none, item none)
  run_tsafe (some l) first_item = answered item (get_first_item_tsafe l)
  run_tsafe none (at_index n) = ok (none, item none)
  run_tsafe (some l) (at_index n) = answered item (get_by_index_tsafe l n)
  run_tsafe none (index_of_item p) = ok (none, code alib_bad_arg)
  run_tsafe (some l) (index_of_item p) = answered code (get_item_index_tsafe l p)
