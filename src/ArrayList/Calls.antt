-- ===== src/ArrayList/Calls.antt =====
-- The functions of source/ArrayList.c that change a list, as a client calls them: with a pointer that
-- may be NULL, one after the other.
pub mod Edges
pub mod Sound
use alib_c.Common.{ℕ, Bool, true, false, Option, none, some, List, [], ◌∷◌, ℤ, alib_bad_arg}
use alib_c.Common.Run.{Run, ok, fault, ◌>>=◌}
use alib_c.ArrayList.State.{Item, Slot, ArrayList}
use alib_c.ArrayList.Resize.{Resized, resize, shrink, expand}
use alib_c.ArrayList.Edit.{add, remove, remove_no_free, clear, sift, extract_array, set_max_cap}

pub data Call : Type 0 where
  add_item : Option Item → Call
  remove_item : Option Item → Call
  remove_item_no_free : Option Item → Call
  clear_all : Call
  resize_to : ℕ → Call
  shrink_it : Call
  expand_it : Call
  sift_it : Call
  extract_it : Call
  cap_at : ℕ → Call

-- What a call gives back: its return value, and the items handed to `free_item`.
pub data Reply : Type 0 where
  flag : Bool → Reply
  freed : List Item → Reply
  size : ℕ → List Item → Reply
  code : ℤ → Reply
  slots_of : Option (List Slot) → Reply

abbrev pub Outcome : Type 0
Outcome = Run (Option ArrayList × Reply)

pub from_resize : Run Resized → Outcome
from_resize m = do (l, n, ps) ← m; ok (some l, size n ps)

module _ (room : ℕ → Bool) where
  -- A call on a list
  pub apply : ArrayList → Call → Outcome
  apply l (add_item p) = do (done, l') ← add room l p; ok (some l', flag done)
  apply l (remove_item p) = do (l', ps) ← remove l p; ok (some l', freed ps)
  apply l (remove_item_no_free p) = do l' ← remove_no_free l p; ok (some l', freed [])
  apply l clear_all = do (l', ps) ← clear l; ok (some l', freed ps)
  apply l (resize_to n) = from_resize (resize room l n)
  apply l shrink_it = from_resize (shrink room l)
  apply l expand_it = from_resize (expand room l)
  apply l sift_it = do (c, l') ← sift l; ok (some l', code c)
  apply l extract_it = let (xs, l') = extract_array l in ok (some l', slots_of xs)
  apply l (cap_at n) = ok (some (set_max_cap l n), freed [])

  -- A call with NULL; ArrayList_set_max_cap() does not check for it.
  pub apply_null : Call → Outcome
  apply_null (add_item p) = ok (none, flag false)
  apply_null (remove_item p) = ok (none, freed [])
  apply_null (remove_item_no_free p) = ok (none, freed [])
  apply_null clear_all = ok (none, freed [])
  apply_null (resize_to n) = ok (none, size 0 [])
  apply_null shrink_it = ok (none, size 0 [])
  apply_null expand_it = ok (none, size 0 [])
  apply_null sift_it = ok (none, code alib_bad_arg)
  apply_null extract_it = ok (none, slots_of none)
  apply_null (cap_at n) = fault

  pub call : Option ArrayList → Call → Outcome
  call none c = apply_null c
  call (some l) c = apply l c

  pub calls : Option ArrayList → List Call → Run (Option ArrayList × List Reply)
  calls l [] = ok (l, [])
  calls l (c ∷ cs) = do (l', a) ← call l c; (l'', replies) ← calls l' cs; ok (l'', a ∷ replies)
