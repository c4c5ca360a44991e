-- ===== src/ArrayList/Tests.antt =====
-- The theorems on source/ArrayList.c at concrete lists.
use alib_c.Common.{ℕ, ◌≡◌, refl, Bool, true, false, none, some, List, [], ◌∷◌, arith, alib_ok}
use mathlib.Core.List.Perm
use mathlib.Core.List.{Perm}
use alib_c.Common.Run.{ok}
use alib_c.ArrayList.State.{Item, ArrayList, slots, items}
use alib_c.ArrayList.Resize.{resize}
use alib_c.ArrayList.Edit.{add, remove, sift}
use alib_c.ArrayList.Invariant.{IsValid, Roomy}
use alib_c.ArrayList.Loops.{has, erase}
use alib_c.ArrayList.Removing.{Kept, remove-erase}
use alib_c.ArrayList.Packing.{Fits}
use alib_c.ArrayList.Resizing.{resize_lem}
use alib_c.ArrayList.Adding.{Added, add-Added}
use alib_c.ArrayList.Sift.{Front, sift_lem}
use alib_c.ArrayList.Calls.{
  Call, add_item, remove_item, clear_all, resize_to, shrink_it, sift_it, Reply, calls,
}
use alib_c.ArrayList.Calls.Sound.{calls-IsValid}
use alib_c.ArrayList.Sort.{Sorts}
use alib_c.ArrayList.Tsafe.{sort_by, run_tsafe}
use alib_c.ArrayList.Tsafe.Returning.{Returned, run_tsafe-Returned}

-- Two items, each behind a free slot, in an array of four slots that may double
abbrev pair : ArrayList
pair = record {
  list = some (none ∷ some 5 ∷ none ∷ some 6 ∷ []);
  count = 2;
  capacity = 4;
  max_cap = 8;
  frees = true;
  use_mutex = true;
  locked = false;
}

abbrev front : ArrayList
front = record pair { list = some (some 6 ∷ some 5 ∷ none ∷ none ∷ []) }

abbrev behind : ArrayList
behind = record pair { list = some (none ∷ none ∷ some 6 ∷ some 5 ∷ []) }

abbrev full : ArrayList
full = record pair { list = some (some 6 ∷ some 5 ∷ []); capacity = 2; max_cap = 2 }

pair-IsValid : IsValid pair
pair-IsValid = record {
  allocated = refl;
  counted = refl;
  capped = omega arith;
  bounded = omega arith;
}

front-IsValid : IsValid front
front-IsValid = record {
  allocated = refl;
  counted = refl;
  capped = omega arith;
  bounded = omega arith;
}

behind-IsValid : IsValid behind
behind-IsValid = record {
  allocated = refl;
  counted = refl;
  capped = omega arith;
  bounded = omega arith;
}

full-IsValid : IsValid full
full-IsValid = record {
  allocated = refl;
  counted = refl;
  capped = omega arith;
  bounded = omega arith;
}

abbrev always : ℕ → Bool
always n = true

always-Roomy : Roomy always
always-Roomy n = refl

abbrev script : List Call
script =
    add_item (some 7)
    ∷ resize_to 8
    ∷ remove_item (some 5)
    ∷ sift_it
    ∷ shrink_it
    ∷ add_item (some 9)
    ∷ clear_all
    ∷ []

calls-IsValid_example :
    (l' : ArrayList) × (replies : List Reply) × (calls always (some pair) script
      ≡ ok (some l', replies))
    × IsValid l'
calls-IsValid_example = calls-IsValid {room = always} always-Roomy script pair-IsValid (omega arith)

add-Added_example : (l' : ArrayList) × (add always pair (some 7) ≡ ok (true, l')) × Added pair 7 l'
add-Added_example = add-Added always 7 always-Roomy pair-IsValid (omega arith)

remove-erase_example :
    (l' : ArrayList) × (remove pair (some 5) ≡ ok (l', 5 ∷ []))
    × Kept pair l'
    × (items (slots l') ≡ 6 ∷ [])
unfolding has erase
remove-erase_example = remove-erase 5 pair-IsValid

resize_lem_example : (l' : ArrayList) × (resize always pair 1 ≡ ok (l', 1, 6 ∷ [])) × Fits pair 1 l'
resize_lem_example =
    resize_lem {room = always} always-Roomy 1 pair-IsValid (omega arith) (omega arith)

sift_lem_example :
    (l' : ArrayList) × (ps : List Item) × (sift pair ≡ ok (alib_ok, l'))
    × IsValid l'
    × Front l' ps
    × Perm ps (5 ∷ 6 ∷ [])
    × (l'.count ≡ 2)
    × (l'.capacity ≡ 4)
    × (l'.max_cap ≡ 8)
    × (l'.locked ≡ false)
sift_lem_example = sift_lem pair-IsValid

-- A qsort() for a callback that finds all items equal
unordered : Sorts (λ xs. xs) (λ ps. Unit {0})
unordered = record {
  order = λ ps. ps;
  on_items = λ ps. refl;
  perm = λ ps. Perm.refl ps;
  ordered = λ ps. tt;
}

run_tsafe-Returned_example :
    Returned pair (run_tsafe always (some pair) (sort_by (some (λ xs. xs))))
run_tsafe-Returned_example =
    run_tsafe-Returned {room = always} always-Roomy pair (sort_by (some (λ xs. xs))) refl
      pair-IsValid unordered
