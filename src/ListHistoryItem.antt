-- ===== src/ListHistoryItem.antt =====
-- source/ListHistoryItem.c: a list of items from the oldest to the newest. A pointer to an item is the
-- list from that item on, NULL being the empty list; the items of a list stand nowhere else.
pub mod Removal
pub mod Freeing
mod Tests
use alib_c.Common.{
  ℕ, Bool, true, false, Option, none, some, List, [], ◌∷◌, ◌++◌, ◌==◌, if◌then◌else◌,
}
use alib_c.Common.{ℤ, pos, negsuc, alib_ok, alib_bad_arg, alib_mem_err}

-- `Remove_Callback` matters only in whether it is there. A comparison gives 0 for equal items.
pub record ListHistoryItem : Type 0 where
  pub list_item : Option ℕ
  pub has_remove : Bool
  pub compare : Option ℕ → Option ℕ → ℕ

abbrev pub same_pointer : Option ℕ → Option ℕ → Bool
same_pointer none none = true
same_pointer (some p) (some q) = p == q
same_pointer _ _ = false

-- ListHistoryItem_helper_function_default_compare()
pub default_compare : Option ℕ → Option ℕ → ℕ
default_compare item_1 item_2 = if same_pointer item_1 item_2 then 0 else 1

-- Whether an item finds two things equal
abbrev pub finds : ListHistoryItem → Option ℕ → Option ℕ → Bool
finds x a b = x.compare a b == 0

-- The loop of ListHistoryItem_member_function_find()
pub find_from : List ListHistoryItem → Option ℕ → List ListHistoryItem
find_from [] item = []
find_from (x ∷ xs) item = if finds x x.list_item item then x ∷ xs else find_from xs item

-- ListHistoryItem_member_function_find()
pub find : List ListHistoryItem → Option ℕ → List ListHistoryItem
find xs none = []
find xs (some p) = find_from xs (some p)

-- The loop of ListHistoryItem_member_function_find_one_before(), at an item and those behind it. It asks
-- each item about the next one.
pub before_from : ListHistoryItem → List ListHistoryItem → Option ℕ → List ListHistoryItem
before_from x [] item = []
before_from x (y ∷ ys) item = if finds x y.list_item item then x ∷ y ∷ ys else before_from y ys item

-- ListHistoryItem_member_function_find_one_before()
pub find_one_before : List ListHistoryItem → Option ℕ → List ListHistoryItem
find_one_before xs none = []
find_one_before [] (some p) = []
find_one_before (x ∷ xs) (some p) =
    if finds x x.list_item (some p) then [] else before_from x xs (some p)

-- What the callback of a removed item is given
abbrev pub handed : ListHistoryItem → List (Option ℕ)
handed x = if x.has_remove then x.list_item ∷ [] else []

-- delListHistoryItem(): where the pointer points afterwards, and what the callback is given
pub del : List ListHistoryItem → List ListHistoryItem × List (Option ℕ)
del [] = ([], [])
del (x ∷ xs) = (xs, handed x)

-- What ListHistoryItem_member_function_remove() returns, the list, and what the callback is given
abbrev pub Removal : Type 0
Removal = ℤ × List ListHistoryItem × List (Option ℕ)

-- The loop of ListHistoryItem_member_function_remove(), and the deletion behind it
pub remove_behind : ListHistoryItem → List ListHistoryItem → Option ℕ → Removal
remove_behind x [] item = (pos 1, x ∷ [], [])
remove_behind x (y ∷ ys) item =
    let d = del (y ∷ ys) in
    let (code, rest, given) = remove_behind y ys item in
    if finds x y.list_item item then (pos 0, x ∷ d.0, d.1) else (code, x ∷ rest, given)

-- ListHistoryItem_member_function_remove()
pub remove : List ListHistoryItem → Option ℕ → Removal
remove xs none = (negsuc 0, xs, [])
remove [] (some p) = (negsuc 0, [], [])
remove (x ∷ xs) (some p) =
    let d = del (x ∷ xs) in
    if finds x x.list_item (some p) then (pos 0, d.0, d.1) else remove_behind x xs (some p)

-- The item that newListHistoryItem() fills in
pub fresh : Option ℕ → Bool → Option (Option ℕ → Option ℕ → ℕ) → ListHistoryItem
fresh item callback compare_func = record {
  list_item = item;
  has_remove = callback;
  compare = elim compare_func [ none ↦ default_compare | some compare ↦ compare ];
}

-- newListHistoryItem(); `object` says whether malloc() succeeds, and the list is none for a `list_hist`
-- that is NULL.
pub new :
    (object : Bool)
    → Option (List ListHistoryItem)
    → Option ℕ
    → Bool
    → Option (Option ℕ → Option ℕ → ℕ)
    → ℤ × Option (List ListHistoryItem)
new object none item callback compare_func = (alib_bad_arg, none)
new false (some xs) item callback compare_func = (alib_mem_err, some xs)
new true (some xs) item callback compare_func =
    (alib_ok, some (xs ++ fresh item callback compare_func ∷ []))

-- ListHistoryItem_free_all(): what the callbacks are given. Each round frees one item, and the list is
-- empty afterwards.
pub free_all : List ListHistoryItem → List (Option ℕ)
free_all [] = []
free_all (x ∷ xs) = (del (x ∷ xs)).1 ++ free_all xs
