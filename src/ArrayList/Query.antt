-- ===== src/ArrayList/Query.antt =====
-- The functions of source/ArrayList.c that only read the list, behind their checks for NULL.
use alib_c.Common.{
  ℕ, zero, suc, ◌+◌, Bool, true, false, Option, none, some, List, [], ◌∷◌, leb, ◌==◌, if◌then◌else◌,
  ℤ, pos, negsuc, alib_bad_arg,
}
use alib_c.Common.Run.{Run, ok, fault}
use alib_c.ArrayList.State.{Item, Slot, ArrayList, slots}

-- The first item among the next `n` slots
unfoldable pub first_from : ℕ → List Slot → Run (Option Item)
first_from zero xs = ok none
first_from (suc n) [] = fault
first_from (suc n) (none ∷ xs) = first_from n xs
first_from (suc n) (some p ∷ xs) = ok (some p)

unfoldable pub get_first_item : ArrayList → Run (Option Item)
unfolding first_from
get_first_item l = first_from l.capacity (slots l)

-- The loop of ArrayList_find_item_by_value(), with `n` items left to compare
unfoldable pub find_from : (Item → Bool) → ℕ → List Slot → Run (Option Item)
find_from matches zero xs = ok none
find_from matches (suc n) [] = fault
find_from matches (suc n) (none ∷ xs) = find_from matches (suc n) xs
find_from matches (suc n) (some p ∷ xs) =
    let rest = find_from matches n xs in if matches p then ok (some p) else rest

-- `matches p` is `compare_cb(val, p) == 0`; `none` is a NULL callback.
unfoldable pub find_item_by_value : ArrayList → Option (Item → Bool) → Run (Option Item)
unfolding find_from
find_item_by_value l none = ok none
find_item_by_value l (some matches) = find_from matches l.count (slots l)

-- The loop of ArrayList_contains() over `n` slots, not items
unfoldable pub contains_from : (Item → Bool) → ℕ → List Slot → Run Bool
contains_from same zero xs = ok false
contains_from same (suc n) [] = fault
contains_from same (suc n) (none ∷ xs) = contains_from same n xs
contains_from same (suc n) (some p ∷ xs) =
    let rest = contains_from same n xs in if same p then ok true else rest

-- `same p` is `memcmp(data, p, data_len) == 0`; `none` is NULL data.
unfoldable pub contains : ArrayList → Option (Item → Bool) → Run Bool
unfolding contains_from
contains l none = ok false
contains l (some same) = contains_from same l.count (slots l)

-- The item of virtual index `v` among the next `n` slots
unfoldable pub index_from : ℕ → ℕ → List Slot → Run (Option Item)
index_from v zero xs = ok none
index_from v (suc n) [] = fault
index_from v (suc n) (none ∷ xs) = index_from v n xs
index_from zero (suc n) (some p ∷ xs) = ok (some p)
index_from (suc v) (suc n) (some p ∷ xs) = index_from v n xs

unfoldable pub get_by_index : ArrayList → ℕ → Run (Option Item)
unfolding index_from
get_by_index l v = if leb l.count v then ok none else index_from v l.capacity (slots l)

-- The loop of ArrayList_get_item_index(), with `n` items left; it never counts `array_count` up.
unfoldable pub item_index_from : Item → ℕ → ℕ → List Slot → Run ℤ
item_index_from p i zero xs = ok (negsuc 0)
item_index_from p i (suc n) [] = fault
item_index_from p i (suc n) (none ∷ xs) = item_index_from p i (suc n) xs
item_index_from p i (suc n) (some q ∷ xs) =
    let rest = item_index_from p (i + 1) n xs in if q == p then ok (pos i) else rest

unfoldable pub get_item_index : ArrayList → Option Item → Run ℤ
unfolding item_index_from
get_item_index l none = ok alib_bad_arg
get_item_index l (some p) =
    if l.capacity == 0 then ok (negsuc 0) else item_index_from p 0 l.count (slots l)
