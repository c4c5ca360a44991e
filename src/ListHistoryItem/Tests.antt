-- ===== src/ListHistoryItem/Tests.antt =====
-- source/ListHistoryItem.c on a list of three items that compare their numbers.
use alib_c.Common.{
  ℕ, ◌≡◌, refl, Bool, true, false, Option, none, some, [], ◌∷◌, ◌==◌, if◌then◌else◌,
}
use alib_c.Common.{pos}
use alib_c.ListHistoryItem.{ListHistoryItem, find, find_one_before, remove}
use alib_c.ListHistoryItem.Removal.{remove_first_equal}
use alib_c.ListHistoryItem.Freeing.{Entry, add_all, freed, free_all-new}

abbrev by_number : Option ℕ → Option ℕ → ℕ
by_number (some p) (some q) = if p == q then 0 else 1
by_number _ _ = 1

abbrev item : ℕ → ListHistoryItem
item n = record { list_item = some n; has_remove = true; compare = by_number }

abbrev entry : ℕ → Bool → Entry
entry n callback = record { item = some n; callback = callback; compare_func = none }

remove_first_equal_example :
    (find (item 4 ∷ item 5 ∷ item 6 ∷ []) (some 5) ≡ item 5 ∷ item 6 ∷ [])
    × (find_one_before (item 4 ∷ item 5 ∷ item 6 ∷ []) (some 5) ≡ item 4 ∷ item 5 ∷ item 6 ∷ [])
    × (remove (item 4 ∷ item 5 ∷ item 6 ∷ []) (some 5) ≡ (pos 0, item 4 ∷ item 6 ∷ [], some 5 ∷ []))
remove_first_equal_example =
    remove_first_equal by_number 5 (item 5) (item 6 ∷ []) refl (item 4 ∷ []) refl (refl, tt)
      (refl, tt)

free_all-new_example :
    freed (add_all (some []) (entry 7 true ∷ entry 8 false ∷ entry 9 true ∷ []))
    ≡ some (some 7 ∷ some 9 ∷ [])
free_all-new_example = free_all-new (entry 7 true ∷ entry 8 false ∷ entry 9 true ∷ [])
