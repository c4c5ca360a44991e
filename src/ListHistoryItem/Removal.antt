-- ===== src/ListHistoryItem/Removal.antt =====
-- Finding and removing an item of source/ListHistoryItem.c.
use alib_c.Common.{ℕ, ◌≡◌, refl, ap, ◌∙◌, true, false, Option, some, List, [], ◌∷◌, ◌++◌, ◌==◌}
use alib_c.Common.{pos}
use alib_c.ListHistoryItem.{
  ListHistoryItem, finds, find, find_from, find_one_before, before_from, handed, del, remove,
  remove_behind,
}

-- The items compare alike, by one comparison.
abbrev pub Alike : (Option ℕ → Option ℕ → ℕ) → List ListHistoryItem → Type 0
Alike compare [] = Unit {0}
Alike compare (x ∷ xs) = (x.compare ≡ compare) × Alike compare xs

-- No item is equal to the thing.
abbrev pub NoneEqual : (Option ℕ → Option ℕ → ℕ) → Option ℕ → List ListHistoryItem → Type 0
NoneEqual compare item [] = Unit {0}
NoneEqual compare item (x ∷ xs) =
    ((compare x.list_item item == 0) ≡ false) × NoneEqual compare item xs

-- The last item of a list and those from `y` on
abbrev pub from_last : List ListHistoryItem → List ListHistoryItem → List ListHistoryItem
from_last [] rest = []
from_last (x ∷ []) rest = x ∷ rest
from_last (x ∷ y ∷ xs) rest = from_last (y ∷ xs) rest

module _ (compare : Option ℕ → Option ℕ → ℕ) (p : ℕ) (y : ListHistoryItem)
    (post : List ListHistoryItem) (equal : (compare y.list_item (some p) == 0) ≡ true) where
  remove_behind_lem :
      (x : ListHistoryItem) (pre : List ListHistoryItem)
      → x.compare ≡ compare
      → Alike compare pre
      → NoneEqual compare (some p) pre
      → remove_behind x (pre ++ y ∷ post) (some p) ≡ (pos 0, x ∷ pre ++ post, handed y)
  unfolding remove_behind del
  remove_behind_lem x [] e alike differ = rw (e, equal) refl
  remove_behind_lem x (z ∷ pre) e (ez, alike) (d, differ) =
      rw (e, d, remove_behind_lem z pre ez alike differ) refl

  before_from_lem :
      (x : ListHistoryItem) (pre : List ListHistoryItem)
      → x.compare ≡ compare
      → Alike compare pre
      → NoneEqual compare (some p) pre
      → before_from x (pre ++ y ∷ post) (some p) ≡ from_last (x ∷ pre) (y ∷ post)
  unfolding before_from
  before_from_lem x [] e alike differ = rw (e, equal) refl
  before_from_lem x (z ∷ pre) e (ez, alike) (d, differ) =
      rw (e, d) (before_from_lem z pre ez alike differ)

  find_from_lem :
      (pre : List ListHistoryItem)
      → y.compare ≡ compare
      → Alike compare pre
      → NoneEqual compare (some p) pre
      → find_from (pre ++ y ∷ post) (some p) ≡ y ∷ post
  unfolding find_from
  find_from_lem [] e alike differ = rw (e, equal) refl
  find_from_lem (z ∷ pre) e (ez, alike) (d, differ) = rw (ez, d) (find_from_lem pre e alike differ)

  -- When the items compare alike, and `y` is the first one that is equal to the thing, then Find()
  -- returns the list from `y` on, Find_One_Before() the list from the item in front of it on, or NULL, and
  -- Remove() takes out `y` alone, hands it to its callback and returns 0.
  pub remove_first_equal :
      (pre : List ListHistoryItem)
      → y.compare ≡ compare
      → Alike compare pre
      → NoneEqual compare (some p) pre
      → (find (pre ++ y ∷ post) (some p) ≡ y ∷ post)
        × (find_one_before (pre ++ y ∷ post) (some p) ≡ from_last pre (y ∷ post))
        × (remove (pre ++ y ∷ post) (some p) ≡ (pos 0, pre ++ post, handed y))
  unfolding find find_one_before remove del
  remove_first_equal [] e alike differ =
      (find_from_lem [] e alike differ, rw (e, equal) refl, rw (e, equal) refl)
  remove_first_equal (x ∷ pre) e (ex, alike) (d, differ) =
      let other : finds x x.list_item (some p) ≡ false =
        ap (λ c. c x.list_item (some p) == 0) ex ∙ d in
      (
        find_from_lem (x ∷ pre) e (ex, alike) (d, differ),
        rw other (before_from_lem x pre ex alike differ),
        rw other (remove_behind_lem x pre ex alike differ),
      )
