-- ===== src/ListHistoryItem/Freeing.antt =====
-- What becomes of the items of a list that newListHistoryItem() of source/ListHistoryItem.c has made.
use alib_c.Common.{
  ℕ, ◌≡◌, refl, sym, ap, ◌∙◌, Bool, true, false, Option, none, some, List, [], ◌∷◌, ◌++◌,
  append-nil, append_assoc, if◌then◌else◌,
}
use alib_c.ListHistoryItem.{ListHistoryItem, handed, del, fresh, new, free_all}

-- The arguments of a call of newListHistoryItem()
pub record Entry : Type 0 where
  pub item : Option ℕ
  pub callback : Bool
  pub compare_func : Option (Option ℕ → Option ℕ → ℕ)

-- The list after a call for each entry
abbrev pub add_all : Option (List ListHistoryItem) → List Entry → Option (List ListHistoryItem)
add_all xs [] = xs
add_all xs (a ∷ rest) = add_all (new true xs a.item a.callback a.compare_func).1 rest

abbrev pub freed : Option (List ListHistoryItem) → Option (List (Option ℕ))
freed none = none
freed (some xs) = some (free_all xs)

-- The items that have a callback
abbrev pub owned : List Entry → List (Option ℕ)
owned [] = []
owned (a ∷ rest) = if a.callback then a.item ∷ owned rest else owned rest

free_all-append :
    (xs : List ListHistoryItem) (x : ListHistoryItem)
    → free_all (xs ++ x ∷ []) ≡ free_all xs ++ handed x
unfolding free_all del
free_all-append [] x = append-nil (handed x)
free_all-append (y ∷ ys) x =
    rw (free_all-append ys x) (sym (append_assoc (handed y) (free_all ys) (handed x)))

owned_first :
    (item : Option ℕ) (callback : Bool) (compare_func : Option (Option ℕ → Option ℕ → ℕ))
    (es : List Entry)
    → handed (fresh item callback compare_func) ++ owned es
      ≡ owned (record { item = item; callback = callback; compare_func = compare_func } ∷ es)
unfolding fresh
owned_first item true compare_func es = refl
owned_first item false compare_func es = refl

freed-add_all :
    (xs : List ListHistoryItem) (es : List Entry)
    → freed (add_all (some xs) es) ≡ some (free_all xs ++ owned es)
unfolding new
freed-add_all xs [] = ap some (sym (append-nil (free_all xs)))
freed-add_all xs (a ∷ es) =
    let x : ListHistoryItem = fresh a.item a.callback a.compare_func in
    freed-add_all (xs ++ x ∷ []) es
    ∙ ap (λ ys. some (ys ++ owned es)) (free_all-append xs x)
    ∙ ap some (append_assoc (free_all xs) (handed x) (owned es))
    ∙ ap (λ ys. some (free_all xs ++ ys)) (owned_first a.item a.callback a.compare_func es)

-- A list that is made by any calls of newListHistoryItem() hands each item that has a callback to it
-- exactly once when ListHistoryItem_free_all() frees the list, the oldest first, and no other item.
pub free_all-new : (es : List Entry) → freed (add_all (some []) es) ≡ some (owned es)
unfolding free_all
free_all-new es = freed-add_all [] es
