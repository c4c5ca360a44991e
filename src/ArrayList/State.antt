-- ===== src/ArrayList/State.antt =====
-- includes/ArrayList_private.h: `struct ArrayList`, and the loops over its array that the functions of
-- source/ArrayList.c share. An item is the pointer that the client adds, never NULL.
use alib_c.Common.{
  ℕ, zero, suc, ◌+◌, Bool, true, false, Option, none, some, List, [], ◌∷◌, ◌==◌, if◌then◌else◌,
}
use alib_c.Common.Run.{Run, ok, fault, ◌>>=◌}

abbrev pub Item : Type 0
Item = ℕ

-- A slot of the array: NULL, or an item.
abbrev pub Slot : Type 0
Slot = Option Item

-- The mutex is modelled by whether it is held. `frees` says whether `free_item` is set.
pub record ArrayList : Type 0 where
  pub list : Option (List Slot)
  pub count : ℕ
  pub capacity : ℕ
  pub max_cap : ℕ
  pub frees : Bool
  pub use_mutex : Bool
  pub locked : Bool

-- The array; NULL has no slots.
abbrev pub array : Option (List Slot) → List Slot
array none = []
array (some xs) = xs

abbrev pub slots : ArrayList → List Slot
slots l = array l.list

-- The items in a stretch of the array, in order.
abbrev pub items : List Slot → List Item
items [] = []
items (none ∷ xs) = items xs
items (some p ∷ xs) = p ∷ items xs

-- What is handed to `free_item`, if it is set.
abbrev pub handed : Bool → List Item → List Item
handed frees ps = if frees then ps else []

abbrev pub is_item : Item → Slot → Bool
is_item p none = false
is_item p (some q) = q == p

abbrev pub is_null : Slot → Bool
is_null none = true
is_null (some p) = false

-- `for(n rounds; ++i) if(test(list[i])) …`: the first index at which the test holds. A read behind the
-- end of the array is a fault.
unfoldable pub search_from : (Slot → Bool) → ℕ → ℕ → List Slot → Run (Option ℕ)
search_from test zero i xs = ok none
search_from test (suc n) i [] = fault
search_from test (suc n) i (x ∷ xs) =
    let rest = search_from test n (i + 1) xs in if test x then ok (some i) else rest

-- `for(; n items to find; ++it) if(*it) …`: the next `n` items, and the array behind them.
unfoldable pub next_items : ℕ → List Slot → Run (List Item × List Slot)
next_items zero xs = ok ([], xs)
next_items (suc n) [] = fault
next_items (suc n) (none ∷ xs) = next_items (suc n) xs
next_items (suc n) (some p ∷ xs) = do (ps, rest) ← next_items n xs; ok (p ∷ ps, rest)

-- The same with each of these slots set to NULL: the array afterwards, and the items.
unfoldable pub null_items : ℕ → List Slot → Run (List Slot × List Item)
null_items zero xs = ok (xs, [])
null_items (suc n) [] = fault
null_items (suc n) (none ∷ xs) = do (ys, ps) ← null_items (suc n) xs; ok (none ∷ ys, ps)
null_items (suc n) (some p ∷ xs) = do (ys, ps) ← null_items n xs; ok (none ∷ ys, p ∷ ps)
