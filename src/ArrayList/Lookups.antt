-- ===== src/ArrayList/Lookups.antt =====
-- The functions that search a valid list, against its items in order.
use alib_c.Common.{
  ℕ, zero, suc, ◌+◌, ◌≤◌, ◌<◌, ◌≡◌, ◌≢◌, refl, sym, ap, ◌∙◌, inl, inr, Bool, Option, none, some,
  List, [], ◌∷◌, arith, length, get_elem?, leb, leb→le, ◌==◌, if◌then◌else◌, Bool-cases, ℤ, pos,
  negsuc,
}
use alib_c.Common.Run.{ok}
use alib_c.ArrayList.State.{Item, Slot, ArrayList, slots, items}
use alib_c.ArrayList.Edit.{set_max_cap}
use alib_c.ArrayList.Query.{
  first_from, get_first_item, find_from, find_item_by_value, index_from, get_by_index,
  item_index_from, get_item_index,
}
use alib_c.ArrayList.Invariant.{IsValid, length-items-le}
use alib_c.ArrayList.Loops.{nil_of_length}

first_from-items : (xs : List Slot) → first_from (length xs) xs ≡ ok (get_elem? (items xs) 0)
unfolding first_from
first_from-items [] = refl
first_from-items (none ∷ xs) = first_from-items xs
first_from-items (some p ∷ xs) = refl

-- ArrayList_get_first_item() gives the first item, and NULL if there is none.
pub get_first_item_lem :
    {l : ArrayList} → IsValid l → get_first_item l ≡ ok (get_elem? (items (slots l)) 0)
unfolding get_first_item
get_first_item_lem {l} v =
    ap (λ n. first_from n (slots l)) (sym v.allocated) ∙ first_from-items (slots l)

-- The first item that passes a test.
unfoldable pub find : (Item → Bool) → List Item → Option Item
find matches [] = none
find matches (p ∷ ps) = if matches p then some p else find matches ps

find_from-items :
    (matches : Item → Bool) (n : ℕ) (xs : List Slot)
    → n ≡ length (items xs)
    → find_from matches n xs ≡ ok (find matches (items xs))
unfolding find_from find
find_from-items matches zero xs e =
    ap (λ ps. ok (find matches ps)) (sym (nil_of_length (items xs) e))
find_from-items matches (suc n) [] e = absurd (omega arith)
find_from-items matches (suc n) (none ∷ xs) e = find_from-items matches (suc n) xs e
find_from-items matches (suc n) (some p ∷ xs) e = elim (Bool-cases (matches p)) [
  | inl hit ↦ rw hit
  | inr miss ↦ rw (miss, find_from-items matches n xs (omega arith))
]

-- ArrayList_find_item_by_value() gives the first item that the callback finds equal, and NULL if there
-- is none. It reads no slot behind the last item.
pub find_item_by_value_lem :
    {l : ArrayList} (matches : Item → Bool)
    → IsValid l
    → find_item_by_value l (some matches) ≡ ok (find matches (items (slots l)))
unfolding find_item_by_value
find_item_by_value_lem {l} matches v = find_from-items matches l.count (slots l) v.counted

index_from-items :
    (v : ℕ) (xs : List Slot) → index_from v (length xs) xs ≡ ok (get_elem? (items xs) v)
unfolding index_from
index_from-items v [] = refl
index_from-items v (none ∷ xs) = index_from-items v xs
index_from-items zero (some p ∷ xs) = refl
index_from-items (suc v) (some p ∷ xs) = index_from-items v xs

get_elem?-ge : (ps : List Item) (n : ℕ) → length ps ≤ n → get_elem? ps n ≡ none
get_elem?-ge [] n h = refl
get_elem?-ge (p ∷ ps) zero h = absurd (omega arith)
get_elem?-ge (p ∷ ps) (suc n) h = get_elem?-ge ps n (omega arith)

-- ArrayList_get_by_index() gives the item of that index among the items, and NULL past the last.
pub get_by_index_lem :
    {l : ArrayList} (n : ℕ) → IsValid l → get_by_index l n ≡ ok (get_elem? (items (slots l)) n)
unfolding get_by_index
get_by_index_lem {l} n v = elim (Bool-cases (leb l.count n)) [
  | inl past ↦ rw past (
      ap ok
        (sym (get_elem?-ge (items (slots l)) n (omega (arith, leb→le l.count n past, v.counted)))))
  | inr inside ↦
      rw inside
        (ap (λ k. index_from n k (slots l)) (sym v.allocated) ∙ index_from-items n (slots l))
]

-- The index of the first occurrence of `p`, counted from `i`, or -1.
unfoldable pub index_of : Item → ℕ → List Item → ℤ
index_of p i [] = negsuc 0
index_of p i (q ∷ ps) = if q == p then pos i else index_of p (i + 1) ps

item_index_from-items :
    (p : Item) (i n : ℕ) (xs : List Slot)
    → n ≡ length (items xs)
    → item_index_from p i n xs ≡ ok (index_of p i (items xs))
unfolding item_index_from index_of
item_index_from-items p i zero xs e =
    ap (λ ps. ok (index_of p i ps)) (sym (nil_of_length (items xs) e))
item_index_from-items p i (suc n) [] e = absurd (omega arith)
item_index_from-items p i (suc n) (none ∷ xs) e = item_index_from-items p i (suc n) xs e
item_index_from-items p i (suc n) (some q ∷ xs) e = elim (Bool-cases (q == p)) [
  | inl hit ↦ rw hit
  | inr miss ↦ rw (miss, item_index_from-items p (i + 1) n xs (omega arith))
]

-- ArrayList_get_item_index() gives the index of the item among the items, and -1 if it is not there. It
-- does not run past the array, though its slot counter stays 0.
pub get_item_index_lem :
    {l : ArrayList} (p : Item)
    → IsValid l
    → get_item_index l (some p) ≡ ok (index_of p 0 (items (slots l)))
unfolding get_item_index index_of
get_item_index_lem {l} p v = elim (Bool-cases (l.capacity == 0)) [
  | inl no_slots ↦
      let empty : items (slots l) ≡ [] =
        nil_of_length (items (slots l)) (ground (arith, length-items-le (slots l), v.allocated)) in
      rw (no_slots, empty)
  | inr slots_there ↦ rw slots_there (item_index_from-items p 0 l.count (slots l) v.counted)
]

-- ArrayList_set_max_cap() of a valid list leaves the maximum as it is, and with a value that is
-- neither 0 nor the capacity it leaves a list that is not valid.
pub set_max_cap-not-IsValid :
    {l : ArrayList} (n : ℕ)
    → IsValid l
    → 0 < n
    → n ≢ l.capacity
    → ((set_max_cap l n).max_cap ≡ l.max_cap) × (¬ IsValid (set_max_cap l n))
unfolding set_max_cap
set_max_cap-not-IsValid {l} n v h ne = (refl, λ v'. ground (arith, v.allocated, v'.allocated))
