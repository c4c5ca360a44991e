-- ===== src/ArrayList/Invariant.antt =====
-- The representation invariant of `struct ArrayList`.
use alib_c.Common.{
  Bool, true, ℕ, suc, ◌≤◌, ◌<◌, ◌^◌, ◌≡◌, none, some, List, [], ◌∷◌, ◌++◌, arith, length, map,
  replicate, zero, refl, ap,
}
use alib_c.ArrayList.State.{Item, Slot, ArrayList, slots, items}

-- The array has `capacity` slots, `count` of which hold an item, and fits under the maximum.
pub record IsValid (l : ArrayList) : Type 0 where
  pub allocated : length (slots l) ≡ l.capacity
  pub counted : l.count ≡ length (items (slots l))
  pub capped : l.capacity ≤ l.max_cap
  pub bounded : (0 < l.max_cap) × (l.max_cap < 2 ^ 64)

-- Every allocation succeeds.
abbrev pub Roomy : (ℕ → Bool) → Type 0
Roomy room = (n : ℕ) → room n ≡ true

pub length-items-le : (xs : List Slot) → length (items xs) ≤ length xs
length-items-le [] = omega arith
length-items-le (none ∷ xs) = omega (arith, length-items-le xs)
length-items-le (some p ∷ xs) = omega (arith, length-items-le xs)

pub count-le-capacity : {l : ArrayList} → IsValid l → l.count ≤ l.capacity
count-le-capacity {l} v = omega (arith, length-items-le (slots l))

pub items-append : (xs ys : List Slot) → items (xs ++ ys) ≡ items xs ++ items ys
items-append [] ys = refl
items-append (none ∷ xs) ys = items-append xs ys
items-append (some p ∷ xs) ys = ap (◌∷◌ p) (items-append xs ys)

pub items-replicate : (n : ℕ) → items (replicate n none) ≡ []
items-replicate zero = refl
items-replicate (suc n) = items-replicate n

pub items-map : (ps : List Item) → items (map some ps) ≡ ps
items-map [] = refl
items-map (p ∷ ps) = ap (◌∷◌ p) (items-map ps)

pub length-map : (ps : List Item) → length (map some ps) ≡ length ps
length-map [] = refl
length-map (p ∷ ps) = ap suc (length-map ps)
