-- ===== src/DListItem/Walk.antt =====
-- The walks of source/DListItem.c along the links of a list.
use alib_c.Common.{
  ℕ, zero, suc, ◌+◌, ◌<◌, ◌≡◌, refl, ap, ◌∙◌, true, false, some, List, [], ◌∷◌, ◌++◌, arith, length,
  ◌==◌,
}
use alib_c.Common.Run.{ok}
use alib_c.DListItem.{Node, Heap, first_from, get_first_item, last_from, get_last_item}
use alib_c.DListItem.Chain.{head, Chain, at-some}

-- The nodes at `zs`, each with the next one in front of it
abbrev pub Preds : Heap → List ℕ → Type 0
Preds h [] = Unit {0}
Preds h (z ∷ zs) = (0 < z) × ((n : Node) × (h z ≡ some n) × (n.prev ≡ head zs 0)) × Preds h zs

abbrev pub last : ℕ → List ℕ → ℕ
last x [] = x
last x (y ∷ ys) = last y ys

abbrev pub rev_onto : List ℕ → List ℕ → List ℕ
rev_onto [] zs = zs
rev_onto (x ∷ xs) zs = rev_onto xs (x ∷ zs)

pub length-rev_onto : (xs zs : List ℕ) → length (rev_onto xs zs) ≡ length xs + length zs
length-rev_onto [] zs = omega arith
length-rev_onto (x ∷ xs) zs = omega (arith, length-rev_onto xs (x ∷ zs))

last-rev_onto :
    (p : ℕ) (xs : List ℕ) (z : ℕ) (zs : List ℕ) → last p (rev_onto xs (z ∷ zs)) ≡ last z zs
last-rev_onto p [] z zs = refl
last-rev_onto p (x ∷ xs) z zs = last-rev_onto p xs x (z ∷ zs)

pub Preds-Chain :
    (h : Heap) (zs xs : List ℕ) (p : ℕ) (ys : List ℕ) (b : ℕ)
    → Preds h zs
    → Chain h (head zs 0) (xs ++ p ∷ ys) b
    → Preds h (p ∷ rev_onto xs zs)
Preds-Chain h zs [] p ys b c (here, (n, e, l, r), d) = (here, (n, e, l), c)
Preds-Chain h zs (x ∷ xs) p ys b c (here, (n, e, l, r), d) =
    Preds-Chain h (x ∷ zs) xs p ys b (here, (n, e, l), c) d

first_from_lem :
    (fuel : ℕ) (h : Heap) (z : ℕ) (zs : List ℕ)
    → Preds h (z ∷ zs)
    → length zs < fuel
    → first_from fuel h z ≡ ok (last z zs)
unfolding first_from
first_from_lem zero h z zs c k = absurd (omega arith)
first_from_lem (suc fuel) h z [] (here, (n, e, l), c) k =
    let stop : (n.prev == 0) ≡ true = ap (λ m. m == 0) l in rw (at-some h z n here e, stop) refl
first_from_lem (suc fuel) h z (y ∷ zs) (here, (n, e, l), c) k =
    let (there, _, _) = c in
    let go : (n.prev == 0) ≡ false =
      let some' : (y == 0) ≡ false = ground arith in ap (λ m. m == 0) l ∙ some' in
    rw (at-some h z n here e, go)
      (ap (first_from fuel h) l ∙ first_from_lem fuel h y zs c (omega arith))

last-rev_onto_nil : (p : ℕ) (xs : List ℕ) → last p (rev_onto xs []) ≡ head xs p
last-rev_onto_nil p [] = refl
last-rev_onto_nil p (x ∷ xs) = last-rev_onto p xs x []

-- DListItem_get_first_item() gives the first node of the list that an item belongs to, with as much fuel
-- as there are nodes up to the item.
pub get_first_item_lem :
    (fuel : ℕ) (h : Heap) (xs : List ℕ) (p : ℕ) (ys : List ℕ) (b : ℕ)
    → Chain h 0 (xs ++ p ∷ ys) b
    → length xs < fuel
    → get_first_item fuel h p ≡ ok (head xs p)
unfolding get_first_item
get_first_item_lem fuel h xs p ys b c k =
    let preds : Preds h (p ∷ rev_onto xs []) = Preds-Chain h [] xs p ys b tt c in
    let (here, _, _) = preds in
    let some' : (p == 0) ≡ false = ground arith in
    rw some' (
      first_from_lem fuel h p (rev_onto xs []) preds (omega (arith, length-rev_onto xs []))
      ∙ ap ok (last-rev_onto_nil p xs))

last_from_lem :
    (fuel : ℕ) (h : Heap) (a x : ℕ) (xs : List ℕ)
    → Chain h a (x ∷ xs) 0
    → length xs < fuel
    → last_from fuel h x ≡ ok (last x xs)
unfolding last_from
last_from_lem zero h a x xs c k = absurd (omega arith)
last_from_lem (suc fuel) h a x [] (here, (n, e, l, r), c) k =
    let stop : (n.next == 0) ≡ true = ap (λ m. m == 0) r in rw (at-some h x n here e, stop) refl
last_from_lem (suc fuel) h a x (y ∷ xs) (here, (n, e, l, r), c) k =
    let (there, _, _) = c in
    let some' : (y == 0) ≡ false = ground arith in
    let go : (n.next == 0) ≡ false = ap (λ m. m == 0) r ∙ some' in
    rw (at-some h x n here e, go)
      (ap (last_from fuel h) r ∙ last_from_lem fuel h x y xs c (omega arith))

-- What is left of a list from an item on
pub Chain-suffix :
    (h : Heap) (a : ℕ) (xs : List ℕ) (p : ℕ) (ys : List ℕ) (b : ℕ)
    → Chain h a (xs ++ p ∷ ys) b
    → (a' : ℕ) × Chain h a' (p ∷ ys) b
Chain-suffix h a [] p ys b c = (a, c)
Chain-suffix h a (x ∷ xs) p ys b (here, node, c) = Chain-suffix h x xs p ys b c

-- DListItem_get_last_item() gives the last node of the list that an item belongs to, with as much fuel as
-- there are nodes from the item on.
pub get_last_item_lem :
    (fuel : ℕ) (h : Heap) (a : ℕ) (xs : List ℕ) (p : ℕ) (ys : List ℕ)
    → Chain h a (xs ++ p ∷ ys) 0
    → length ys < fuel
    → get_last_item fuel h p ≡ ok (last p ys)
unfolding get_last_item
get_last_item_lem fuel h a xs p ys c k =
    let (a', d) = Chain-suffix h a xs p ys 0 c in
    let (here, _, _) = d in
    let some' : (p == 0) ≡ false = ground arith in rw some' (last_from_lem fuel h a' p ys d k)
