-- ===== src/DListItem/Counts.antt =====
-- DListItem_count(), DListItem_get() and DListItem_index() on a list.
use alib_c.Common.{
  ℕ, zero, suc, ◌+◌, ◌-◌, ◌^◌, ◌≤◌, ◌<◌, ◌≡◌, ◌≢◌, refl, sym, ap, ap₂, ◌∙◌, inl, inr, Bool-cases,
  true, false, some, List, [], ◌∷◌, ◌++◌, arith, length, length-append, get_elem?, ltb, ◌==◌,
  add_size, pos,
}
use mathlib.Core.Path.{subst}
use mathlib.Core.Option.{some-injective}
use alib_c.Common.Run.{ok}
use alib_c.DListItem.{Heap}
use alib_c.DListItem.Lookup.{forward, get, count_back, count_on, count, index_from, index}
use alib_c.DListItem.Chain.{head, Chain, Avoids, at-some}
use alib_c.DListItem.Walk.{
  Preds, Preds-Chain, rev_onto, length-rev_onto, last, Chain-suffix, get_first_item_lem,
}

differ : (x y : ℕ) → x ≢ y → (x == y) ≡ false
differ x y ne = elim (Bool-cases (x == y)) [
  | inr other ↦ other
  | inl same ↦ let e : x ≡ y = ground arith in absurd (ne e)
]

head-append : (xs : List ℕ) (p : ℕ) (ys : List ℕ) → head (xs ++ p ∷ ys) 0 ≡ head xs p
head-append [] p ys = refl
head-append (x ∷ xs) p ys = refl

positive : (p : ℕ) → 0 < p → (p == 0) ≡ false
positive p h = ground arith

count_on_lem :
    (fuel : ℕ) (h : Heap) (a : ℕ) (xs : List ℕ) (c : ℕ)
    → Chain h a xs 0
    → length xs ≤ fuel
    → c + length xs < 2 ^ 64
    → count_on fuel h (head xs 0) c ≡ ok (c + length xs)
unfolding count_on
count_on_lem zero h a [] c chain k small = ap ok (omega arith)
count_on_lem zero h a (x ∷ xs) c chain k small = absurd (omega arith)
count_on_lem (suc fuel) h a [] c chain k small = ap ok (omega arith)
count_on_lem (suc fuel) h a (x ∷ xs) c (here, (n, e, l, r), chain) k small =
    let sum : add_size c 1 ≡ c + 1 = omega arith in
    let total : c + 1 + length xs ≡ c + suc (length xs) = omega arith in
    rw (positive x here, e, r, sum)
      (count_on_lem fuel h x xs (c + 1) chain (omega arith) (omega arith) ∙ ap ok total)

count_back_lem :
    (fuel : ℕ) (h : Heap) (zs : List ℕ) (c : ℕ)
    → Preds h zs
    → length zs ≤ fuel
    → c + length zs < 2 ^ 64
    → count_back fuel h (head zs 0) c ≡ ok (c + length zs)
unfolding count_back
count_back_lem zero h [] c preds k small = ap ok (omega arith)
count_back_lem zero h (z ∷ zs) c preds k small = absurd (omega arith)
count_back_lem (suc fuel) h [] c preds k small = ap ok (omega arith)
count_back_lem (suc fuel) h (z ∷ zs) c (here, (n, e, l), preds) k small =
    let sum : add_size c 1 ≡ c + 1 = omega arith in
    let total : c + 1 + length zs ≡ c + suc (length zs) = omega arith in
    rw (positive z here, e, l, sum)
      (count_back_lem fuel h zs (c + 1) preds (omega arith) (omega arith) ∙ ap ok total)

-- DListItem_count() of any item counts the nodes of its whole list, with as much fuel as it has nodes.
pub count_lem :
    (fuel : ℕ) (h : Heap) (xs : List ℕ) (p : ℕ) (ys : List ℕ)
    → Chain h 0 (xs ++ p ∷ ys) 0
    → length (xs ++ p ∷ ys) ≤ fuel
    → length (xs ++ p ∷ ys) < 2 ^ 64
    → count fuel h p ≡ ok (length (xs ++ p ∷ ys))
unfolding count
count_lem fuel h xs p ys c k small =
    let size : length (xs ++ p ∷ ys) ≡ length xs + suc (length ys) = length-append xs (p ∷ ys) in
    let (a', d) = Chain-suffix h 0 xs p ys 0 c in
    let (here, (n, e, l), preds) = Preds-Chain h [] xs p ys 0 tt c in
    let zs = rev_onto xs [] in
    let before : length zs ≡ length xs + 0 = length-rev_onto xs [] in
    let back : count_back fuel h (head zs 0) 0 ≡ ok (0 + length zs) =
      count_back_lem fuel h zs 0 preds (omega (arith, size, before))
        (omega (arith, size, before)) in
    let on : count_on fuel h p (0 + length zs) ≡ ok (0 + length zs + suc (length ys)) =
      count_on_lem fuel h a' (p ∷ ys) (0 + length zs) d (omega (arith, size))
        (omega (arith, size, before)) in
    let total : 0 + length zs + suc (length ys) ≡ length (xs ++ p ∷ ys) =
      omega (arith, size, before) in
    rw (positive p here, e, l, back) (on ∙ ap ok total)

forward_lem :
    (h : Heap) (a x : ℕ) (xs : List ℕ) (i q : ℕ)
    → Chain h a (x ∷ xs) 0
    → get_elem? (x ∷ xs) i ≡ some q
    → forward h x i ≡ ok (q, 0)
unfolding forward
forward_lem h a x xs zero q c e =
    let same : x ≡ q = some-injective x q e in ap (λ p. ok (p, 0)) same
forward_lem h a x [] (suc i) q c e = cc
forward_lem h a x (y ∷ xs) (suc i) q (here, (n, f, l, r), c) e =
    let (there, _, _) = c in
    let go : (n.next == 0) ≡ false = ap (λ m. m == 0) r ∙ positive y there in
    rw (at-some h x n here f, go) (ap (λ m. forward h m i) r ∙ forward_lem h x y xs i q c e)

forward_beyond :
    (h : Heap) (a x : ℕ) (xs : List ℕ) (i : ℕ)
    → Chain h a (x ∷ xs) 0
    → length xs ≤ i
    → forward h x i ≡ ok (last x xs, i - length xs)
unfolding forward
forward_beyond h a x [] zero c k = ap (λ m. ok (x, m)) (omega arith)
forward_beyond h a x (y ∷ xs) zero c k = absurd (omega arith)
forward_beyond h a x [] (suc i) (here, (n, f, l, r), c) k =
    let stop : (n.next == 0) ≡ true = ap (λ m. m == 0) r in
    let all : suc i ≡ suc i - 0 = omega arith in
    rw (at-some h x n here f, stop) (ap (λ m. ok (x, m)) all)
forward_beyond h a x (y ∷ xs) (suc i) (here, (n, f, l, r), c) k =
    let (there, _, _) = c in
    let go : (n.next == 0) ≡ false = ap (λ m. m == 0) r ∙ positive y there in
    let less : i - length xs ≡ suc i - suc (length xs) = omega arith in
    rw (at-some h x n here f, go)
      (ap (λ m. forward h m i) r
        ∙ forward_beyond h x y xs i c (omega arith)
        ∙ ap (λ m. ok (last y xs, m)) less)

-- The front of the list that an item belongs to
front :
    (xs : List ℕ) (p : ℕ) (ys : List ℕ)
    → (x : ℕ) × (zs : List ℕ) × (xs ++ p ∷ ys ≡ x ∷ zs) × (head xs p ≡ x)
front [] p ys = (p, ys, refl, refl)
front (x ∷ xs) p ys = (x, xs ++ p ∷ ys, refl, refl)

get_start :
    (fuel : ℕ) (h : Heap) (xs : List ℕ) (p : ℕ) (ys : List ℕ) (i : ℕ)
    → Chain h 0 (xs ++ p ∷ ys) 0
    → length xs < fuel
    → get fuel h p i ≡ forward h (head xs p) i
unfolding get
get_start fuel h xs p ys i c k =
    let (a', d) = Chain-suffix h 0 xs p ys 0 c in
    let (here, _, _) = d in rw (positive p here, get_first_item_lem fuel h xs p ys 0 c k) refl

-- DListItem_get() of any item of a list gives the item at an index of the list, whose excess is 0.
pub get_lem :
    (fuel : ℕ) (h : Heap) (xs : List ℕ) (p : ℕ) (ys : List ℕ) (i q : ℕ)
    → Chain h 0 (xs ++ p ∷ ys) 0
    → length xs < fuel
    → get_elem? (xs ++ p ∷ ys) i ≡ some q
    → get fuel h p i ≡ ok (q, 0)
get_lem fuel h xs p ys i q c k e =
    let (x, zs, split, start) = front xs p ys in
    let here : get_elem? (x ∷ zs) i ≡ some q = ap (λ l. get_elem? l i) (sym split) ∙ e in
    get_start fuel h xs p ys i c k
    ∙ ap (λ m. forward h m i) start
    ∙ forward_lem h 0 x zs i q (subst (λ l. Chain h 0 l 0) split c) here

last-append : (x : ℕ) (xs : List ℕ) (p : ℕ) (ys : List ℕ) → last x (xs ++ p ∷ ys) ≡ last p ys
last-append x [] p ys = refl
last-append x (y ∷ xs) p ys = last-append y xs p ys

front_last :
    (xs : List ℕ) (p : ℕ) (ys : List ℕ) (x : ℕ) (zs : List ℕ)
    → xs ++ p ∷ ys ≡ x ∷ zs
    → last x zs ≡ last p ys
front_last xs p ys x zs e = ap (last 0) (sym e) ∙ last-append 0 xs p ys

-- DListItem_get() at an index beyond the list gives the last item, and how far the index exceeds that
-- item's.
pub get_beyond :
    (fuel : ℕ) (h : Heap) (xs : List ℕ) (p : ℕ) (ys : List ℕ) (i : ℕ)
    → Chain h 0 (xs ++ p ∷ ys) 0
    → length xs < fuel
    → length (xs ++ p ∷ ys) ≤ i
    → get fuel h p i ≡ ok (last p ys, i + 1 - length (xs ++ p ∷ ys))
get_beyond fuel h xs p ys i c k l =
    let (x, zs, split, start) = front xs p ys in
    let size : length (xs ++ p ∷ ys) ≡ suc (length zs) = ap length split in
    let less : i - length zs ≡ i + 1 - length (xs ++ p ∷ ys) = omega (arith, size) in
    get_start fuel h xs p ys i c k
    ∙ ap (λ m. forward h m i) start
    ∙ forward_beyond h 0 x zs i (subst (λ l'. Chain h 0 l' 0) split c) (omega (arith, size))
    ∙ ap₂ (λ q m. ok (q, m)) (front_last xs p ys x zs split) less

index_from_lem :
    (fuel : ℕ) (h : Heap) (a : ℕ) (xs : List ℕ) (p : ℕ) (ys : List ℕ) (i : ℕ)
    → Chain h a (xs ++ p ∷ ys) 0
    → Avoids p xs
    → length xs ≤ fuel
    → i + length xs < 2 ^ 31
    → index_from fuel h (head xs p) p i ≡ ok (pos (i + length xs))
unfolding index_from
index_from_lem zero h a [] p ys i c av k small =
    let same : (p == p) ≡ true = ground arith in rw same (ap (λ n. ok (pos n)) (omega arith))
index_from_lem zero h a (x ∷ xs) p ys i c av k small = absurd (omega arith)
index_from_lem (suc fuel) h a [] p ys i c av k small =
    let same : (p == p) ≡ true = ground arith in rw same (ap (λ n. ok (pos n)) (omega arith))
index_from_lem (suc fuel) h a (x ∷ xs) p ys i (here, (n, e, l, r), c) (ne, av) k small =
    let other : (x == p) ≡ false = differ x p (λ q. ne (sym q)) in
    let below : ltb (i + 1) (2 ^ 31) ≡ true = ground arith in
    let total : i + 1 + length xs ≡ i + suc (length xs) = omega arith in
    rw (other, at-some h x n here e, below)
      (ap (λ m. index_from fuel h m p (i + 1)) (r ∙ head-append xs p ys)
        ∙ index_from_lem fuel h x xs p ys (i + 1) c av (omega arith) (omega arith)
        ∙ ap (λ m. ok (pos m)) total)

-- DListItem_index() gives the number of nodes in front of an item that is none of them, where it is an int.
pub index_lem :
    (fuel : ℕ) (h : Heap) (xs : List ℕ) (p : ℕ) (ys : List ℕ)
    → Chain h 0 (xs ++ p ∷ ys) 0
    → Avoids p xs
    → length xs < fuel
    → length xs < 2 ^ 31
    → index fuel h p ≡ ok (pos (length xs))
unfolding index
index_lem fuel h xs p ys c av k small =
    let (a', d) = Chain-suffix h 0 xs p ys 0 c in
    let (here, _, _) = d in
    let none' : 0 + length xs ≡ length xs = omega arith in
    rw (positive p here, get_first_item_lem fuel h xs p ys 0 c k)
      (index_from_lem fuel h 0 xs p ys 0 c av (omega arith) (omega arith)
        ∙ ap (λ m. ok (pos m)) none')
