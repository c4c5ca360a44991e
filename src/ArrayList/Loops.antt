-- ===== src/ArrayList/Loops.antt =====
-- What the loops over the array do on one that is long enough.
use mathlib.Core.Path.{subst}
use mathlib.Core.List.Perm
use mathlib.Core.List.{Perm}
use alib_c.Common.{
  ℕ, zero, suc, ◌+◌, ◌≤◌, ◌<◌, ◌≡◌, refl, sym, ap, ◌∙◌, inl, inr, Bool, true, false, Option, none,
  some, List, [], ◌∷◌, arith, length, take, drop, set, get_elem?, ◌==◌, if◌then◌else◌, Bool-cases,
}
use alib_c.Common.Run.{Run, ok}
use alib_c.ArrayList.State.{
  Item, Slot, items, is_item, is_null, search_from, next_items, null_items,
}

-- The list without the first occurrence of `p`.
unfoldable pub erase : Item → List Item → List Item
erase p [] = []
erase p (q ∷ ps) = if q == p then ps else q ∷ erase p ps

unfoldable pub has : Item → List Item → Bool
has p [] = false
has p (q ∷ ps) = if q == p then true else has p ps

-- A search for a free slot finds one unless every slot holds an item; an item put there joins the
-- others.
pub Search-is_null :
    (xs : List Slot) (j : ℕ) (p : Item)
    → length (items xs) < length xs
    → (i : ℕ) × (search_from is_null (length xs) j xs ≡ ok (some (j + i)))
      × Perm (items (set xs i (some p))) (p ∷ items xs)
unfolding search_from
Search-is_null [] j p h = absurd (omega arith)
Search-is_null (none ∷ xs) j p h = (0, ap (λ k. ok (some k)) (omega arith), Perm.refl _)
Search-is_null (some q ∷ xs) j p h =
    let (i, found, perm) = Search-is_null xs (j + 1) p (omega arith) in
    (
      suc i,
      found ∙ ap (λ k. ok (some k)) (omega arith),
      Perm.trans (Perm.cons q perm) (Perm.swap p q (items xs)),
    )

-- The outcome `r` of a search for the item `p` in `xs`, with `j` added to its index.
pub data Search (p : Item) (xs : List Slot) (j : ℕ) (r : Run (Option ℕ)) : Type 0 where
  absent : has p (items xs) ≡ false → erase p (items xs) ≡ items xs → r ≡ ok none → Search p xs j r
  found :
      (i : ℕ)
      → r ≡ ok (some (j + i))
      → get_elem? xs i ≡ some (some p)
      → items (set xs i none) ≡ erase p (items xs)
      → has p (items xs) ≡ true
      → Search p xs j r

-- The outcome one slot earlier, if that slot does not hold `p`.
Search-null :
    {p : Item} {xs : List Slot} {j : ℕ} {r : Run (Option ℕ)}
    → Search p xs (j + 1) r
    → Search p (none ∷ xs) j r
Search-null (absent h e q) = absent h e q
Search-null (found i q g e h) = found (suc i) (q ∙ ap (λ k. ok (some k)) (omega arith)) g e h

Search-other :
    {p q : Item} {xs : List Slot} {j : ℕ} {r : Run (Option ℕ)}
    → (q == p) ≡ false
    → Search p xs (j + 1) r
    → Search p (some q ∷ xs) j r
unfolding has erase
Search-other {q} ne (absent h e s) = absent (rw (ne, h)) (rw (ne, e)) s
Search-other {q} ne (found i s g e h) =
    found (suc i) (s ∙ ap (λ k. ok (some k)) (omega arith)) g (rw (ne, e)) (rw (ne, h))

-- A search for an item finds its first occurrence; without that slot the items are those of `erase`.
pub Search-is_item :
    (xs : List Slot) (j : ℕ) (p : Item) → Search p xs j (search_from (is_item p) (length xs) j xs)
unfolding search_from has erase
Search-is_item [] j p = absent refl refl refl
Search-is_item (none ∷ xs) j p = Search-null (Search-is_item xs (j + 1) p)
Search-is_item (some q ∷ xs) j p = elim (Bool-cases (q == p)) [
  | inl e ↦
      let same : q ≡ p = ground arith in
      found 0 (rw e (ap (λ k. ok (some k)) (omega arith))) (ap (λ x. some (some x)) same) (rw e)
        (rw e)
  | inr ne ↦
      subst (Search p (some q ∷ xs) j) (rw ne) (Search-other ne (Search-is_item xs (j + 1) p))
]

pub length-erase :
    (p : Item) (ps : List Item) → has p ps ≡ true → length ps ≡ length (erase p ps) + 1
unfolding has erase
length-erase p [] h = cc
length-erase p (q ∷ ps) h = ground (arith, length-erase p ps)

-- The next `n` items are a prefix of the items, and the rest of the array holds the others.
pub next_items-take :
    (n : ℕ) (xs : List Slot)
    → n ≤ length (items xs)
    → (rest : List Slot) × (next_items n xs ≡ ok (take n (items xs), rest))
      × (items rest ≡ drop n (items xs))
unfolding next_items
next_items-take zero xs h = (xs, refl, refl)
next_items-take (suc n) [] h = absurd (omega arith)
next_items-take (suc n) (none ∷ xs) h = next_items-take (suc n) xs h
next_items-take (suc n) (some p ∷ xs) h =
    let (rest, runs, left) = next_items-take n xs (omega arith) in (rest, rw runs, left)

pub nil_of_length : (ps : List Item) → 0 ≡ length ps → ps ≡ []
nil_of_length [] e = refl
nil_of_length (p ∷ ps) e = absurd (omega arith)

-- Setting all items to NULL empties the array and keeps its length.
pub null_items-all :
    (xs : List Slot) (n : ℕ)
    → n ≡ length (items xs)
    → (ys : List Slot) × (null_items n xs ≡ ok (ys, items xs))
      × (items ys ≡ [])
      × (length ys ≡ length xs)
unfolding null_items
null_items-all [] zero e = ([], refl, refl, refl)
null_items-all [] (suc n) e = absurd (omega arith)
null_items-all (none ∷ xs) zero e =
    let empty : items xs ≡ [] = nil_of_length (items xs) e in
    (none ∷ xs, ap (λ ps. ok (none ∷ xs, ps)) (sym empty), empty, refl)
null_items-all (none ∷ xs) (suc n) e =
    let (ys, runs, empty, len) = null_items-all xs (suc n) e in
    (none ∷ ys, rw runs, empty, ap suc len)
null_items-all (some p ∷ xs) zero e = absurd (omega arith)
null_items-all (some p ∷ xs) (suc n) e =
    let (ys, runs, empty, len) = null_items-all xs n (omega arith) in
    (none ∷ ys, rw runs, empty, ap suc len)
