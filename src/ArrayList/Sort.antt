-- ===== src/ArrayList/Sort.antt =====
-- ArrayList_sort() on a valid list.
use alib_c.Common.{
  ℕ, ◌+◌, ◌≡◌, sym, ap, ◌∙◌, Option, none, some, List, [], ◌∷◌, arith, take, drop, map, length,
  replicate, alib_ok, length-append, zero, suc, append-nil, take-append_ge, drop-append_ge,
  Perm-length,
}
use mathlib.Core.List.Perm
use mathlib.Core.List.{Perm}
use alib_c.ArrayList.Loops.{nil_of_length}
use alib_c.Common.Run.{ok}
use alib_c.ArrayList.State.{Item, Slot, ArrayList, array, slots, items}
use alib_c.ArrayList.Invariant.{IsValid, length-map}
use alib_c.ArrayList.Sifting.{sifted}
use alib_c.ArrayList.Sift.{Front, sift_lem, items-sifted}
use alib_c.ArrayList.Access.{sort_with, sorted_slots}

-- What the code relies on: qsort() puts items, none of them NULL, into an order that satisfies
-- `Ordered`.
pub record Sorts (qsort : List Slot → List Slot) (Ordered : List Item → Type 0) : Type 0 where
  pub order : List Item → List Item
  pub on_items : (ps : List Item) → qsort (map some ps) ≡ map some (order ps)
  pub perm : (ps : List Item) → Perm (order ps) ps
  pub ordered : (ps : List Item) → Ordered (order ps)

length-sifted :
    (ps qs : List Item) (k : ℕ)
    → length qs ≡ length ps
    → length (sifted ps k) ≡ length (sifted qs k)
length-sifted ps qs k e = omega (
  arith,
  length-append (map some ps) (replicate k none),
  length-append (map some qs) (replicate k none),
  length-map ps,
  length-map qs,
)

sorted_slots-sifted :
    {qsort : List Slot → List Slot} {Ordered : List Item → Type 0}
    → (s : Sorts qsort Ordered) (list : Option (List Slot)) (ps : List Item) (k : ℕ)
    → array list ≡ sifted ps k
    → array (sorted_slots qsort (length ps) list) ≡ sifted (s.order ps) k
unfolding sorted_slots
sorted_slots-sifted s none [] zero e =
    let empty : s.order [] ≡ [] = nil_of_length (s.order []) (sym (Perm-length (s.perm []))) in
    sym (ap (λ ps. sifted ps 0) empty)
sorted_slots-sifted s none [] (suc k) e = cc
sorted_slots-sifted s none (p ∷ ps) k e = cc
sorted_slots-sifted {qsort} s (some xs) ps k e =
    let n : ℕ = length ps in
    let all : n ≡ length (map some ps) + 0 = omega (arith, length-map ps) in
    let front : take n xs ≡ map some ps =
      ap (take n) e
      ∙ take-append_ge n 0 (map some ps) (replicate k none) all
      ∙ append-nil (map some ps) in
    let back : drop n xs ≡ replicate k none =
      ap (drop n) e ∙ drop-append_ge n 0 (map some ps) (replicate k none) all in
    rw (front, back, s.on_items ps)

-- On a valid list ArrayList_sort() returns ALIB_OK, if qsort() orders items that are not NULL: the same
-- items stand in that order in front of all free slots, and the list stays valid.
pub sort_with-Front :
    {qsort : List Slot → List Slot} {Ordered : List Item → Type 0} {l : ArrayList}
    → Sorts qsort Ordered
    → IsValid l
    → (l' : ArrayList) × (ps : List Item) × (sort_with qsort l ≡ ok (alib_ok, l'))
      × IsValid l'
      × Front l' ps
      × Ordered ps
      × Perm ps (items (slots l))
      × (l'.count ≡ l.count)
      × (l'.max_cap ≡ l.max_cap)
      × (l'.locked ≡ l.locked)
unfolding sort_with
sort_with-Front {qsort} {Ordered} {l} s v =
    let (l₁, ps, runs, v₁, front, perm, count, capacity, max_cap, locked) = sift_lem v in
    let all : l₁.count ≡ length ps =
      v₁.counted
      ∙ ap (λ xs. length (items xs)) front.layout
      ∙ ap length (items-sifted ps front.free) in
    let l' : ArrayList = record l₁ { list = sorted_slots qsort l₁.count l₁.list } in
    let layout : slots l' ≡ sifted (s.order ps) front.free =
      ap (λ n. array (sorted_slots qsort n l₁.list)) all
      ∙ sorted_slots-sifted s l₁.list ps front.free front.layout in
    let same : length (s.order ps) ≡ length ps = Perm-length (s.perm ps) in
    let size : length (slots l') ≡ length (slots l₁) =
      ap length layout
      ∙ sym (length-sifted ps (s.order ps) front.free same)
      ∙ sym (ap length front.layout) in
    (
      l',
      s.order ps,
      rw runs,
      record {
        allocated = size ∙ v₁.allocated;
        counted =
            all
            ∙ sym same
            ∙ sym (
                ap (λ xs. length (items xs)) layout
                ∙ ap length (items-sifted (s.order ps) front.free));
        capped = v₁.capped;
        bounded = v₁.bounded;
      },
      record { free = front.free; layout = layout },
      s.ordered ps,
      Perm.trans (s.perm ps) perm,
      count,
      max_cap,
      locked,
    )
