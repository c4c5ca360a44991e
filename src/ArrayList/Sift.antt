-- ===== src/ArrayList/Sift.antt =====
-- ArrayList_sift() as a whole, and ArrayList_contains() on a sifted list and on another.
use mathlib.Core.List.Perm
use mathlib.Core.List.{Perm}
use mathlib.Core.Path.{subst}
use alib_c.Common.{
  ℕ, zero, suc, ◌-◌, ◌≡◌, refl, sym, ap, ◌∙◌, inl, inr, Bool, false, ◌||◌, none, some, List, [],
  ◌∷◌, ◌++◌, append-nil, arith, length, map, replicate, ◌==◌, Bool-cases, length-append,
  length-replicate, alib_ok, Perm-length,
}
use alib_c.Common.Run.{ok}
use alib_c.ArrayList.State.{Item, Slot, ArrayList, slots, items}
use alib_c.ArrayList.Edit.{sift_loop, sift_end, sift}
use alib_c.ArrayList.Query.{contains, contains_from}
use alib_c.ArrayList.Invariant.{
  length-map, IsValid, length-items-le, items-append, items-map, items-replicate,
}
use alib_c.ArrayList.Loops.{nil_of_length}
use alib_c.ArrayList.Sifting.{Sifts, sift_loop-Sifts, sifted, all_free}

pub items-sifted : (ps : List Item) (n : ℕ) → items (sifted ps n) ≡ ps
items-sifted ps n =
    items-append (map some ps) (replicate n none)
    ∙ ap (λ is. items (map some ps) ++ is) (items-replicate n)
    ∙ append-nil (items (map some ps))
    ∙ items-map ps

-- A list whose items `ps` all stand in front of its free slots.
pub record Front (l : ArrayList) (ps : List Item) : Type 0 where
  pub free : ℕ
  pub layout : slots l ≡ sifted ps free

-- On a valid list ArrayList_sift() returns ALIB_OK, and the same items stand in front of all free
-- slots, in some order; count, capacity, maximum, validity and mutex are kept.
pub sift_lem :
    {l : ArrayList}
    → IsValid l
    → (l' : ArrayList) × (ps : List Item) × (sift l ≡ ok (alib_ok, l'))
      × IsValid l'
      × Front l' ps
      × Perm ps (items (slots l))
      × (l'.count ≡ l.count)
      × (l'.capacity ≡ l.capacity)
      × (l'.max_cap ≡ l.max_cap)
      × (l'.locked ≡ l.locked)
unfolding sift sift_end
sift_lem {l} v = elim (Bool-cases (l.count == 0)) [
  | inl none_held ↦
      let empty : items (slots l) ≡ [] =
        nil_of_length (items (slots l)) (ground (arith, v.counted)) in
      (
        l,
        [],
        rw none_held,
        v,
        record { free = length (slots l); layout = all_free (slots l) empty },
        subst (Perm []) (sym empty) (Perm.refl []),
        refl,
        refl,
        refl,
        refl,
      )
  | inr held ↦
      let loop : Sifts l.count 0 (l.capacity - 1) [] (slots l) 0 =
        sift_loop-Sifts l.count 0 (l.capacity - 1) [] (slots l) 0 refl v.counted
          (ground (arith, v.allocated, v.counted, length-items-le (slots l))) in
      let runs : sift_loop l.count 0 (l.capacity - 1) (slots l)
          ≡ ok (none, sifted loop.result loop.free) =
        ap (sift_loop l.count 0 (l.capacity - 1)) (sym (append-nil (slots l))) ∙ loop.runs in
      let l' : ArrayList = record l { list = some (sifted loop.result loop.free) } in
      (
        l',
        loop.result,
        rw (held, runs),
        record {
          allocated = omega (
            arith,
            length-append (map some loop.result) (replicate loop.free none),
            length-map loop.result,
            length-replicate {A = Slot} loop.free none,
            loop.len,
            v.allocated,
          );
          counted =
              v.counted
              ∙ sym (Perm-length loop.perm)
              ∙ ap length (sym (items-sifted loop.result loop.free));
          capped = v.capped;
          bounded = v.bounded;
        },
        record { free = loop.free; layout = refl },
        loop.perm,
        refl,
        refl,
        refl,
        refl,
      )
]

-- Whether some item passes a test.
unfoldable pub some_of : (Item → Bool) → List Item → Bool
some_of same [] = false
some_of same (p ∷ ps) = same p || some_of same ps

contains_from-map :
    (same : Item → Bool) (ps : List Item) (ys : List Slot)
    → contains_from same (length ps) (map some ps ++ ys) ≡ ok (some_of same ps)
unfolding contains_from some_of
contains_from-map same [] ys = refl
contains_from-map same (p ∷ ps) ys = elim (Bool-cases (same p)) [
  | inl e ↦ rw e
  | inr e ↦ rw (e, contains_from-map same ps ys)
]

-- On a valid list whose items stand in front of its free slots, as ArrayList_sift() leaves it,
-- ArrayList_contains() tells whether an item matches.
pub contains-Front :
    {l : ArrayList} {ps : List Item} (same : Item → Bool)
    → IsValid l
    → Front l ps
    → contains l (some same) ≡ ok (some_of same ps)
unfolding contains
contains-Front {l} {ps} same v f =
    let counted : l.count ≡ length ps =
      v.counted ∙ ap (λ xs. length (items xs)) f.layout ∙ ap length (items-sifted ps f.free) in
    rw (counted, f.layout) (contains_from-map same ps (replicate f.free none))

contains_from-free :
    (same : Item → Bool) (n : ℕ) (ys : List Slot)
    → contains_from same n (replicate n none ++ ys) ≡ ok false
unfolding contains_from
contains_from-free same zero ys = refl
contains_from-free same (suc n) ys = contains_from-free same n ys

-- ArrayList_contains() looks at the first `count` slots only: on a valid list whose items stand behind
-- that many free slots it answers that none matches, whatever they are.
pub contains_missed :
    {l : ArrayList} (same : Item → Bool) (ys : List Slot)
    → IsValid l
    → slots l ≡ replicate l.count none ++ ys
    → (contains l (some same) ≡ ok false) × (items (slots l) ≡ items ys)
unfolding contains
contains_missed {l} same ys v e = (
  ap (contains_from same l.count) e ∙ contains_from-free same l.count ys,
  ap items e
      ∙ items-append (replicate l.count none) ys
      ∙ ap (λ is. is ++ items ys) (items-replicate l.count),
)
