-- ===== src/ArrayList/Removing.antt =====
-- ArrayList_remove(), ArrayList_remove_no_free() and ArrayList_clear().
use alib_c.Common.{
  ℕ, ◌+◌, ◌<◌, ◌≡◌, refl, sym, ap, inl, inr, Bool, true, false, Option, none, some, List, [], ◌∷◌,
  arith, length, set, length-set, sub_size, lt_of_get_elem?, get_elem?, zero, suc, ◌==◌, ltb,
  if◌then◌else◌, Bool-cases,
}
use mathlib.Core.Path.{subst}
use alib_c.Common.Run.{Run, ok, ◌>>=◌}
use alib_c.ArrayList.State.{
  Item, Slot, ArrayList, slots, array, items, handed, is_item, search_from,
}
use alib_c.ArrayList.Edit.{
  put, slot_item, remove_by_ptr, remove_by_ptr_no_free, remove, remove_no_free, clear,
}
use alib_c.ArrayList.Invariant.{IsValid, count-le-capacity}
use alib_c.ArrayList.Loops.{
  erase, has, length-erase, Search, absent, found, Search-is_item, null_items-all, nil_of_length,
}

-- A list with other items in the same memory.
pub record Kept (l l' : ArrayList) : Type 0 where
  pub valid : IsValid l'
  pub capacity : l'.capacity ≡ l.capacity
  pub max_cap : l'.max_cap ≡ l.max_cap
  pub locked : l'.locked ≡ l.locked

pub put-ok :
    (xs : Option (List Slot)) (i : ℕ) (x : Slot)
    → i < length (array xs)
    → put xs i x ≡ ok (set (array xs) i x)
unfolding put
put-ok none i x h = absurd (omega arith)
put-ok (some xs) i x h = let inside : ltb i (length xs) ≡ true = ground arith in rw inside

Search-in :
    {l : ArrayList} (p : Item)
    → IsValid l
    → Search p (slots l) 0 (search_from (is_item p) l.capacity 0 (slots l))
Search-in {l} p v =
    subst (λ n. Search p (slots l) 0 (search_from (is_item p) n 0 (slots l))) v.allocated
      (Search-is_item (slots l) 0 p)

-- The list without the item of slot `i`.
abbrev without : ArrayList → ℕ → ArrayList
without l i = record l { list = some (set (slots l) i none); count = sub_size l.count 1 }

without-Kept :
    {l : ArrayList} (p : Item) (i : ℕ)
    → IsValid l
    → items (set (slots l) i none) ≡ erase p (items (slots l))
    → has p (items (slots l)) ≡ true
    → Kept l (without l i)
without-Kept {l} p i v e h =
    let fewer = length-erase p (items (slots l)) h in
    let held = count-le-capacity v in
    record {
      valid = omega (arith, length-set (slots l) i none, ap length e, fewer, held);
      capacity = refl;
      max_cap = refl;
      locked = refl;
    }

unchanged-Kept : {l : ArrayList} → IsValid l → Kept l l
unchanged-Kept v = record { valid = v; capacity = refl; max_cap = refl; locked = refl }

-- What ArrayList_remove() hands to `free_item`.
abbrev pub removed : ArrayList → Item → List Item
removed l p = handed l.frees (if has p (items (slots l)) then p ∷ [] else [])

handed-nil : (frees : Bool) → handed frees [] ≡ []
handed-nil true = refl
handed-nil false = refl

-- On a valid list ArrayList_remove() removes the first slot that holds the item and hands the item to
-- `free_item`, or does nothing if no slot holds it; the list stays valid.
pub remove-erase :
    {l : ArrayList} (p : Item)
    → IsValid l
    → (l' : ArrayList) × (remove l (some p) ≡ ok (l', removed l p))
      × Kept l l'
      × (items (slots l') ≡ erase p (items (slots l)))
unfolding remove remove_by_ptr slot_item
remove-erase {l} p v = go (Search-in p v)
  where
    go :
        {r : Run (Option ℕ)}
        → Search p (slots l) 0 r
        → (l' : ArrayList) × ((r >>= remove_by_ptr l) ≡ ok (l', removed l p))
          × Kept l l'
          × (items (slots l') ≡ erase p (items (slots l)))
    go (absent h e s) = (l, rw (s, h, handed-nil l.frees), unchanged-Kept v, sym e)
    go (found i s g e h) =
        let first : 0 + i ≡ i = omega arith in
        (
          without l i,
          rw (s, first, put-ok l.list i none (lt_of_get_elem? (slots l) i g), g, h),
          without-Kept p i v e h,
          e,
        )

-- On a valid list ArrayList_remove_no_free() removes the first slot that holds the item, or does
-- nothing if no slot holds it; the list stays valid.
pub remove_no_free-erase :
    {l : ArrayList} (p : Item)
    → IsValid l
    → (l' : ArrayList) × (remove_no_free l (some p) ≡ ok l')
      × Kept l l'
      × (items (slots l') ≡ erase p (items (slots l)))
unfolding remove_no_free remove_by_ptr_no_free
remove_no_free-erase {l} p v = go (Search-in p v)
  where
    go :
        {r : Run (Option ℕ)}
        → Search p (slots l) 0 r
        → (l' : ArrayList) × ((r >>= remove_by_ptr_no_free l) ≡ ok l')
          × Kept l l'
          × (items (slots l') ≡ erase p (items (slots l)))
    go (absent h e s) = (l, rw s, unchanged-Kept v, sym e)
    go (found i s g e h) =
        let first : 0 + i ≡ i = omega arith in
        (
          without l i,
          rw (s, first, put-ok l.list i none (lt_of_get_elem? (slots l) i g)),
          without-Kept p i v e h,
          e,
        )

-- ArrayList_clear() removes all items of a valid list, hands them to `free_item` in order, and
-- leaves the list valid, with its capacity.
pub clear_lem :
    {l : ArrayList}
    → IsValid l
    → (l' : ArrayList) × (clear l ≡ ok (l', handed l.frees (items (slots l))))
      × Kept l l'
      × (items (slots l') ≡ [])
unfolding clear
clear_lem {l} v =
    let (ys, runs, empty, len) = null_items-all (slots l) l.count v.counted in
    elim (Bool-cases (l.count == 0)) [
      | inl none_held ↦
          let empty' : items (slots l) ≡ [] = nil_of_length (items (slots l)) (ground arith) in
          (
            record l { list = l.list; count = 0 },
            rw (runs, none_held),
            record {
              valid = omega (arith, ap length empty');
              capacity = refl;
              max_cap = refl;
              locked = refl;
            },
            empty',
          )
      | inr held ↦ (
        record l { list = some ys; count = 0 },
        rw (runs, held),
        record {
          valid = omega (arith, ap length empty);
          capacity = refl;
          max_cap = refl;
          locked = refl;
        },
        empty,
      )
    ]

items-unset :
    (xs : List Slot) (i : ℕ) {p : Item}
    → get_elem? xs i ≡ some (some p)
    → length (items xs) ≡ length (items (set xs i none)) + 1
items-unset [] i e = cc
items-unset (none ∷ xs) zero e = cc
items-unset (some q ∷ xs) zero e = omega arith
items-unset (none ∷ xs) (suc i) e = items-unset xs i e
items-unset (some q ∷ xs) (suc i) e = omega (arith, items-unset xs i e)

-- On a valid list ArrayList_remove_by_ptr() of a slot that holds an item removes it and hands it to
-- `free_item`; ArrayList_remove_by_ptr_no_free() does the same, but for `free_item`.
pub remove_by_ptr-Kept :
    {l : ArrayList} (i : ℕ) {p : Item}
    → IsValid l
    → get_elem? (slots l) i ≡ some (some p)
    → (l' : ArrayList) × (remove_by_ptr l (some i) ≡ ok (l', handed l.frees (p ∷ [])))
      × (remove_by_ptr_no_free l (some i) ≡ ok l')
      × Kept l l'
unfolding remove_by_ptr remove_by_ptr_no_free slot_item
remove_by_ptr-Kept {l} i v held =
    let writes = put-ok l.list i none (lt_of_get_elem? (slots l) i held) in
    (
      without l i,
      rw (writes, held) refl,
      rw writes refl,
      record {
        valid =
            omega (
              arith,
              length-set (slots l) i none,
              items-unset (slots l) i held,
              count-le-capacity v,
            );
        capacity = refl;
        max_cap = refl;
        locked = refl;
      },
    )
