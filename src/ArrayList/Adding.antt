-- ===== src/ArrayList/Adding.antt =====
-- ArrayList_add().
use mathlib.Core.List.{Perm, perm_append_comm}
use mathlib.Core.Path.{subst}
use alib_c.Common.{
  ℕ, suc, ◌+◌, ◌-◌, ◌<◌, ◌≡◌, refl, sym, ap, ◌∙◌, inl, inr, Bool, true, false, none, some, List, [],
  ◌∷◌, ◌++◌, arith, length, set, length-set, ltb, ltb→lt, ltb→le, ◌==◌, if◌then◌else◌, Bool-cases,
  replicate, min, ap₂, Perm-length, ◌*◌,
}
use alib_c.Common.Run.{ok}
use alib_c.ArrayList.State.{Item, Slot, ArrayList, slots, items, is_null, search_from}
use alib_c.ArrayList.Edit.{add_at, add_behind, add}
use alib_c.ArrayList.Invariant.{IsValid, Roomy, count-le-capacity, items-replicate}
use alib_c.ArrayList.Loops.{Search-is_null}
use alib_c.ArrayList.Removing.{put-ok}
use alib_c.ArrayList.Packing.{Fits-grows}
use alib_c.ArrayList.Resizing.{expand_lem}

-- The slot just behind an array, of those added to it, takes the next item.
items-set-behind :
    (xs : List Slot) (k : ℕ) (p : Item)
    → items (set (xs ++ replicate (suc k) none) (length xs) (some p)) ≡ items xs ++ p ∷ []
items-set-behind [] k p = ap (◌∷◌ p) (items-replicate k)
items-set-behind (none ∷ xs) k p = items-set-behind xs k p
items-set-behind (some q ∷ xs) k p = ap (◌∷◌ q) (items-set-behind xs k p)

-- The outcome of adding `p`.
pub record Added (l : ArrayList) (p : Item) (l' : ArrayList) : Type 0 where
  pub valid : IsValid l'
  pub holds : Perm (items (slots l')) (p ∷ items (slots l))
  pub count : l'.count ≡ l.count + 1
  pub max_cap : l'.max_cap ≡ l.max_cap
  pub locked : l'.locked ≡ l.locked

-- The list with `p` in slot `i`.
abbrev with_item : ArrayList → ℕ → Item → ArrayList
with_item l i p = record l { list = some (set (slots l) i (some p)); count = l.count + 1 }

with_item-Added :
    {l : ArrayList} (i : ℕ) (p : Item)
    → IsValid l
    → Perm (items (set (slots l) i (some p))) (p ∷ items (slots l))
    → Added l p (with_item l i p)
with_item-Added {l} i p v perm = record {
  valid = omega (arith, length-set (slots l) i (some p), Perm-length perm);
  holds = perm;
  count = refl;
  max_cap = refl;
  locked = refl;
}

add-hole :
    (room : ℕ → Bool) {l : ArrayList} (p : Item)
    → IsValid l
    → l.count < l.capacity
    → (l' : ArrayList) × (add room l (some p) ≡ ok (true, l')) × Added l p l'
unfolding add add_at
add-hole room {l} p v h =
    let (i, found, perm) = Search-is_null (slots l) 0 p (omega (arith, v.counted, v.allocated)) in
    let there : search_from is_null l.capacity 0 (slots l) ≡ ok (some i) =
      ap (λ n. search_from is_null n 0 (slots l)) (sym v.allocated)
      ∙ found
      ∙ ap (λ k. ok (some k)) (omega arith) in
    let below : ltb l.count l.capacity ≡ true = ground arith in
    (with_item l i p, rw (below, there), with_item-Added i p v perm)

add-grow :
    (room : ℕ → Bool) {l : ArrayList} (p : Item)
    → Roomy room
    → IsValid l
    → l.count ≡ l.capacity
    → l.capacity < l.max_cap
    → (l' : ArrayList) × (add room l (some p) ≡ ok (true, l')) × Added l p l'
unfolding add add_behind
add-grow room {l} p roomy v h k =
    let (l₁, runs, fits, same) = expand_lem roomy v k in
    let not_below : ltb l.count l.capacity ≡ false = ground arith in
    let not_max : (l.capacity == l.max_cap) ≡ false = ground arith in
    let n : ℕ = if l.capacity == 0 then 1 else min (l.capacity * 2) l.max_cap in
    let bigger : l.capacity < n = ground arith in
    let held : l₁.count ≡ length (slots l) =
      fits.valid.counted ∙ ap length same ∙ sym v.counted ∙ h ∙ sym v.allocated in
    let more : n - l.capacity ≡ suc (n - l.capacity - 1) = omega arith in
    let behind : slots l₁ ≡ slots l ++ replicate (suc (n - l.capacity - 1)) none =
      Fits-grows fits (omega arith) ∙ ap (λ i. slots l ++ replicate i none) more in
    let put_items : items (set (slots l₁) l₁.count (some p)) ≡ items (slots l) ++ p ∷ [] =
      ap₂ (λ xs i. items (set xs i (some p))) behind held
      ∙ items-set-behind (slots l) (n - l.capacity - 1) p in
    let perm : Perm (items (set (slots l₁) l₁.count (some p))) (p ∷ items (slots l₁)) =
      subst (λ xs. Perm xs (p ∷ items (slots l₁))) (sym put_items)
        (subst (λ ps. Perm (items (slots l) ++ p ∷ []) (p ∷ ps)) (sym same)
          (perm_append_comm (items (slots l)) (p ∷ []))) in
    let added = with_item-Added l₁.count p fits.valid perm in
    let inside : l₁.count < length (slots l₁) =
      omega (arith, fits.valid.allocated, fits.capacity, held, v.allocated) in
    (
      with_item l₁ l₁.count p,
      rw (not_below, not_max, runs, put-ok l₁.list l₁.count (some p) inside),
      record {
        valid = added.valid;
        holds =
            subst (λ ps. Perm (items (set (slots l₁) l₁.count (some p))) (p ∷ ps)) same added.holds;
        count = omega (arith, held, h, v.allocated);
        max_cap = fits.max_cap;
        locked = fits.locked;
      },
    )

-- If allocation succeeds and a valid list holds fewer items than its maximum, ArrayList_add()
-- returns 1, the item joins the others in some order, the count goes up by one, and the list stays
-- valid.
pub add-Added :
    (room : ℕ → Bool) {l : ArrayList} (p : Item)
    → Roomy room
    → IsValid l
    → l.count < l.max_cap
    → (l' : ArrayList) × (add room l (some p) ≡ ok (true, l')) × Added l p l'
add-Added room {l} p roomy v h = elim (Bool-cases (ltb l.count l.capacity)) [
  | inl below ↦ add-hole room p v (ltb→lt l.count l.capacity below)
  | inr not_below ↦
      let full : l.count ≡ l.capacity =
        omega (arith, ltb→le l.count l.capacity not_below, count-le-capacity v) in
      add-grow room p roomy v full (omega arith)
]

-- A list that holds as many items as its maximum refuses another, and does not change.
pub add-full :
    (room : ℕ → Bool) {l : ArrayList} (p : Item)
    → IsValid l
    → l.count ≡ l.max_cap
    → add room l (some p) ≡ ok (false, l)
unfolding add
add-full room {l} p v h =
    let held = count-le-capacity v in
    let not_below : ltb l.count l.capacity ≡ false = ground arith in
    let at_max : (l.capacity == l.max_cap) ≡ true = ground arith in rw (not_below, at_max)
