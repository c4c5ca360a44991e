-- ===== src/ArrayList/Packing.antt =====
-- The two branches of ArrayList_resize() that move the items of an array to another capacity, when
-- allocation succeeds.
use alib_c.Common.{
  ℕ, ◌+◌, ◌-◌, ◌≤◌, ◌<◌, ◌≡◌, refl, sym, ap, ap₂, ◌∙◌, inl, inr, ◌⊎◌, Bool, true, none, some, List,
  [], ◌++◌, append-nil, arith, length, take, drop, map, replicate, min, leb, le_cases,
  length-append, length-take, length-drop, length-replicate, take_of_length-le, drop_of_length-le,
}
use native.Mathlib.Nat.{le_refl}
use alib_c.Common.Run.{ok}
use alib_c.ArrayList.State.{Item, Slot, ArrayList, slots, items, handed}
use alib_c.ArrayList.Resize.{filled, packed, pack, grow}
use alib_c.ArrayList.Invariant.{
  length-map, IsValid, Roomy, length-items-le, items-append, items-replicate, items-map,
}
use alib_c.ArrayList.Loops.{next_items-take}

-- A list of capacity `n` that kept the first items.
pub record Fits (l : ArrayList) (n : ℕ) (l' : ArrayList) : Type 0 where
  pub valid : IsValid l'
  pub capacity : l'.capacity ≡ n
  pub holds : items (slots l') ≡ take n (items (slots l))
  pub grows : (n < l.capacity) ⊎ (slots l' ≡ slots l ++ replicate (n - l.capacity) none)
  pub max_cap : l'.max_cap ≡ l.max_cap
  pub locked : l'.locked ≡ l.locked
  pub use_mutex : l'.use_mutex ≡ l.use_mutex

items-filled : (ps : List Item) (n : ℕ) → items (filled ps n) ≡ ps
items-filled ps n =
    items-append (map some ps) (replicate n none)
    ∙ ap₂ ◌++◌ (items-map ps) (items-replicate n)
    ∙ append-nil ps

length-filled : (ps : List Item) (n : ℕ) → length (filled ps n) ≡ length ps + n
length-filled ps n = omega (
  arith,
  length-append (map some ps) (replicate n none),
  length-map ps,
  length-replicate {A = Slot} n none,
)

take-min-length : (n : ℕ) (ps : List Item) → take (min (length ps) n) ps ≡ take n ps
take-min-length n ps = elim (le_cases n (length ps)) [
  | inl few ↦ let e : min (length ps) n ≡ n = omega arith in rw e
  | inr many ↦
      let e : min (length ps) n ≡ length ps = omega arith in
      rw (e, take_of_length-le (length ps) ps (le_refl _), take_of_length-le n ps (omega arith))
]

-- At a capacity that is no less, the slots of the array stay in front of the new ones.
pub Fits-grows :
    {l l' : ArrayList} {n : ℕ}
    → Fits l n l'
    → l.capacity ≤ n
    → slots l' ≡ slots l ++ replicate (n - l.capacity) none
Fits-grows fits h = elim fits.grows [ inl less ↦ absurd (omega arith) | inr e ↦ e ]

-- The items that are dropped in the second loop are those behind the first `n`.
take-drop-min :
    (n : ℕ) (ps : List Item) → take (length ps - n) (drop (min (length ps) n) ps) ≡ drop n ps
take-drop-min n ps = elim (le_cases n (length ps)) [
  | inl few ↦
      let e : min (length ps) n ≡ n = omega arith in
      rw e (take_of_length-le (length ps - n) (drop n ps) (omega (arith, length-drop n ps)))
  | inr many ↦
      let e : length ps - n ≡ 0 = omega arith in rw (e, drop_of_length-le n ps (omega arith))
]

module _ {room : ℕ → Bool} (roomy : Roomy room) where
  pub pack-Fits :
      {l : ArrayList} (n : ℕ)
      → IsValid l
      → n < l.capacity
      → (l' : ArrayList) × (pack room l (slots l) n
          ≡ ok (l', n, handed l.frees (drop n (items (slots l)))))
        × Fits l n l'
  unfolding pack packed
  pack-Fits {l} n v h =
      let ps : List Item = items (slots l) in
      let m : ℕ = min l.count n in
      let (rest, runs, left) = next_items-take m (slots l) (omega (arith, v.counted)) in
      let more : length (items rest) ≡ l.count - m =
        ap length left ∙ omega (arith, length-drop m ps) in
      let (rest', runs', left') = next_items-take (l.count - n) rest (omega arith) in
      let kept : take m ps ≡ take n ps =
        ap (λ k. take (min k n) ps) v.counted ∙ take-min-length n ps in
      let dropped : take (l.count - n) (items rest) ≡ drop n ps =
        ap (take (l.count - n)) left
        ∙ ap (λ k. take (k - n) (drop (min k n) ps)) v.counted
        ∙ take-drop-min n ps in
      let few : length (take n ps) ≡ m = omega (arith, length-take n ps, v.counted) in
      let xs : List Slot = filled (take n ps) (n - length (take n ps)) in
      (
        record l { list = some xs; count = m; capacity = n },
        rw (runs, runs', roomy n, kept, dropped),
        record {
          valid = record {
            allocated = omega (arith, length-filled (take n ps) (n - length (take n ps)));
            counted = omega (arith, ap length (items-filled (take n ps) (n - length (take n ps))));
            capped = omega arith;
            bounded = v.bounded;
          };
          capacity = refl;
          holds = items-filled (take n ps) (n - length (take n ps));
          grows = inl h;
          max_cap = refl;
          locked = refl;
          use_mutex = refl;
        },
      )

  pub grow-Fits :
      {l : ArrayList} (n : ℕ)
      → IsValid l
      → l.capacity < n
      → n ≤ l.max_cap
      → (l' : ArrayList) × (grow room l (slots l) n ≡ ok (l', n, [])) × Fits l n l'
  unfolding grow
  grow-Fits {l} n v h k =
      let all : take l.capacity (slots l) ≡ slots l =
        take_of_length-le l.capacity (slots l) (omega (arith, v.allocated)) in
      let enough : leb l.capacity (length (slots l)) ≡ true = ground (arith, v.allocated) in
      let held : items (slots l ++ replicate (n - l.capacity) none) ≡ items (slots l) =
        items-append (slots l) (replicate (n - l.capacity) none)
        ∙ ap (λ ps. items (slots l) ++ ps) (items-replicate (n - l.capacity))
        ∙ append-nil (items (slots l)) in
      let len : length (slots l ++ replicate (n - l.capacity) none) ≡ n = omega (
        arith,
        length-append (slots l) (replicate (n - l.capacity) none),
        length-replicate {A = Slot} (n - l.capacity) none,
        v.allocated,
      ) in
      (
        record l { list = some (slots l ++ replicate (n - l.capacity) none); capacity = n },
        rw (roomy n, enough, all),
        record {
          valid = record {
            allocated = len;
            counted = v.counted ∙ ap length (sym held);
            capped = k;
            bounded = v.bounded;
          };
          capacity = refl;
          holds =
              held
              ∙ sym (
                  take_of_length-le n (items (slots l))
                    (omega (arith, length-items-le (slots l), v.allocated)));
          grows = inr refl;
          max_cap = refl;
          locked = refl;
          use_mutex = refl;
        },
      )
