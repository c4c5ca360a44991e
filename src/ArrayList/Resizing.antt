-- ===== src/ArrayList/Resizing.antt =====
-- ArrayList_resize(), ArrayList_shrink() and ArrayList_expand() when allocation succeeds.
use alib_c.Common.{
  ℕ, ◌-◌, ◌*◌, ◌≤◌, ◌<◌, ◌≡◌, ◌≢◌, refl, sym, ap, ap₂, ◌∙◌, inl, inr, Bool, true, false, Option,
  none, some, List, [], ◌++◌, append-nil, arith, length, take, drop, replicate, min, ltb, ◌==◌,
  if◌then◌else◌, Bool-cases, length-replicate, take_of_length-le, ltb→lt, ltb→le, drop_of_length-le,
}
use alib_c.Common.Run.{ok}
use alib_c.ArrayList.State.{Slot, ArrayList, slots, array, items, handed}
use alib_c.ArrayList.Resize.{calloc, resize_list, resize, shrink, expand}
use alib_c.ArrayList.Invariant.{IsValid, Roomy, length-items-le, count-le-capacity, items-replicate}
use alib_c.ArrayList.Packing.{Fits, pack-Fits, grow-Fits}

-- No slots are added at the same capacity.
unchanged :
    (l : ArrayList) (n : ℕ) → n ≡ l.capacity → slots l ≡ slots l ++ replicate (n - l.capacity) none
unchanged l n e =
    let none_new : n - l.capacity ≡ 0 = omega arith in
    sym (ap (λ k. slots l ++ replicate k none) none_new ∙ append-nil (slots l))

pub handed-nil : (frees : Bool) → handed frees [] ≡ []
handed-nil true = refl
handed-nil false = refl

doubled : (c m : ℕ) → c < m → (if ltb (m - c) c then m else c * 2) ≡ min (c * 2) m
doubled c m h = elim (Bool-cases (ltb (m - c) c)) [
  | inl e ↦ rw e (omega (arith, ltb→lt (m - c) c e))
  | inr e ↦ rw e (omega (arith, ltb→le (m - c) c e))
]

module _ {room : ℕ → Bool} (roomy : Roomy room) where
  none_dropped :
      {l : ArrayList} (n : ℕ) → IsValid l → l.capacity ≤ n → drop n (items (slots l)) ≡ []
  none_dropped {l} n v h =
      drop_of_length-le n (items (slots l)) (omega (arith, length-items-le (slots l), v.allocated))

  all_taken :
      {l : ArrayList} (n : ℕ)
      → IsValid l
      → l.capacity ≤ n
      → items (slots l) ≡ take n (items (slots l))
  all_taken {l} n v h = sym (
      take_of_length-le n (items (slots l)) (omega (arith, length-items-le (slots l), v.allocated)))

  resize_list-Fits :
      (l : ArrayList) (o : Option (List Slot)) (n : ℕ)
      → l.list ≡ o
      → IsValid l
      → 0 < n
      → n ≢ l.capacity
      → n ≤ l.max_cap
      → (l' : ArrayList) × (resize_list room l o n
          ≡ ok (l', n, handed l.frees (drop n (items (slots l)))))
        × Fits l n l'
  unfolding resize_list calloc
  resize_list-Fits l none n e v h ne k =
      let no_items : items (slots l) ≡ [] = ap (λ o. items (array o)) e in
      let no_slots : l.capacity ≡ 0 = sym v.allocated ∙ ap (λ o. length (array o)) e in
      let under : (if ltb l.max_cap n then l.max_cap else n) ≡ n = ground arith in
      (
        record l { list = some (replicate n none); capacity = n },
        rw (under, roomy n, none_dropped n v (omega arith), handed-nil l.frees),
        record {
          valid = record {
            allocated = length-replicate n none;
            counted = v.counted ∙ ap length (no_items ∙ sym (items-replicate n));
            capped = k;
            bounded = v.bounded;
          };
          capacity = refl;
          holds = items-replicate n ∙ sym no_items ∙ all_taken n v (omega arith);
          grows =
              let all_new : n ≡ n - l.capacity = omega arith in
              inr (ap₂ (λ xs i. xs ++ replicate i none) (sym (ap array e)) all_new);
          max_cap = refl;
          locked = refl;
          use_mutex = refl;
        },
      )
  resize_list-Fits l (some xs) n e v h ne k =
      let same : slots l ≡ xs = ap array e in
      let more : (n == 0) ≡ false = ground arith in
      elim (Bool-cases (ltb n l.capacity)) [
        | inl less ↦
            let (l', runs, fits) = pack-Fits roomy n v (ltb→lt n l.capacity less) in
            (l', rw (more, less, ← same, runs), fits)
        | inr enough ↦
            let bigger : l.capacity < n = omega (arith, ltb→le n l.capacity enough) in
            let (l', runs, fits) = grow-Fits roomy n v bigger k in
            (
              l',
              rw (more, enough, ← same, runs, none_dropped n v (omega arith), handed-nil l.frees),
              fits,
            )
      ]

  -- If allocation succeeds, ArrayList_resize() of a valid list to a capacity between 1 and the
  -- maximum gives that capacity, keeps the first items in order, and hands those that do not fit to
  -- `free_item`.
  pub resize_lem :
      {l : ArrayList} (n : ℕ)
      → IsValid l
      → 0 < n
      → n ≤ l.max_cap
      → (l' : ArrayList) × (resize room l n ≡ ok (l', n, handed l.frees (drop n (items (slots l)))))
        × Fits l n l'
  unfolding resize
  resize_lem {l} n v h k = elim (Bool-cases (n == l.capacity)) [
    | inl e ↦
        let same : n ≡ l.capacity = ground arith in
        (
          l,
          rw (e, none_dropped n v (omega arith), handed-nil l.frees),
          record {
            valid = v;
            capacity = sym same;
            holds = all_taken n v (omega arith);
            grows = inr (unchanged l n same);
            max_cap = refl;
            locked = refl;
            use_mutex = refl;
          },
        )
    | inr ne ↦
        let (l', runs, fits) = resize_list-Fits l l.list n refl v h (ground arith) k in
        (l', rw (ne, runs), fits)
  ]

  -- If allocation succeeds, ArrayList_shrink() of a valid list that is not empty makes the count the
  -- capacity and keeps all items in order.
  pub shrink_lem :
      {l : ArrayList}
      → IsValid l
      → 0 < l.count
      → (l' : ArrayList) × (shrink room l ≡ ok (l', l.count, []))
        × Fits l l.count l'
        × (items (slots l') ≡ items (slots l))
  unfolding shrink
  shrink_lem {l} v h =
      let (l', runs, fits) = resize_lem l.count v h (omega (arith, count-le-capacity v)) in
      let none_out : drop l.count (items (slots l)) ≡ [] =
        drop_of_length-le l.count (items (slots l)) (omega (arith, v.counted)) in
      let all : take l.count (items (slots l)) ≡ items (slots l) =
        take_of_length-le l.count (items (slots l)) (omega (arith, v.counted)) in
      (l', rw (runs, none_out, handed-nil l.frees), fits, fits.holds ∙ all)

  -- A resize to a capacity that is no less.
  expanded :
      {l : ArrayList} (n : ℕ)
      → IsValid l
      → 0 < n
      → l.capacity ≤ n
      → n ≤ l.max_cap
      → (l' : ArrayList) × (resize room l n ≡ ok (l', n, []))
        × Fits l n l'
        × (items (slots l') ≡ items (slots l))
  expanded {l} n v h h' k =
      let (l', runs, fits) = resize_lem n v h k in
      (
        l',
        runs
            ∙ ap (λ ps. ok (l', n, ps))
                (ap (handed l.frees) (none_dropped n v h') ∙ handed-nil l.frees),
        fits,
        fits.holds ∙ sym (all_taken n v h'),
      )

  -- If allocation succeeds, ArrayList_expand() of a valid list below its maximum doubles the
  -- capacity, or goes to the maximum where that is less, and from 0 to 1; it keeps all items in
  -- order.
  pub expand_lem :
      {l : ArrayList}
      → IsValid l
      → l.capacity < l.max_cap
      → let n : ℕ = if l.capacity == 0 then 1 else min (l.capacity * 2) l.max_cap in
        (l' : ArrayList) × (expand room l ≡ ok (l', n, []))
        × Fits l n l'
        × (items (slots l') ≡ items (slots l))
  unfolding expand
  expand_lem {l} v h = elim (Bool-cases (l.capacity == 0)) [
    | inl none_yet ↦
        rw none_yet (expanded 1 v (omega arith) (ground arith) (omega (arith, v.bounded)))
    | inr some_yet ↦
        let below : ltb l.capacity l.max_cap ≡ true = ground arith in
        let n : ℕ = min (l.capacity * 2) l.max_cap in
        rw (some_yet, below, doubled l.capacity l.max_cap (omega arith))
          (expanded n v (ground arith) (omega arith) (omega arith))
  ]
