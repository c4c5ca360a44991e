-- ===== src/RBuff/Copy.antt =====
-- RBuff_copy(), RBuff_popoff() and RBuff_popoff_byte().
use alib_c.Common.{
  ℕ, zero, suc, ◌+◌, ◌-◌, ◌≤◌, ◌<◌, min, ◌≡◌, refl, sym, ap, ◌∙◌, ◌⊎◌, inl, inr, Bool, true, false,
  some, List, [], ◌∷◌, ◌++◌, arith, length, take, drop, ltb, Bool-cases, if◌then◌else◌, pos,
  length-drop, take_of_length-le, ltb→lt, ltb→le, sub_size, take-take-min, drop_of_length-le,
  le_cases, ◌==◌, get_elem?, get_elem?-take-drop,
}
use alib_c.Common.Run.{ok, read-ok}
use alib_c.RBuff.{
  RBuff, fetch, begin_it_to_buff_end, step_it, copy_count, copy, popoff, popoff_byte, popoff_front,
}
use alib_c.RBuff.Invariant.{IsValid, step_it_begin}
use alib_c.RBuff.Contents.{
  window, contents, window_straight, window_round, drop-window, length-window,
}

-- What a copy hands over: the bytes, if there is a destination.
abbrev pub delivered : Bool → List ℕ → List ℕ
delivered dst xs = if dst then xs else []

fetch-ok :
    (dst : Bool) (mem : List ℕ) (at n : ℕ)
    → at + n ≤ length mem
    → fetch dst mem at n ≡ ok (delivered dst (take n (drop at mem)))
unfolding fetch
fetch-ok true mem at n h = read-ok mem at n h
fetch-ok false mem at n h = refl

delivered-append :
    (dst : Bool) (xs ys : List ℕ) → delivered dst xs ++ delivered dst ys ≡ delivered dst (xs ++ ys)
delivered-append true xs ys = refl
delivered-append false xs ys = refl

-- The bytes wanted reach past the first stretch only if that ends at the end of the buffer.
first_short :
    {r : RBuff} (n : ℕ)
    → IsValid r
    → n ≤ r.count
    → ltb (begin_it_to_buff_end r) n ≡ true
    → (r.it_begin + begin_it_to_buff_end r ≡ r.buff_end) × (begin_it_to_buff_end r < n)
unfolding begin_it_to_buff_end
first_short n v h e = ground arith

first_enough :
    {r : RBuff} (n : ℕ)
    → IsValid r
    → n ≤ r.count
    → ltb (begin_it_to_buff_end r) n ≡ false
    → r.it_begin + n ≤ r.buff_end
unfolding begin_it_to_buff_end
first_enough n v h e = ground arith

copy_count-ok :
    {r : RBuff} (dst : Bool) (n : ℕ)
    → IsValid r
    → n ≤ r.count
    → copy_count r dst n ≡ ok (n, delivered dst (window r.mem r.it_begin n))
unfolding copy_count
copy_count-ok {r} dst n v h = elim (Bool-cases (ltb (begin_it_to_buff_end r) n)) [
  | inl e ↦
      let (edge, less) = first_short n v h e in
      let c = begin_it_to_buff_end r in
      let all : c + (n - c) ≡ n = omega arith in
      let rest : List ℕ = take (n - c) r.mem in
      let bytes : delivered dst (take c (drop r.it_begin r.mem)) ++ delivered dst rest
          ≡ delivered dst (window r.mem r.it_begin n) =
        delivered-append dst (take c (drop r.it_begin r.mem)) rest
        ∙ ap (delivered dst) (
            ap (λ xs. xs ++ rest)
              (take_of_length-le c (drop r.it_begin r.mem)
                (omega (arith, length-drop r.it_begin r.mem)))
            ∙ sym (window_round r.mem r.it_begin n (n - c) (omega arith) (omega arith))) in
      rw (
        e,
        fetch-ok dst r.mem r.it_begin c (omega arith),
        fetch-ok dst r.mem 0 (n - c) (omega arith),
        all,
        bytes,
      )
  | inr e ↦ rw (
    e,
    fetch-ok dst r.mem r.it_begin n (omega (arith, first_enough n v h e)),
    window_straight r.mem r.it_begin n (omega (arith, first_enough n v h e)),
  )
]

clamp-eq-min : (n c : ℕ) → (if ltb c n then c else n) ≡ min n c
clamp-eq-min n c = elim (Bool-cases (ltb c n)) [
  | inl e ↦ rw e (omega (arith, ltb→lt c n e))
  | inr e ↦ rw e (omega (arith, ltb→le c n e))
]

-- On a valid buffer RBuff_copy() hands over the first `n` bytes held, or all of them if there are
-- fewer, in order and without reading outside the buffer, and returns how many these are; without a
-- destination it only returns the number.
pub copy_lem :
    {r : RBuff} (dst : Bool) (n : ℕ)
    → IsValid r
    → copy (some r) dst n ≡ ok (min n r.count, delivered dst (take n (contents r)))
unfolding copy
copy_lem {r} false zero v = let none_left : min 0 r.count ≡ 0 = omega arith in rw none_left
copy_lem {r} true zero v = let none_left : min 0 r.count ≡ 0 = omega arith in rw none_left
copy_lem {r} dst (suc n) v =
    let more : (suc n == 0) ≡ false = ground arith in
    rw (
      more,
      clamp-eq-min,
      copy_count-ok dst (min (suc n) r.count) v (omega arith),
      take-take-min (suc n) r.count (drop r.it_begin r.mem ++ r.mem),
    )

popped_contents :
    {r : RBuff} (n b : ℕ)
    → IsValid r
    → b < r.buff_end
    → (b ≡ r.it_begin + min n r.count) ⊎ (b + r.buff_end ≡ r.it_begin + min n r.count)
    → window r.mem b (r.count - n) ≡ drop n (contents r)
popped_contents {r} n b v h moved = elim (le_cases n r.count) [
  | inl few ↦
      let e : r.count ≡ n + (r.count - n) = omega arith in
      sym (
        ap (λ k. drop n (window r.mem r.it_begin k)) e
        ∙ drop-window r.mem r.it_begin b n (r.count - n) (omega arith) (omega arith) (omega arith)
            (omega arith))
  | inr many ↦
      let none_left : r.count - n ≡ 0 = omega arith in
      rw (
        none_left,
        drop_of_length-le n (contents r) (omega (arith, length-window r.mem r.it_begin r.count)),
      )
]

-- On a valid buffer RBuff_popoff() hands over what RBuff_copy() does, the first `n` bytes or all,
-- and removes them: the rest stays, in order, and the buffer stays valid, with the same size and
-- flags.
pub popoff_lem :
    {r : RBuff} (dst : Bool) (n : ℕ)
    → IsValid r
    → (r' : RBuff) × (popoff (some r) dst n
        ≡ ok (min n r.count, delivered dst (take n (contents r)), r'))
      × IsValid r'
      × (contents r' ≡ drop n (contents r))
      × (r'.count ≡ r.count - n)
      × (r'.buff_end ≡ r.buff_end)
      × (r'.flags ≡ r.flags)
unfolding popoff
popoff_lem {r} dst n v =
    let m : ℕ = min n r.count in
    let b : ℕ = step_it r r.it_begin m in
    let r' : RBuff = record r { it_begin = b; count = sub_size r.count m } in
    let moved = step_it_begin m v (omega arith) in
    let left : sub_size r.count m ≡ r.count - n = omega arith in
    (
      r',
      rw (copy_lem dst n v),
      omega (arith, moved),
      rw left (popped_contents n b v moved.0 moved.1),
      left,
      refl,
      refl,
    )

-- On a valid buffer that is not empty RBuff_popoff_byte() returns the oldest byte and removes it;
-- the rest stays, and the buffer stays valid.
pub popoff_byte-some :
    {r : RBuff} {byte : ℕ} {rest : List ℕ}
    → IsValid r
    → contents r ≡ byte ∷ rest
    → (r' : RBuff) × (popoff_byte (some r) ≡ ok (pos byte, some r'))
      × IsValid r'
      × (contents r' ≡ rest)
unfolding popoff_byte popoff_front
popoff_byte-some {r} {byte} {rest} v e =
    let held : r.count ≡ suc (length rest) =
      sym (length-window r.mem r.it_begin r.count (omega arith) (omega arith)) ∙ ap length e in
    let some_held : (r.count == 0) ≡ false = ground arith in
    let front : get_elem? r.mem r.it_begin ≡ some byte =
      sym (get_elem?-take-drop r.mem r.mem r.it_begin (length rest) (omega arith))
      ∙ ap (λ n. get_elem? (window r.mem r.it_begin n) 0) (sym held)
      ∙ ap (λ xs. get_elem? xs 0) e in
    let b : ℕ = step_it r r.it_begin 1 in
    let r' : RBuff = record r { it_begin = b; count = sub_size r.count 1 } in
    let moved = step_it_begin 1 v (omega arith) in
    let left : sub_size r.count 1 ≡ r.count - 1 = omega arith in
    (
      r',
      rw (some_held, front),
      omega (arith, moved),
      rw left (popped_contents 1 b v moved.0 (omega (arith, moved.1)) ∙ ap (drop 1) e),
    )
