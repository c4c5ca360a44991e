-- ===== src/RBuff/Push.antt =====
-- RBuff_pushback() from "Copy first half" on: bytes for which there is room.
use alib_c.Common.{
  ℕ, ◌+◌, ◌-◌, ◌^◌, ◌≤◌, ◌<◌, ◌≡◌, refl, sym, ap, ◌∙◌, ◌⊎◌, inl, inr, true, false, List, [], ◌∷◌,
  ◌++◌, arith, length, take, drop, store, ltb, Bool-cases, if◌then◌else◌, size_of_int32,
  size_of_int32_small, add_size, length-drop, length-take, length-store, append_assoc, append-nil,
  take-append-take-drop, drop-drop,
}
use alib_c.Common.Run.{ok, read-ok, write-ok}
use alib_c.RBuff.{RBuff, end_it_to_buff_end, push_rest, push_chunks}
use alib_c.RBuff.Invariant.{IsValid}
use alib_c.RBuff.Contents.{window, contents, window-store}

-- The `n` bytes of `src` at `at`.
abbrev pub slice : List ℕ → ℕ → ℕ → List ℕ
slice src at n = take n (drop at src)

pub length-slice : (src : List ℕ) (at n : ℕ) → at + n ≤ length src → length (slice src at n) ≡ n
length-slice src at n h = omega (arith, length-take n (drop at src), length-drop at src)

push_rest-ok :
    (r : RBuff) (src : List ℕ) (at n c total : ℕ)
    → n ≤ c
    → at + n ≤ length src
    → r.it_end + n ≤ length r.mem
    → r.count + (total + n) ≤ r.buff_end
    → r.buff_end < 2 ^ 31
    → push_rest r src at n c total
      ≡ ok (
        total + n,
        record r {
          mem = store r.mem r.it_end (slice src at n);
          it_end = r.it_end + n;
          count = r.count + (total + n);
        },
      )
unfolding push_rest
push_rest-ok r src at n c total h inside room fits small =
    let taken : (if ltb n c then n else c) ≡ n = ground arith in
    let exact : size_of_int32 (total + n) ≡ total + n =
      size_of_int32_small (total + n) (omega arith) in
    let counted : add_size r.count (total + n) ≡ r.count + (total + n) = omega arith in
    let held : (if ltb r.buff_end (r.count + (total + n))
          then r.buff_end
          else r.count + (total + n))
        ≡ r.count + (total + n) =
      ground arith in
    rw (
      taken,
      read-ok src at n inside,
      write-ok r.mem r.it_end (slice src at n) (omega (arith, length-slice src at n inside)),
      exact,
      counted,
      held,
    )

-- What pushing leaves behind.
pub record Pushed (r : RBuff) (bytes : List ℕ) (r' : RBuff) : Type 0 where
  pub valid : IsValid r'
  pub holds : contents r' ≡ contents r ++ bytes
  pub counted : r'.count ≡ r.count + length bytes
  pub size : r'.buff_end ≡ r.buff_end
  pub flags : r'.flags ≡ r.flags

-- The two ways in which the bytes go into the buffer.
end_short :
    {r : RBuff} (n : ℕ)
    → IsValid r
    → r.count + n ≤ r.buff_end
    → ltb (end_it_to_buff_end r) n ≡ true
    → (r.it_end + end_it_to_buff_end r ≡ r.buff_end)
      × (end_it_to_buff_end r < n)
      × ((r.it_begin + r.count ≡ r.it_end)
          ⊎ ((end_it_to_buff_end r ≡ 0) × (r.it_begin ≡ 0) × (r.count ≡ 0)))
unfolding end_it_to_buff_end
end_short n v h e = ground arith

end_enough :
    {r : RBuff} (n : ℕ)
    → IsValid r
    → r.count + n ≤ r.buff_end
    → ltb (end_it_to_buff_end r) n ≡ false
    → (r.it_end + n ≤ r.buff_end)
      × (n ≤ end_it_to_buff_end r)
      × ((r.it_begin + r.count ≡ r.it_end)
          ⊎ (r.it_begin + r.count ≡ r.it_end + r.buff_end)
          ⊎ (n ≡ 0))
unfolding end_it_to_buff_end
end_enough n v h e = ground arith

-- The contents after one memcpy() to the end iterator.
stored :
    {r : RBuff} (bytes : List ℕ)
    → IsValid r
    → r.count + length bytes ≤ r.buff_end
    → r.it_end + length bytes ≤ r.buff_end
    → (r.it_begin + r.count ≡ r.it_end)
      ⊎ (r.it_begin + r.count ≡ r.it_end + r.buff_end)
      ⊎ (length bytes ≡ 0)
    → window (store r.mem r.it_end bytes) r.it_begin (r.count + length bytes) ≡ contents r ++ bytes
stored {r} [] v h k p = ap (window r.mem r.it_begin) (omega arith) ∙ sym (append-nil (contents r))
stored {r} (x ∷ xs) v h k (inl p) =
    window-store r.mem r.it_begin r.count r.it_end (x ∷ xs) (omega arith) (omega arith)
      (omega arith) (inl p)
stored {r} (x ∷ xs) v h k (inr (inl p)) =
    window-store r.mem r.it_begin r.count r.it_end (x ∷ xs) (omega arith) (omega arith)
      (omega arith) (inr (omega arith))
stored {r} (x ∷ xs) v h k (inr (inr p)) = absurd (omega arith)

-- All bytes fit in front of the end of the buffer or of the oldest byte.
push_straight :
    {r : RBuff} (src : List ℕ) (at n : ℕ)
    → IsValid r
    → r.count + n ≤ r.buff_end
    → at + n ≤ length src
    → ltb (end_it_to_buff_end r) n ≡ false
    → (r' : RBuff) × (push_chunks r src at n ≡ ok (n, r')) × Pushed r (slice src at n) r'
unfolding push_chunks
push_straight {r} src at n v h inside e =
    let (room, less, place) = end_enough n v h e in
    let bytes : List ℕ = slice src at n in
    let len : length bytes ≡ n = length-slice src at n inside in
    let kept : length (store r.mem r.it_end bytes) ≡ length r.mem =
      length-store r.mem r.it_end bytes in
    let sum : 0 + n ≡ n = omega arith in
    let r' : RBuff = record r {
      mem = store r.mem r.it_end bytes;
      it_end = r.it_end + n;
      count = r.count + n;
    } in
    let held : window r'.mem r.it_begin (r.count + n) ≡ contents r ++ bytes =
      ap (λ k. window r'.mem r.it_begin (r.count + k)) (sym len)
      ∙ stored bytes v (omega arith) (omega arith) (omega arith) in
    (
      r',
      rw (
        e,
        push_rest-ok r src at n (end_it_to_buff_end r) 0 less inside (omega arith) (omega arith)
            (omega arith),
        sum,
      ),
      record {
        valid = omega arith;
        holds = held;
        counted = omega arith;
        size = refl;
        flags = refl;
      },
    )

-- The bytes go round: a first stretch up to the end of the buffer, the others at its start.
push_round :
    {r : RBuff} (src : List ℕ) (at n : ℕ)
    → IsValid r
    → r.count + n ≤ r.buff_end
    → at + n ≤ length src
    → ltb (end_it_to_buff_end r) n ≡ true
    → (r' : RBuff) × (push_chunks r src at n ≡ ok (n, r')) × Pushed r (slice src at n) r'
unfolding push_chunks
push_round {r} src at n v h inside e =
    let (edge, less, place) = end_short n v h e in
    let c : ℕ = end_it_to_buff_end r in
    let first : List ℕ = slice src at c in
    let rest : List ℕ = slice src (at + c) (n - c) in
    let len₁ : length first ≡ c = length-slice src at c (omega arith) in
    let len₂ : length rest ≡ n - c = length-slice src (at + c) (n - c) (omega arith) in
    let mem₁ : List ℕ = store r.mem r.it_end first in
    let kept₁ : length mem₁ ≡ length r.mem = length-store r.mem r.it_end first in
    let kept₂ : length (store mem₁ 0 rest) ≡ length mem₁ = length-store mem₁ 0 rest in
    let sum : c + (n - c) ≡ n = omega arith in
    let r' : RBuff = record r {
      mem = store mem₁ 0 rest;
      it_end = 0 + (n - c);
      count = r.count + (c + (n - c));
    } in
    let whole : first ++ rest ≡ slice src at n =
      ap (λ xs. first ++ take (n - c) xs) (sym (drop-drop c at (at + c) src refl))
      ∙ take-append-take-drop c n (n - c) (drop at src) (sym sum) in
    let once : window mem₁ r.it_begin (r.count + length first) ≡ contents r ++ first =
      stored first v (omega arith) (omega arith) (omega arith) in
    let again : window (store mem₁ 0 rest) r.it_begin (r.count + length first + length rest)
        ≡ window mem₁ r.it_begin (r.count + length first) ++ rest =
      window-store mem₁ r.it_begin (r.count + length first) 0 rest (omega arith) (omega arith)
        (omega arith) (omega arith) in
    let held : contents r' ≡ contents r ++ slice src at n =
      ap (window r'.mem r.it_begin) (omega arith)
      ∙ again
      ∙ ap (λ xs. xs ++ rest) once
      ∙ append_assoc (contents r) first rest
      ∙ ap (λ xs. contents r ++ xs) whole in
    (
      r',
      rw (
        e,
        read-ok src at c (omega arith),
        write-ok r.mem r.it_end first (omega arith),
        push_rest-ok (record r { mem = mem₁; it_end = 0 }) src (at + c) (n - c) (n - c) c
            (omega arith) (omega arith) (omega arith) (omega arith) (omega arith),
        sum,
      ),
      record {
        valid = omega arith;
        holds = held;
        counted = omega (arith, length-slice src at n inside);
        size = refl;
        flags = refl;
      },
    )

pub push_chunks-ok :
    {r : RBuff} (src : List ℕ) (at n : ℕ)
    → IsValid r
    → r.count + n ≤ r.buff_end
    → at + n ≤ length src
    → (r' : RBuff) × (push_chunks r src at n ≡ ok (n, r')) × Pushed r (slice src at n) r'
push_chunks-ok {r} src at n v h inside = elim (Bool-cases (ltb (end_it_to_buff_end r) n)) [
  | inl e ↦ push_round src at n v h inside e
  | inr e ↦ push_straight src at n v h inside e
]
