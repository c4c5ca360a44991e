-- ===== src/BinaryBuffer/Splice.antt =====
-- Bytes written inside the memory of a buffer, and what is then in use.
use alib_c.Common.{
  ℕ, zero, suc, ◌+◌, ◌≤◌, ◌≡◌, refl, sym, ap, ap₂, ◌∙◌, Option, none, some, List, [], ◌∷◌, ◌++◌,
  append-nil, append_assoc, arith, length, length-append, length-take, length-set, length-store,
  set, store, take, drop, take-set_self, drop-set_lt, take-append_le, take-take, drop-append_le,
  take_of_length-le, drop-append_ge, alib_ok,
}
use alib_c.Common.Run.{ok, read-ok, write-ok}
use alib_c.BinaryBuffer.{BinaryBuffer, memory, rewritten, put_bytes}
use alib_c.BinaryBuffer.Growth.{IsValid, contents}

pub take-append-drop : {A : Type 0} (n : ℕ) (xs : List A) → take n xs ++ drop n xs ≡ xs
take-append-drop zero xs = refl
take-append-drop (suc n) [] = refl
take-append-drop (suc n) (x ∷ xs) = ap (◌∷◌ x) (take-append-drop n xs)

-- A stretch written inside an array leaves what is in front of it and what is behind it.
pub store_lem :
    {A : Type 0} (vs xs : List A) (i : ℕ)
    → i + length vs ≤ length xs
    → store xs i vs ≡ take i xs ++ vs ++ drop (i + length vs) xs
store_lem [] xs i h =
    let here : i ≡ i + 0 = omega arith in
    sym (take-append-drop i xs)
    ∙ ap₂ (λ front k. front ++ drop k xs) (sym (append-nil (take i xs))) here
store_lem (v ∷ vs) xs i h =
    let step : suc i + length vs ≡ i + suc (length vs) = omega arith in
    store_lem vs (set xs i v) (suc i) (omega (arith, length-set xs i v))
    ∙ ap₂ (λ front back. front ++ vs ++ back) (take-set_self i xs v (omega arith))
        (drop-set_lt (suc i + length vs) i xs v (omega arith) ∙ ap (λ k. drop k xs) step)
    ∙ ap (λ front. front ++ drop (i + suc (length vs)) xs) (append_assoc (take i xs) (v ∷ []) vs)

-- The first two of three pieces.
pub take-pieces :
    {A : Type 0} (n : ℕ) (xs ys zs : List A)
    → n ≡ length xs + length ys
    → take n (xs ++ ys ++ zs) ≡ xs ++ ys
take-pieces n xs ys zs e =
    take-append_le n (xs ++ ys) zs (omega (arith, length-append xs ys))
    ∙ take_of_length-le n (xs ++ ys) (omega (arith, length-append xs ys))

pub memory-rewritten :
    (buff : Option (List ℕ)) (mem : List ℕ)
    → length mem ≡ length (memory buff)
    → memory (rewritten buff mem) ≡ mem
memory-rewritten none [] e = refl
memory-rewritten none (x ∷ mem) e = absurd (omega (arith, e))
memory-rewritten (some _) mem e = refl

-- A buffer after `bytes` have been written into its memory.
abbrev pub patched : BinaryBuffer → List ℕ → ℕ → BinaryBuffer
patched b mem n = record b { buff = rewritten b.buff mem; len = n }

pub patched-IsValid :
    (b : BinaryBuffer) (mem : List ℕ) (n : ℕ)
    → IsValid b
    → length mem ≡ length (memory b.buff)
    → n ≤ b.capacity
    → IsValid (patched b mem n)
patched-IsValid b mem n (size, inside, h₁, h₂, h₃, h₄) e k =
    (ap length (memory-rewritten b.buff mem e) ∙ e ∙ size, k, h₁, h₂, h₃, h₄)

pub put_bytes_lem :
    (b : BinaryBuffer) (src : List ℕ) (at new_len : ℕ)
    → at + length src ≤ length (memory b.buff)
    → put_bytes src at (length src) new_len b
      ≡ ok (alib_ok, patched b (store (memory b.buff) at src) new_len)
unfolding put_bytes
put_bytes_lem b src at new_len h =
    let whole : take (length src) (drop 0 src) ≡ src =
      take_of_length-le (length src) src (omega arith) in
    rw (read-ok src 0 (length src) (omega arith), whole, write-ok (memory b.buff) at src h) refl

-- The bytes in use come before the rest of the memory.
pub take-store_end :
    (xs vs : List ℕ) (i n : ℕ)
    → i + length vs ≤ length xs
    → n ≡ i + length vs
    → take n (store xs i vs) ≡ take i xs ++ vs
take-store_end xs vs i n h e =
    ap (take n) (store_lem vs xs i h)
    ∙ take-pieces n (take i xs) vs _ (omega (arith, length-take i xs, e))

-- Two stretches that lie next to each other.
pub store-store :
    (xs vs ws : List ℕ) (i n k : ℕ)
    → n ≡ i + length vs
    → k ≡ n + length ws
    → k ≤ length xs
    → store (store xs n ws) i vs ≡ take i xs ++ vs ++ ws ++ drop k xs
store-store xs vs ws i n k e f h =
    let front = take n xs in
    let ys : List ℕ = front ++ ws ++ drop k xs in
    let size : length front ≡ n = omega (arith, length-take n xs, e, f) in
    let size' : length (front ++ ws) ≡ k = omega (arith, length-append front ws, size, f) in
    let inner : store xs n ws ≡ ys =
      store_lem ws xs n (omega (arith, f)) ∙ ap (λ m. front ++ ws ++ drop m xs) (sym f) in
    let before : take i ys ≡ take i xs =
      take-append_le i (front ++ ws) (drop k xs) (omega (arith, size', e, f))
      ∙ take-append_le i front ws (omega (arith, size, e))
      ∙ take-take i n xs (omega (arith, e)) in
    let behind : drop (i + length vs) ys ≡ ws ++ drop k xs =
      ap (λ m. drop m ys) (sym e)
      ∙ drop-append_le n (front ++ ws) (drop k xs) (omega (arith, size', f))
      ∙ ap (λ zs. zs ++ drop k xs) (drop-append_ge n 0 front ws (omega (arith, size))) in
    let length-ys : length ys ≡ length xs = sym (ap length inner) ∙ length-store xs n ws in
    ap (λ zs. store zs i vs) inner
    ∙ store_lem vs ys i (omega (arith, length-ys, e, f))
    ∙ ap₂ (λ as' bs. as' ++ vs ++ bs) before behind
    ∙ sym (append_assoc (take i xs ++ vs) ws (drop k xs))

pub contents-patched :
    (b : BinaryBuffer) (mem : List ℕ) (n : ℕ)
    → length mem ≡ length (memory b.buff)
    → contents (patched b mem n) ≡ take n mem
contents-patched b mem n e = ap (take n) (memory-rewritten b.buff mem e)
