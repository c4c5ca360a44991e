-- ===== src/RBuff/Contents.antt =====
-- The bytes that a buffer holds, oldest first, and how they change with its iterators and memory.
use alib_c.Common.{
  ℕ, suc, ◌+◌, ◌≤◌, ◌<◌, ◌≡◌, refl, sym, ap, ◌∙◌, ◌⊎◌, inl, inr, List, [], ◌∷◌, ◌++◌, ap₂,
  append_assoc, append-nil, arith, length, take, drop, set, store, length-set, length-drop,
  length-take, length-append, take-append_le, take-append_ge, drop-append_le, drop-append_ge,
  drop-take, drop-drop, drop-set_ge, drop-set_lt, take-set_self, take-take, get_elem?,
  get_elem?-take-drop, some,
}
use mathlib.Core.Path.{◌≡⟨◌⟩◌, ◌∎}
use alib_c.RBuff.{RBuff}

-- The `n` bytes from `b` on, going round at the end of `mem`.
abbrev pub window : List ℕ → ℕ → ℕ → List ℕ
window mem b n = take n (drop b mem ++ mem)

abbrev pub contents : RBuff → List ℕ
contents r = window r.mem r.it_begin r.count

pub length-window :
    (mem : List ℕ) (b n : ℕ) → b ≤ length mem → n ≤ length mem → length (window mem b n) ≡ n
length-window mem b n h k =
    omega
      (arith, length-take n (drop b mem ++ mem), length-append (drop b mem) mem, length-drop b mem)

-- A window that does not go round.
pub window_straight :
    (mem : List ℕ) (b n : ℕ) → b + n ≤ length mem → window mem b n ≡ take n (drop b mem)
window_straight mem b n h = take-append_le n (drop b mem) mem (omega (arith, length-drop b mem))

-- A window that goes round, with `k` bytes at the start of the memory.
pub window_round :
    (mem : List ℕ) (b n k : ℕ)
    → b ≤ length mem
    → b + n ≡ length mem + k
    → window mem b n ≡ drop b mem ++ take k mem
window_round mem b n k h e = take-append_ge n k (drop b mem) mem (omega (arith, length-drop b mem))

pub take-window : (mem : List ℕ) (b n k : ℕ) → n ≤ k → take n (window mem b k) ≡ window mem b n
take-window mem b n k h = take-take n k (drop b mem ++ mem) h

-- Dropping bytes moves the start of the window.
pub drop-window :
    (mem : List ℕ) (b b' n k : ℕ)
    → b < length mem
    → b' < length mem
    → n + k ≤ length mem
    → (b' ≡ b + n) ⊎ (b' + length mem ≡ b + n)
    → drop n (window mem b (n + k)) ≡ window mem b' k
drop-window mem b b' n k h h' room (inl e) =
    drop-take n (n + k) k (drop b mem ++ mem) refl
    ∙ ap (take k) (
        drop-append_le n (drop b mem) mem (omega (arith, length-drop b mem))
        ∙ ap (λ xs. xs ++ mem) (drop-drop n b b' mem e))
drop-window mem b b' n k h h' room (inr e) =
    drop-take n (n + k) k (drop b mem ++ mem) refl
    ∙ ap (take k) (drop-append_ge n b' (drop b mem) mem (omega (arith, length-drop b mem)))
    ∙ sym (window_straight mem b' k (omega arith))

first_of_list :
    (xs : List ℕ) (n : ℕ)
    → length xs ≡ suc n
    → (x : ℕ) × (get_elem? xs 0 ≡ some x) × (xs ≡ x ∷ drop 1 xs)
first_of_list [] n e = absurd (omega arith)
first_of_list (x ∷ xs) n e = (x, refl, refl)

-- The first byte of a window, and the others.
pub window-cons :
    (mem : List ℕ) (b b' n : ℕ)
    → b < length mem
    → b' < length mem
    → suc n ≤ length mem
    → (b' ≡ b + 1) ⊎ (b' + length mem ≡ b + 1)
    → (x : ℕ) × (get_elem? mem b ≡ some x) × (window mem b (suc n) ≡ x ∷ window mem b' n)
window-cons mem b b' n hb hb' hn p =
    let (x, here, w) =
      first_of_list (window mem b (suc n)) n (length-window mem b (suc n) (omega arith) hn) in
    let sum : suc n ≡ 1 + n = omega arith in
    (
      x,
      sym (get_elem?-take-drop mem mem b n hb) ∙ here,
      w
          ∙ ap (λ k. x ∷ drop 1 (window mem b k)) sum
          ∙ ap (◌∷◌ x) (drop-window mem b b' 1 n hb hb' (omega arith) p),
    )

-- One byte written where the window ends, in front of the end of the memory, extends it.
window-set :
    (mem : List ℕ) (b n e x : ℕ)
    → b < length mem
    → n < length mem
    → e < length mem
    → (b + n ≡ e) ⊎ (b + n ≡ e + length mem)
    → window (set mem e x) b (suc n) ≡ window mem b n ++ x ∷ []
window-set mem b n e x hb hn he (inl p) =
    window (set mem e x) b (suc n)
    ≡⟨ window_straight (set mem e x) b (suc n) (omega (arith, length-set mem e x)) ⟩
      take (suc n) (drop b (set mem e x))
    ≡⟨ ap (take (suc n)) (drop-set_ge b e n mem x (sym p)) ⟩ take (suc n) (set (drop b mem) n x)
    ≡⟨ take-set_self n (drop b mem) x (omega (arith, length-drop b mem)) ⟩
      take n (drop b mem) ++ x ∷ []
    ≡⟨ ap (λ ys. ys ++ x ∷ []) (sym (window_straight mem b n (omega arith))) ⟩
      window mem b n ++ x ∷ [] ∎
window-set mem b n e x hb hn he (inr p) =
    window (set mem e x) b (suc n)
    ≡⟨ window_round (set mem e x) b (suc n) (suc e) (omega (arith, length-set mem e x))
        (omega (arith, length-set mem e x)) ⟩
      drop b (set mem e x) ++ take (suc e) (set mem e x)
    ≡⟨ ap₂ ◌++◌ (drop-set_lt b e mem x (omega arith)) (take-set_self e mem x he) ⟩
      drop b mem ++ (take e mem ++ x ∷ [])
    ≡⟨ sym (append_assoc (drop b mem) (take e mem) (x ∷ [])) ⟩ (drop b mem ++ take e mem) ++ x ∷ []
    ≡⟨ ap (λ ys. ys ++ x ∷ []) (sym (window_round mem b n e (omega arith) (omega arith))) ⟩
      window mem b n ++ x ∷ [] ∎

-- The same for a chunk of bytes that ends at the end of the memory at the latest.
pub window-store :
    (mem : List ℕ) (b n e : ℕ) (xs : List ℕ)
    → b < length mem
    → n + length xs ≤ length mem
    → e + length xs ≤ length mem
    → (b + n ≡ e) ⊎ (b + n ≡ e + length mem)
    → window (store mem e xs) b (n + length xs) ≡ window mem b n ++ xs
window-store mem b n e [] hb hn he p =
    ap (window mem b) (omega arith) ∙ sym (append-nil (window mem b n))
window-store mem b n e (x ∷ xs) hb hn he p =
    window (store (set mem e x) (suc e) xs) b (n + suc (length xs))
    ≡⟨ ap (window (store (set mem e x) (suc e) xs) b) (omega arith) ⟩
      window (store (set mem e x) (suc e) xs) b (suc n + length xs)
    ≡⟨ window-store (set mem e x) b (suc n) (suc e) xs (omega (arith, length-set mem e x))
        (omega (arith, length-set mem e x)) (omega (arith, length-set mem e x))
        (later (length-set mem e x) p) ⟩
      window (set mem e x) b (suc n) ++ xs
    ≡⟨ ap (λ ys. ys ++ xs) (window-set mem b n e x hb (omega arith) (omega arith) p) ⟩
      (window mem b n ++ x ∷ []) ++ xs
    ≡⟨ append_assoc (window mem b n) (x ∷ []) xs ⟩ window mem b n ++ x ∷ xs ∎
  where
    later :
        length (set mem e x) ≡ length mem
        → (b + n ≡ e) ⊎ (b + n ≡ e + length mem)
        → (b + suc n ≡ suc e) ⊎ (b + suc n ≡ suc e + length (set mem e x))
    later l (inl q) = inl (omega arith)
    later l (inr q) = inr (omega arith)
