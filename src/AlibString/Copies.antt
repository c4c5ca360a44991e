-- ===== src/AlibString/Copies.antt =====
-- memcpy_back() and memcpy_safe() against a copy through a temporary.
use alib_c.Common.{
  ℕ, zero, suc, ◌+◌, ◌≤◌, ◌≡◌, ◌≢◌, refl, sym, ap, ◌∙◌, inl, inr, Bool-cases, true, false, ◌||◌,
  if◌then◌else◌, some, List, [], ◌∷◌, ◌++◌, arith, length, length-set, length-take, length-drop,
  get_elem?, get_elem?-lt, set, store, take, drop, ltb,
}
use alib_c.Common.Run.{ok, fault, read-ok, write-ok}
use alib_c.AlibString.{apart, memcpy, copy_byte, memcpy_back, memcpy_safe}

set-set_comm :
    (xs : List ℕ) (i j : ℕ) (v w : ℕ) → i ≢ j → set (set xs i v) j w ≡ set (set xs j w) i v
set-set_comm [] i j v w ne = refl
set-set_comm (x ∷ xs) zero zero v w ne = absurd (ne refl)
set-set_comm (x ∷ xs) zero (suc j) v w ne = refl
set-set_comm (x ∷ xs) (suc i) zero v w ne = refl
set-set_comm (x ∷ xs) (suc i) (suc j) v w ne =
    ap (◌∷◌ x) (set-set_comm xs i j v w (λ e. ne (ap suc e)))

-- A byte written behind a stretch commutes with the stretch.
store-set :
    (vs xs : List ℕ) (i j : ℕ) (w : ℕ)
    → i + length vs ≤ j
    → store (set xs j w) i vs ≡ set (store xs i vs) j w
store-set [] xs i j w h = refl
store-set (v ∷ vs) xs i j w h =
    ap (λ ys. store ys (suc i) vs) (set-set_comm xs j i w v (λ e. absurd (omega arith)))
    ∙ store-set vs (set xs i v) (suc i) j w (omega arith)

store-snoc :
    (vs xs : List ℕ) (i j : ℕ) (w : ℕ)
    → j ≡ i + length vs
    → store xs i (vs ++ w ∷ []) ≡ set (store xs i vs) j w
store-snoc [] xs i j w e = ap (λ k. set xs k w) (omega arith)
store-snoc (v ∷ vs) xs i j w e = store-snoc vs (set xs i v) (suc i) j w (omega arith)

take_snoc :
    (xs : List ℕ) (i n : ℕ) {c : ℕ}
    → get_elem? xs (i + n) ≡ some c
    → take (suc n) (drop i xs) ≡ take n (drop i xs) ++ c ∷ []
take_snoc [] i n e = cc
take_snoc (x ∷ xs) zero zero {c} e =
    let here : 0 + 0 ≡ 0 = omega arith in
    let same : some x ≡ some c = sym (ap (get_elem? (x ∷ xs)) here) ∙ e in cc
take_snoc (x ∷ xs) zero (suc n) e =
    let step : 0 + suc n ≡ suc (0 + n) = omega arith in
    ap (◌∷◌ x) (take_snoc xs 0 n (sym (ap (get_elem? (x ∷ xs)) step) ∙ e))
take_snoc (x ∷ xs) (suc i) n e =
    let step : suc i + n ≡ suc (i + n) = omega arith in
    take_snoc xs i n (sym (ap (get_elem? (x ∷ xs)) step) ∙ e)

take-drop-set :
    (xs : List ℕ) (i n j : ℕ) (v : ℕ)
    → i + n ≤ j
    → take n (drop i (set xs j v)) ≡ take n (drop i xs)
take-drop-set [] i n j v h = refl
take-drop-set (x ∷ xs) zero zero j v h = refl
take-drop-set (x ∷ xs) zero (suc n) zero v h = absurd (omega arith)
take-drop-set (x ∷ xs) zero (suc n) (suc j) v h =
    ap (◌∷◌ x) (take-drop-set xs 0 n j v (omega arith))
take-drop-set (x ∷ xs) (suc i) n zero v h = absurd (omega arith)
take-drop-set (x ∷ xs) (suc i) n (suc j) v h = take-drop-set xs i n j v (omega arith)

pub memcpy_lem :
    (mem : List ℕ) (to from n : ℕ)
    → from + n ≤ length mem
    → to + n ≤ length mem
    → apart to from n ≡ true
    → memcpy mem to from n ≡ ok (store mem to (take n (drop from mem)))
unfolding memcpy
memcpy_lem mem to from n h k free =
    let size : length (take n (drop from mem)) ≡ n =
      omega (arith, length-take n (drop from mem), length-drop from mem) in
    rw (free, read-ok mem from n h) (write-ok mem to (take n (drop from mem)) (omega (arith, size)))

-- Where both stretches lie inside the object and the destination does not lie in front of the source,
-- memcpy_back() copies as if through a temporary, also between stretches that overlap.
pub memcpy_back_lem :
    (mem : List ℕ) (to from n : ℕ)
    → from ≤ to
    → to + n ≤ length mem
    → memcpy_back mem to from n ≡ ok (store mem to (take n (drop from mem)))
unfolding memcpy_back copy_byte
memcpy_back_lem mem to from zero h k = refl
memcpy_back_lem mem to from (suc n) h k =
    let (c, here) = get_elem?-lt mem (from + n) (omega arith) in
    let inside : ltb (to + n) (length mem) ≡ true = ground arith in
    let mem' : List ℕ = set mem (to + n) c in
    let rest = memcpy_back_lem mem' to from n h (omega (arith, length-set mem (to + n) c)) in
    let source : take n (drop from mem') ≡ take n (drop from mem) =
      take-drop-set mem from n (to + n) c (omega arith) in
    let size : length (take n (drop from mem)) ≡ n =
      omega (arith, length-take n (drop from mem), length-drop from mem) in
    let bytes = take n (drop from mem) in
    let all : store mem' to bytes ≡ store mem to (take (suc n) (drop from mem)) =
      store-set bytes mem to (to + n) c (omega (arith, size))
      ∙ sym (store-snoc bytes mem to (to + n) c (omega (arith, size)))
      ∙ ap (store mem to) (sym (take_snoc mem from n here)) in
    rw (here, inside) (rest ∙ ap (λ bs. ok (store mem' to bs)) source ∙ ap ok all)

pub memcpy-fault :
    (mem : List ℕ) (to from n : ℕ) → apart to from n ≡ false → memcpy mem to from n ≡ fault
unfolding memcpy
memcpy-fault mem to from n overlap = rw overlap refl

-- Where both stretches lie inside the object, memcpy_safe() copies as if through a temporary when the
-- destination lies behind the source, and also when the stretches have no byte in common. Otherwise it
-- calls memcpy() on stretches that overlap, which is undefined.
pub memcpy_safe_lem :
    (mem : List ℕ) (to from n : ℕ)
    → from + n ≤ length mem
    → to + n ≤ length mem
    → memcpy_safe mem to from n ≡ (
        if ltb from to || apart to from n
        then ok (store mem to (take n (drop from mem)))
        else fault)
unfolding memcpy_safe
memcpy_safe_lem mem to from n h k = elim (Bool-cases (ltb from to)) [
  | inl up ↦ rw up (memcpy_back_lem mem to from n (ground arith) k)
  | inr down ↦ elim (Bool-cases (apart to from n)) [
    | inl free ↦ rw (down, free) (memcpy_lem mem to from n h k free)
    | inr overlap ↦ rw (down, overlap) (memcpy-fault mem to from n overlap)
  ]
]
