-- ===== src/Endianess.antt =====
-- source/Endianess.c: flip_endianess() on the memory of an item.
use alib_c.Common.{
  ℕ, zero, suc, ◌+◌, ◌-◌, ◌≤◌, ◌<◌, ◌≡◌, refl, ◌∙◌, inl, inr, true, false, Option, none, some, List,
  [], ◌∷◌, arith, length, get_elem?, get_elem?-lt, set, length-set, ltb, ◌==◌, if◌then◌else◌,
  le_cases,
}
use alib_c.Common.Run.{Run, ok, fault, ◌>>=◌}

-- `holder = *it_begin; *it_begin = *it_end; *it_end = holder;`
pub swap_at : List ℕ → ℕ → ℕ → Option ℕ → Option ℕ → Run (List ℕ)
swap_at mem b e (some x) (some y) = ok (set (set mem b y) e x)
swap_at mem b e _ _ = fault

-- The loop, which moves both pointers up. A round behind the last byte of the memory is a fault, so
-- there are no more rounds than bytes.
pub flip_from : ℕ → ℕ → ℕ → List ℕ → Run (List ℕ)
flip_from zero b e mem = if ltb b e then fault else ok mem
flip_from (suc n) b e mem =
    if ltb b e
    then (do
      mem' ← swap_at mem b e (get_elem? mem b) (get_elem? mem e)
      flip_from n (b + 1) (e + 1) mem')
    else ok mem

-- flip_endianess() of an item that lies at the start of `mem`; `itm + size - 1` lies in front of it when
-- the size is 0.
pub flip_endianess : List ℕ → ℕ → Run (List ℕ)
flip_endianess mem size = if size == 0 then ok mem else flip_from (length mem) 0 (size - 1) mem

out-of_range : (mem : List ℕ) (i : ℕ) → length mem ≤ i → get_elem? mem i ≡ none
out-of_range [] i h = refl
out-of_range (x ∷ xs) zero h = absurd (omega arith)
out-of_range (x ∷ xs) (suc i) h = out-of_range xs i (omega arith)

swap_at-out : (mem : List ℕ) (b e : ℕ) (x : Option ℕ) → swap_at mem b e x none ≡ fault
unfolding swap_at
swap_at-out mem b e none = refl
swap_at-out mem b e (some x) = refl

swap_at-some :
    (mem : List ℕ) (b e x y : ℕ) → swap_at mem b e (some x) (some y) ≡ ok (set (set mem b y) e x)
unfolding swap_at
swap_at-some mem b e x y = refl

flip_from-fault :
    (n b e : ℕ) (mem : List ℕ) → b < e → length mem ≤ n + e → flip_from n b e mem ≡ fault
unfolding flip_from
flip_from-fault zero b e mem h k = let go : ltb b e ≡ true = ground arith in rw go
flip_from-fault (suc n) b e mem h k =
    let go : ltb b e ≡ true = ground arith in
    elim (le_cases (length mem) e) [
      | inl out ↦ rw (go, out-of_range mem e out, swap_at-out mem b e (get_elem? mem b))
      | inr inside ↦
          let (x, first) = get_elem?-lt mem b (omega arith) in
          let (y, second) = get_elem?-lt mem e (omega arith) in
          let mem' : List ℕ = set (set mem b y) e x in
          let same : length mem' ≡ length mem = length-set (set mem b y) e x ∙ length-set mem b y in
          let swapped : swap_at mem b e (some x) (some y) ≡ ok mem' = swap_at-some mem b e x y in
          rw (go, first, second, swapped)
            (flip_from-fault n (b + 1) (e + 1) mem' (omega arith) (omega (arith, same)))
    ]

-- flip_endianess() of an item of at least two bytes runs into an access behind the memory that holds
-- the item.
pub flip_endianess_runaway :
    (mem : List ℕ) (size : ℕ) → 1 < size → size ≤ length mem → flip_endianess mem size ≡ fault
unfolding flip_endianess
flip_endianess_runaway mem size h k =
    let some_bytes : (size == 0) ≡ false = ground arith in
    rw some_bytes (flip_from-fault (length mem) 0 (size - 1) mem (omega arith) (omega arith))
