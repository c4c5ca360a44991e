-- ===== src/MemPool/Reserve.antt =====
-- MemPool_reserve_block() and MemPool_unreserve_block() while some block is free.
use alib_c.Common.{
  ℕ, zero, suc, ◌+◌, ◌<◌, ◌^◌, ◌≡◌, refl, sym, ap, ◌∙◌, Bool, true, false, inl, inr, Bool-cases,
  Option, none, some, List, [], ◌∷◌, arith, length, drop, get_elem?, set, ◌==◌, if◌then◌else◌,
  add_size, sub_size, length-set, get_elem?-set_self, ap₂,
}
use alib_c.Common.Run.{ok}
use alib_c.ArrayList.State.{Slot, slots}
use alib_c.ArrayList.Invariant
use alib_c.MemPool.{
  MemPoolBlock, MemPool, free_at, free_from, reserve_at, reserve_free, reserve_block, expand,
  after_expand, unreserve_at, unreserve_block,
}

abbrev pub taken : MemPoolBlock
taken = record { reserved = true }

abbrev pub unused : MemPoolBlock
unused = record { reserved = false }

abbrev pub count_reserved : List MemPoolBlock → ℕ
count_reserved [] = 0
count_reserved (b ∷ bs) = (if b.reserved then 1 else 0) + count_reserved bs

-- Slots that hold the blocks from `i` on.
abbrev pub numbers : ℕ → ℕ → List Slot
numbers i zero = []
numbers i (suc n) = some i ∷ numbers (suc i) n

-- Slot `i` of the array holds block `i`, and the pool counts the blocks reserved.
pub record IsValid (p : MemPool) : Type 0 where
  pub sized : p.array.capacity ≡ length p.blocks
  pub counted : p.array.count ≡ length p.blocks
  pub array_valid : Invariant.IsValid p.array
  pub holds : slots p.array ≡ numbers 0 (length p.blocks)
  pub reserved : p.reserved_count ≡ count_reserved p.blocks
  pub bounded : length p.blocks < 2 ^ 64

-- The number of the first block that is free, counted from `i`.
pub first_free : ℕ → List MemPoolBlock → Option ℕ
first_free i [] = none
first_free i (b ∷ bs) = if b.reserved then first_free (i + 1) bs else some i

get_elem?-numbers : (n i j : ℕ) → j < n → get_elem? (numbers i n) j ≡ some (some (i + j))
get_elem?-numbers zero i j h = absurd (omega arith)
get_elem?-numbers (suc n) i zero h = ap (λ k. some (some k)) (omega arith)
get_elem?-numbers (suc n) i (suc j) h =
    get_elem?-numbers n (suc i) j (omega arith) ∙ ap (λ k. some (some k)) (omega arith)

get_elem?-of_drop :
    (i : ℕ) (bs : List MemPoolBlock) {b : MemPoolBlock} {rest : List MemPoolBlock}
    → drop i bs ≡ b ∷ rest
    → (get_elem? bs i ≡ some b) × (drop (suc i) bs ≡ rest) × (i < length bs)
get_elem?-of_drop zero [] e = cc
get_elem?-of_drop zero (c ∷ bs) e = (cc, cc, omega arith)
get_elem?-of_drop (suc i) [] e = cc
get_elem?-of_drop (suc i) (c ∷ bs) e =
    let (a, b, h) = get_elem?-of_drop i bs e in (a, b, omega (arith, h))

module _ (room : ℕ → Bool) (grants : ℕ → Bool) where
  free_from-first :
      (rest : List MemPoolBlock) (i : ℕ) (xs : List Slot) (blocks : List MemPoolBlock)
      → xs ≡ numbers 0 (length blocks)
      → drop i blocks ≡ rest
      → free_from grants room (length rest) i xs blocks ≡ ok (first_free i rest)
  unfolding free_from free_at first_free
  free_from-first [] i xs blocks h e = refl
  free_from-first (b ∷ rest) i xs blocks h e =
      let (here, next, inside) = get_elem?-of_drop i blocks e in
      let step : suc i ≡ i + 1 = omega arith in
      let later =
        free_from-first rest (i + 1) xs blocks h (ap (λ k. drop k blocks) (sym step) ∙ next) in
      let block : get_elem? xs i ≡ some (some i) =
        ap (λ ys. get_elem? ys i) h
        ∙ get_elem?-numbers (length blocks) 0 i inside
        ∙ ap (λ k. some (some k)) (omega arith) in
      rw (block, free_at, here, later) (free_at-first b rest i)
    where
      free_at-first :
          (b : MemPoolBlock) (rest : List MemPoolBlock) (i : ℕ)
          → (if b.reserved then ok (first_free (i + 1) rest) else ok (some i))
            ≡ ok (if b.reserved then first_free (i + 1) rest else some i)
      free_at-first b rest i = elim (Bool-cases b.reserved) [ inl e ↦ rw e | inr e ↦ rw e ]

  first_free-some :
      (bs : List MemPoolBlock) (i : ℕ)
      → count_reserved bs < length bs
      → (j : ℕ) × (first_free i bs ≡ some (i + j))
        × (get_elem? bs j ≡ some unused)
        × (count_reserved (set bs j taken) ≡ count_reserved bs + 1)
        × (j < length bs)
  unfolding first_free
  first_free-some [] i h = absurd (omega arith)
  first_free-some (b ∷ bs) i h = elim (Bool-cases b.reserved) [
    | inl busy ↦
        let (j, first, at, count, inside) = first_free-some bs (i + 1) (ground arith) in
        let shift : i + 1 + j ≡ i + suc j = omega arith in
        (suc j, rw (busy, first, shift), at, rw (busy, count) (omega arith), omega (arith, inside))
    | inr free ↦
        let none_skipped : i ≡ i + 0 = omega arith in
        (
          0,
          rw free (ap some none_skipped),
          ap (λ r. some (record { reserved = r })) free,
          rw free (omega arith),
          omega arith,
        )
  ]

set-set_back :
    (bs : List MemPoolBlock) (j : ℕ) {b : MemPoolBlock} (c : MemPoolBlock)
    → get_elem? bs j ≡ some b
    → set (set bs j c) j b ≡ bs
set-set_back [] j c e = refl
set-set_back (d ∷ bs) zero c e = cc
set-set_back (d ∷ bs) (suc j) c e = ap (◌∷◌ d) (set-set_back bs j c e)

-- The pool with block `b` reserved.
abbrev pub reserved_at : MemPool → ℕ → MemPool
reserved_at p b = record p { blocks = set p.blocks b taken; reserved_count = p.reserved_count + 1 }

-- Unreserving block `b` again gives back the pool as it was.
unreserve_block-reserved_at :
    {p : MemPool} (b : ℕ)
    → IsValid p
    → b < length p.blocks
    → p.reserved_count < 2 ^ 64
    → get_elem? p.blocks b ≡ some unused
    → unreserve_block (reserved_at p b) (some b) ≡ ok (p, none)
unfolding unreserve_block unreserve_at
unreserve_block-reserved_at {p} b v h k e =
    let held : get_elem? (set p.blocks b taken) b ≡ some taken =
      get_elem?-set_self p.blocks b taken h in
    let back : set (set p.blocks b taken) b unused ≡ p.blocks = set-set_back p.blocks b taken e in
    let count : sub_size (p.reserved_count + 1) 1 ≡ p.reserved_count = omega arith in
    rw held (
      ap₂ (λ bs n. ok (record { array = p.array; reserved_count = n; blocks = bs }, none)) back
        count)

-- While fewer blocks of a valid pool are reserved than there are, MemPool_reserve_block() reserves
-- the first free block and counts it, without touching the array, and leaves the pool valid;
-- MemPool_unreserve_block() of that block then gives back the pool as it was, and NULL for the
-- pointer.
pub reserve_block-unreserve_block :
    (room grants : ℕ → Bool) {p : MemPool}
    → IsValid p
    → p.reserved_count < p.array.capacity
    → (b : ℕ) × (p' : MemPool) × (reserve_block grants room p ≡ ok (some b, p'))
      × (first_free 0 p.blocks ≡ some b)
      × (get_elem? p.blocks b ≡ some unused)
      × (p' ≡ reserved_at p b)
      × IsValid p'
      × (unreserve_block p' (some b) ≡ ok (p, none))
unfolding reserve_block reserve_free reserve_at
reserve_block-unreserve_block room grants {p} v h =
    let (b, first, at, count, inside) =
      first_free-some room grants p.blocks 0 (omega (arith, v.reserved, v.sized)) in
    let some_free : (p.reserved_count == p.array.capacity) ≡ false = ground arith in
    let start : 0 + b ≡ b = omega arith in
    let found : free_from grants room p.array.capacity 0 (slots p.array) p.blocks ≡ ok (some b) =
      ap (λ n. free_from grants room n 0 (slots p.array) p.blocks) v.sized
      ∙ free_from-first room grants p.blocks 0 (slots p.array) p.blocks v.holds refl
      ∙ ap ok (first ∙ ap some start) in
    let sum : add_size p.reserved_count 1 ≡ p.reserved_count + 1 =
      omega (arith, v.bounded, v.sized) in
    let same : length (set p.blocks b taken) ≡ length p.blocks = length-set p.blocks b taken in
    (
      b,
      reserved_at p b,
      rw (some_free, found, sum),
      first ∙ ap some start,
      at,
      refl,
      record {
        sized = v.sized ∙ sym same;
        counted = v.counted ∙ sym same;
        array_valid = v.array_valid;
        holds = v.holds ∙ ap (numbers 0) (sym same);
        reserved = omega (arith, v.reserved, count);
        bounded = omega (arith, v.bounded, same);
      },
      unreserve_block-reserved_at b v inside (omega (arith, v.bounded, v.sized)) at,
    )

-- A pool at its maximum with all blocks reserved gives no more, and stays as it is.
pub reserve_block_exhausted :
    (room grants : ℕ → Bool) {p : MemPool}
    → p.reserved_count ≡ p.array.capacity
    → p.array.capacity ≡ p.array.max_cap
    → reserve_block grants room p ≡ ok (none, p)
unfolding reserve_block expand after_expand
reserve_block_exhausted room grants {p} e m =
    let all : (p.reserved_count == p.array.capacity) ≡ true = ground arith in
    let at_max : (p.array.capacity == p.array.max_cap) ≡ true = ground arith in rw (all, at_max)
