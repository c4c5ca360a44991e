-- ===== src/MemPool/Grow.antt =====
-- MemPool_reserve_block() of a pool that is used up: expand() through ArrayList_resize_tsafe().
use alib_c.Common.{
  ℕ, zero, suc, ◌+◌, ◌-◌, ◌*◌, ◌≤◌, ◌<◌, ◌^◌, min, ◌≡◌, refl, sym, ap, ap₂, ◌∙◌, Bool, true, false,
  Option, none, some, List, [], ◌∷◌, ◌++◌, arith, length, length-append, length-replicate,
  length-take, replicate, ◌==◌, if◌then◌else◌, alib_ok,
}
use mathlib.Core.Path.{subst}
use alib_c.Common.Run.{ok, ◌>>=◌}
use alib_c.ArrayList.State.{Slot, ArrayList, array, slots, items}
use alib_c.ArrayList.Resize.{resize}
use alib_c.ArrayList.Invariant
use alib_c.ArrayList.Invariant.{Roomy, items-append}
use alib_c.ArrayList.Packing.{Fits, Fits-grows}
use alib_c.ArrayList.Resizing.{resize_lem}
use alib_c.ArrayList.Guarded.{set_locked-IsValid}
use alib_c.ArrayList.Locked.{with_mutex-locked}
use alib_c.MemPool.{
  MemPoolBlock, MemPool, resize_array, doubled, fill_resized, fill_resized_memory, expand,
  after_expand, reserve_free, reserve_block,
}
use alib_c.MemPool.Reserve.{
  IsValid, unused, numbers, count_reserved, first_free, reserved_at, reserve_block-unreserve_block,
}
use alib_c.MemPool.Fill.{pool_of, fill_resized_memory_lem}

length-numbers : (i n : ℕ) → length (numbers i n) ≡ n
length-numbers i zero = refl
length-numbers i (suc n) = ap suc (length-numbers (suc i) n)

items-numbers : (i n : ℕ) → length (items (numbers i n)) ≡ n
items-numbers i zero = refl
items-numbers i (suc n) = ap suc (items-numbers (suc i) n)

numbers-append : (i m n : ℕ) → numbers i m ++ numbers (i + m) n ≡ numbers i (m + n)
numbers-append i zero n = ap₂ numbers (omega arith) (omega arith)
numbers-append i (suc m) n =
    let next : i + suc m ≡ suc i + m = omega arith in
    let all : suc (m + n) ≡ suc m + n = omega arith in
    ap (◌∷◌ (some i)) (ap (λ j. numbers (suc i) m ++ numbers j n) next ∙ numbers-append (suc i) m n)
    ∙ ap (numbers i) all

count_reserved-unused :
    (bs : List MemPoolBlock) (k : ℕ) → count_reserved (bs ++ replicate k unused) ≡ count_reserved bs
count_reserved-unused [] zero = refl
count_reserved-unused [] (suc k) = omega (arith, count_reserved-unused [] k)
count_reserved-unused (b ∷ bs) k =
    ap (λ n. (if b.reserved then 1 else 0) + n) (count_reserved-unused bs k)

some_of_slots : (list : Option (List Slot)) → 0 < length (array list) → list ≡ some (array list)
some_of_slots none h = absurd (omega arith)
some_of_slots (some xs) h = refl

doubled_lem :
    (grants room : ℕ → Bool) (cap : ℕ) → cap * 2 < 2 ^ 64 → doubled grants room cap ≡ cap * 2
unfolding doubled
doubled_lem grants room cap h = ground arith

-- The array after ArrayList_resize_tsafe().
resize_array-Fits :
    (grants : ℕ → Bool) {room : ℕ → Bool} {l : ArrayList} (n : ℕ)
    → Roomy room
    → Invariant.IsValid l
    → l.use_mutex ≡ true
    → l.locked ≡ false
    → 0 < n
    → n ≤ l.max_cap
    → (l' : ArrayList) × (resize_array grants room l n ≡ ok (record l' { locked = false }, n))
      × Fits (record l { locked = true }) n l'
unfolding resize_array
resize_array-Fits grants {room} {l} n roomy v m f h k =
    let (l', runs, fits) = resize_lem {room = room} roomy n (set_locked-IsValid true v) h k in
    (
      l',
      with_mutex-locked l (λ l₁. resize room l₁ n >>= (λ r. ok (r.0, r.1))) {l' = l'} {a = n} m f
          (rw runs),
      fits,
    )

-- The pool with `k` new blocks behind its own, in an array that has been resized to hold them.
abbrev pub grown_pool : MemPool → ArrayList → ℕ → MemPool
grown_pool p a k =
    pool_of (record a { locked = false }) p.reserved_count
      (numbers 0 (length p.blocks) ++ numbers (length p.blocks) k) (p.blocks ++ replicate k unused)

grown_pool-IsValid :
    {p : MemPool} (a : ArrayList) (k : ℕ)
    → IsValid p
    → a.capacity ≡ length p.blocks + k
    → a.capacity ≤ a.max_cap
    → (0 < a.max_cap) × (a.max_cap < 2 ^ 64)
    → IsValid (grown_pool p a k)
grown_pool-IsValid {p} a k v c h b =
    let n : ℕ = length p.blocks in
    let size : length (p.blocks ++ replicate k unused) ≡ n + k =
      omega (arith, length-append p.blocks (replicate k unused), length-replicate k unused) in
    let start : n ≡ 0 + n = omega arith in
    let row : numbers 0 n ++ numbers n k ≡ numbers 0 (n + k) =
      ap (λ j. numbers 0 n ++ numbers j k) start ∙ numbers-append 0 n k in
    record {
      sized = c ∙ sym size;
      counted = refl;
      array_valid = record {
        allocated = ap length row ∙ length-numbers 0 (n + k) ∙ sym c;
        counted = size ∙ sym (ap (λ xs. length (items xs)) row ∙ items-numbers 0 (n + k));
        capped = h;
        bounded = b;
      };
      holds = row ∙ ap (numbers 0) (sym size);
      reserved = v.reserved ∙ sym (count_reserved-unused p.blocks k);
      bounded = omega (arith, size, c, h, b);
    }

-- fill_resized() of the resized array.
fill_resized-grown :
    {grants : ℕ → Bool} (room : ℕ → Bool) {p : MemPool} {a : ArrayList}
    → Roomy grants
    → IsValid p
    → 0 < p.array.capacity
    → a.use_mutex ≡ true
    → Fits (record p.array { locked = true }) (p.array.capacity * 2) a
    → fill_resized grants room p (record a { locked = false }, p.array.capacity * 2)
      ≡ ok (alib_ok, grown_pool p a p.array.capacity)
unfolding fill_resized
fill_resized-grown {grants} room {p} {a} g v h m fits =
    let cap : ℕ = p.array.capacity in
    let bs = p.blocks in
    let twice : cap * 2 - cap ≡ cap = omega arith in
    let all : min (cap * 2) (length (items (slots p.array))) ≡ length bs =
      omega (arith, v.array_valid.counted, v.counted, v.sized) in
    let in_place : slots a ≡ numbers 0 (length bs) ++ replicate cap none =
      Fits-grows fits (omega arith) ∙ ap₂ (λ xs k. xs ++ replicate k none) v.holds twice in
    let there : a.list ≡ some (numbers 0 (length bs) ++ replicate cap none) =
      some_of_slots a.list (omega (arith, fits.valid.allocated, fits.capacity))
      ∙ ap some in_place in
    let count : a.count ≡ length bs =
      fits.valid.counted
      ∙ ap length fits.holds
      ∙ length-take (cap * 2) (items (slots p.array))
      ∙ all in
    let more : (cap * 2 == a.count) ≡ false = ground (arith, count, v.sized) in
    let filled =
      fill_resized_memory_lem grants (record a { locked = false }) p.reserved_count cap
        (numbers 0 (length bs)) bs g (length-numbers 0 (length bs))
        (omega (arith, fits.capacity, v.sized))
        (omega (arith, fits.valid.capped, fits.valid.bounded)) m refl in
    rw more (
      ap₂
        (λ ls c.
          fill_resized_memory grants
            (record p { array = record a { list = ls; count = c; locked = false } }))
        there count
      ∙ filled)

reserve_block-reserve_free :
    (grants room : ℕ → Bool) (p : MemPool)
    → p.reserved_count < p.array.capacity
    → reserve_block grants room p ≡ reserve_free grants room p
unfolding reserve_block
reserve_block-reserve_free grants room p h =
    let some_free : (p.reserved_count == p.array.capacity) ≡ false = ground arith in rw some_free

-- If allocation succeeds and twice the capacity, which is not 0, is within the maximum,
-- MemPool_reserve_block() of a valid pool whose blocks are all reserved, with a mutex in use that is
-- free, doubles the capacity, makes as many new blocks as there were, and reserves the first block
-- that is free; the pool stays valid and its mutex free.
pub reserve_block_grows :
    {room grants : ℕ → Bool} {p : MemPool}
    → Roomy room
    → Roomy grants
    → IsValid p
    → p.array.use_mutex ≡ true
    → p.array.locked ≡ false
    → p.reserved_count ≡ p.array.capacity
    → 0 < p.array.capacity
    → p.array.capacity * 2 ≤ p.array.max_cap
    → (p₁ : MemPool) × (b : ℕ) × (reserve_block grants room p ≡ ok (some b, reserved_at p₁ b))
      × IsValid (reserved_at p₁ b)
      × (p₁.blocks ≡ p.blocks ++ replicate p.array.capacity unused)
      × (p₁.array.capacity ≡ p.array.capacity * 2)
      × (p₁.array.locked ≡ false)
      × (first_free 0 p₁.blocks ≡ some b)
unfolding reserve_block expand after_expand
reserve_block_grows {room} {grants} {p} roomy g v m f full h k =
    let cap : ℕ = p.array.capacity in
    let (a, resized, fits) =
      resize_array-Fits grants (cap * 2) roomy v.array_valid m f (omega arith) k in
    let bounds = v.array_valid.bounded in
    let on : a.use_mutex ≡ true = fits.use_mutex ∙ m in
    let filled = fill_resized-grown room {a = a} g v h on fits in
    let p₁ : MemPool = grown_pool p a cap in
    let v₁ : IsValid p₁ =
      grown_pool-IsValid a cap v (omega (arith, fits.capacity, v.sized)) fits.valid.capped
        fits.valid.bounded in
    let room_left : p₁.reserved_count < p₁.array.capacity = omega (arith, fits.capacity, full) in
    let (b, p', reserves, first, free, same, v', back) =
      reserve_block-unreserve_block room grants v₁ room_left in
    let all : (p.reserved_count == cap) ≡ true = ground (arith, full) in
    let below : (cap == p.array.max_cap) ≡ false = ground (arith, k, h) in
    let next : doubled grants room cap ≡ cap * 2 =
      doubled_lem grants room cap (omega (arith, k, bounds)) in
    (
      p₁,
      b,
      rw (all, below, next, resized, filled)
          (sym (reserve_block-reserve_free grants room p₁ room_left)
            ∙ reserves
            ∙ ap (λ q. ok (some b, q)) same),
      subst IsValid same v',
      refl,
      fits.capacity,
      refl,
      first,
    )
