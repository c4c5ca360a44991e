-- ===== src/MemPool/Tests.antt =====
-- The theorems on source/MemPool.c at concrete pools.
use alib_c.Common.{
  ℕ, ◌≡◌, refl, Bool, true, false, none, some, [], ◌∷◌, arith, ◌==◌, alib_ok, get_elem?,
}
use alib_c.Common.Run.{ok}
use alib_c.ArrayList.State.{ArrayList}
use alib_c.ArrayList.Invariant
use alib_c.MemPool.{MemPool, reserve_block, unreserve_block, fill_resized_memory}
use alib_c.MemPool.Reserve.{
  IsValid, taken, unused, first_free, reserved_at, reserve_block-unreserve_block,
}
use alib_c.MemPool.Grow.{reserve_block_grows}
use alib_c.MemPool.Fill.{pool_of, fill_resized_memory_lem}

abbrev always : ℕ → Bool
always n = true

abbrev once : ℕ → Bool
once n = n == 0

abbrev two_slots : ArrayList
two_slots = record {
  list = some (some 0 ∷ some 1 ∷ []);
  count = 2;
  capacity = 2;
  max_cap = 2;
  frees = true;
  use_mutex = true;
  locked = false;
}

abbrev half_used : MemPool
half_used = record { array = two_slots; reserved_count = 1; blocks = taken ∷ unused ∷ [] }

abbrev used_up : MemPool
used_up = record { array = two_slots; reserved_count = 2; blocks = taken ∷ taken ∷ [] }

two_slots-IsValid : Invariant.IsValid two_slots
two_slots-IsValid = record {
  allocated = refl;
  counted = refl;
  capped = omega arith;
  bounded = omega arith;
}

half_used-IsValid : IsValid half_used
half_used-IsValid = record {
  sized = refl;
  counted = refl;
  array_valid = two_slots-IsValid;
  holds = refl;
  reserved = refl;
  bounded = omega arith;
}

reserve_block-unreserve_block_example :
    (b : ℕ) × (p' : MemPool) × (reserve_block always always half_used ≡ ok (some b, p'))
    × (first_free 0 (taken ∷ unused ∷ []) ≡ some b)
    × (get_elem? (taken ∷ unused ∷ []) b ≡ some unused)
    × (p' ≡ reserved_at half_used b)
    × IsValid p'
    × (unreserve_block p' (some b) ≡ ok (half_used, none))
reserve_block-unreserve_block_example =
    reserve_block-unreserve_block always always half_used-IsValid (omega arith)

fill_resized_memory_lem_example :
    fill_resized_memory always (pool_of two_slots 1 (some 0 ∷ none ∷ []) (taken ∷ []))
    ≡ ok (alib_ok, pool_of two_slots 1 (some 0 ∷ some 1 ∷ []) (taken ∷ unused ∷ []))
fill_resized_memory_lem_example =
    fill_resized_memory_lem always two_slots 1 1 (some 0 ∷ []) (taken ∷ []) (λ n. refl) refl refl
      (omega arith) refl refl

abbrev growing : MemPool
growing = record used_up { array = record two_slots { max_cap = 7 } }

growing-IsValid : IsValid growing
growing-IsValid = record {
  sized = refl;
  counted = refl;
  array_valid = record {
    allocated = refl;
    counted = refl;
    capped = omega arith;
    bounded = omega arith;
  };
  holds = refl;
  reserved = refl;
  bounded = omega arith;
}

reserve_block_grows_example :
    (p₁ : MemPool) × (b : ℕ) × (reserve_block always always growing ≡ ok (some b, reserved_at p₁ b))
    × IsValid (reserved_at p₁ b)
    × (p₁.blocks ≡ taken ∷ taken ∷ unused ∷ unused ∷ [])
    × (p₁.array.capacity ≡ 4)
    × (p₁.array.locked ≡ false)
    × (first_free 0 p₁.blocks ≡ some b)
reserve_block_grows_example =
    reserve_block_grows {room = always} {grants = always} (λ n. refl) (λ n. refl) growing-IsValid
      refl refl refl (omega arith) (omega arith)
