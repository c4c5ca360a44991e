-- ===== src/MemPool.antt =====
-- source/MemPool.c and includes/MemPool_private.h: blocks of memory that are reserved and given back.
-- The blocks live in an array of pointers; a pointer to a block is its number in `blocks`, which grows
-- as blocks are made. `grants n` says whether block `n` and its data can be allocated, by malloc() and
-- the client's callback; `room n` whether the C library can allocate n pointers. Each function is what
-- stands behind its check of `pool` for NULL.

pub mod Reserve
pub mod Fill
pub mod Grow
mod Tests
use alib_c.Common.{
  ℕ, zero, suc, ◌+◌, ◌-◌, ◌*◌, ◌%◌, ◌^◌, Bool, true, false, Option, none, some, List, [], ◌∷◌, ◌++◌,
  ltb, ◌==◌, if◌then◌else◌, get_elem?, set, length, add_size, sub_size, ℤ, pos, alib_ok,
  alib_bad_arg, alib_mem_err, alib_internal_max_reached,
}
use alib_c.Common.Run.{Run, ok, fault, ◌>>=◌}
use alib_c.ArrayList.State.{Item, Slot, ArrayList, slots}
use alib_c.ArrayList.Edit.{put, ulong_max}
use alib_c.ArrayList.Resize.{Resized, resize}
use alib_c.ArrayList.Life.{new_ex, del}
use alib_c.ArrayList.Guarded.{lock, unlock}
use alib_c.ArrayList.Access.{with_mutex}

-- `reserved` says whether `reserving_pool` is set. The client's data is not modelled.
pub record MemPoolBlock : Type 0 where
  pub reserved : Bool

pub record MemPool : Type 0 where
  pub array : ArrayList
  pub reserved_count : ℕ
  pub blocks : List MemPoolBlock

abbrev pub is_reserved : MemPoolBlock → Bool
is_reserved b = b.reserved

module _ (grants : ℕ → Bool) where
  -- newMemPoolBlock()
  pub new_block : MemPool → Option (ℕ × MemPool)
  new_block p =
      let n = length p.blocks in
      if grants n
      then some (n, record p { blocks = p.blocks ++ record { reserved = false } ∷ [] })
      else none

  -- `*array_it = newMemPoolBlock(pool); if(*array_it) ++count;`
  pub store_block : MemPool → Option (ℕ × MemPool) → ℕ → Run (Bool × MemPool)
  store_block p none i = do
    xs ← put p.array.list i none
    ok (false, record p { array = record p.array { list = some xs } })
  store_block p (some (n, p')) i = do
    xs ← put p'.array.list i (some n)
    ok (
      true,
      record p' { array = record p'.array { list = some xs; count = add_size p'.array.count 1 } },
    )

  pub or_stop : (MemPool → Run (Bool × MemPool)) → Bool × MemPool → Run (Bool × MemPool)
  or_stop next (false, p) = ok (false, p)
  or_stop next (true, p) = next p

  -- The loop of fill_resized_memory(), with `n` slots left to fill from slot `i` on: whether all blocks
  -- could be made, and the pool.
  pub fill_from : ℕ → ℕ → MemPool → Run (Bool × MemPool)
  fill_from zero i p = ok (true, p)
  fill_from (suc n) i p = do
    stored ← store_block p (new_block p) i
    or_stop (λ p'. fill_from n (i + 1) p') stored

  -- A failure jumps past the unlocking.
  pub filled_pool : Bool × MemPool → ℤ × MemPool
  filled_pool (false, p) = (alib_mem_err, p)
  filled_pool (true, p) = (alib_ok, record p { array = unlock p.array })

  pub fill_resized_memory : MemPool → Run (ℤ × MemPool)
  fill_resized_memory p = do
    a ← lock p.array
    r ← fill_from (a.capacity - a.count) a.count (record p { array = a })
    ok (filled_pool r)

  module _ (room : ℕ → Bool) where
    -- ArrayList_resize_tsafe()
    pub resize_array : ArrayList → ℕ → Run (ArrayList × ℕ)
    resize_array l n = with_mutex l (λ l₁. do (l', cap, freed) ← resize room l₁ n; ok (l', cap))

    -- `new_cap = capacity * 2; if(new_cap < capacity) new_cap = ULONG_MAX;`
    pub doubled : ℕ → ℕ
    doubled cap = let c = cap * 2 % 2 ^ 64 in if ltb c cap then ulong_max else c

    -- The end of expand(): a capacity that is still the count counts as a failure.
    pub fill_resized : MemPool → ArrayList × ℕ → Run (ℤ × MemPool)
    fill_resized p (l, cap) =
        let p' = record p { array = l } in
        let filled = fill_resized_memory p' in
        if cap == l.count then ok (alib_mem_err, p') else filled

    pub expand : MemPool → Run (ℤ × MemPool)
    expand p =
        if p.array.capacity == p.array.max_cap
        then ok (alib_internal_max_reached, p)
        else do r ← resize_array p.array (doubled p.array.capacity); fill_resized p r

    -- One round of the search in MemPool_reserve_block(): a NULL slot is read through.
    pub free_at : List MemPoolBlock → Run (Option ℕ) → Option Slot → Run (Option ℕ)
    free_at blocks next (some (some b)) = elim (get_elem? blocks b) [
      | none ↦ fault
      | some block ↦ if block.reserved then next else ok (some b)
    ]
    free_at blocks next _ = fault

    pub free_from : ℕ → ℕ → List Slot → List MemPoolBlock → Run (Option ℕ)
    free_from zero i xs blocks = ok none
    free_from (suc n) i xs blocks = free_at blocks (free_from n (i + 1) xs blocks) (get_elem? xs i)

    pub reserve_at : MemPool → Option ℕ → Option ℕ × MemPool
    reserve_at p none = (none, p)
    reserve_at p (some b) = (
      some b,
      record p {
        blocks = set p.blocks b (record { reserved = true });
        reserved_count = add_size p.reserved_count 1;
      },
    )

    pub reserve_free : MemPool → Run (Option ℕ × MemPool)
    reserve_free p = do
      found ← free_from p.array.capacity 0 (slots p.array) p.blocks
      ok (reserve_at p found)

    pub after_expand : ℤ × MemPool → Run (Option ℕ × MemPool)
    after_expand (pos zero, p) = reserve_free p
    after_expand (_, p) = ok (none, p)

    -- MemPool_reserve_block()
    pub reserve_block : MemPool → Run (Option ℕ × MemPool)
    reserve_block p =
        if p.reserved_count == p.array.capacity
        then (do r ← expand p; after_expand r)
        else reserve_free p

-- MemPool_unreserve_block() on a block of this pool; one that is not reserved has no pool to count down.
pub unreserve_at : MemPool → ℕ → Option MemPoolBlock → Run MemPool
unreserve_at p b none = fault
unreserve_at p b (some block) =
    if block.reserved
    then ok (record p {
      blocks = set p.blocks b (record { reserved = false });
      reserved_count = sub_size p.reserved_count 1;
    })
    else fault

pub unreserve_block : MemPool → Option ℕ → Run (MemPool × Option ℕ)
unreserve_block p none = ok (p, none)
unreserve_block p (some b) = do p' ← unreserve_at p b (get_elem? p.blocks b); ok (p', none)

-- delMemPool(): the blocks freed
pub del_pool : Option MemPool → Run (Option MemPool × List Item)
del_pool none = ok (none, [])
del_pool (some p) = do (array, ps) ← del (some p.array); ok (none, ps)

-- newMemPool_ex() behind the construction of its array; `object` says whether malloc() of the struct
-- succeeds.
pub kept_pool : ℤ → MemPool → Run (Option MemPool)
kept_pool (pos zero) p = ok (some p)
kept_pool _ p = do (p', ps) ← del_pool (some p); ok p'

pub started_pool : (ℕ → Bool) → Option ArrayList → Run (Option MemPool)
started_pool grants none = ok none
started_pool grants (some a) = do
  (code, p) ← fill_resized_memory grants (record { array = a; reserved_count = 0; blocks = [] })
  kept_pool code p

pub new_pool_ex : (room grants : ℕ → Bool) → (object : Bool) → ℕ → ℕ → Bool → Run (Option MemPool)
new_pool_ex room grants object start max use_mutex =
    if object then started_pool grants (new_ex room true true start max use_mutex) else ok none

abbrev pub mempool_default_max_capacity : ℕ
mempool_default_max_capacity = 256

pub new_pool : (room grants : ℕ → Bool) → (object : Bool) → Run (Option MemPool)
new_pool room grants object = new_pool_ex room grants object 1 mempool_default_max_capacity true
