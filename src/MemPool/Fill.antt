-- ===== src/MemPool/Fill.antt =====
-- fill_resized_memory(): the blocks of new slots, and what a failure leaves.
use alib_c.Common.{
  ℕ, zero, suc, ◌+◌, ◌-◌, ◌<◌, ◌^◌, ◌≡◌, refl, sym, ap, ap₂, ◌∙◌, Bool, true, false, none, some,
  List, [], ◌∷◌, ◌++◌, append-nil, append_assoc, arith, length, length-append, replicate, set, ltb,
  add_size, alib_ok, alib_mem_err,
}
use alib_c.Common.Run.{ok, fault}
use alib_c.ArrayList.State.{Slot, ArrayList}
use alib_c.ArrayList.Edit.{put}
use alib_c.ArrayList.Guarded.{lock, unlock, mutex_lock, mutex_unlock, mutex_lock-free}
use alib_c.MemPool.{
  MemPoolBlock, MemPool, new_block, store_block, or_stop, fill_from, filled_pool,
  fill_resized_memory,
}
use alib_c.MemPool.Reserve.{unused, numbers}

-- A pool with these slots, as many of which are in use as there are blocks.
abbrev pub pool_of : ArrayList → ℕ → List Slot → List MemPoolBlock → MemPool
pool_of a rc xs bs = record {
  array = record a { list = some xs; count = length bs };
  reserved_count = rc;
  blocks = bs;
}

set-behind :
    (pre rest : List Slot) (x y : Slot) → set (pre ++ x ∷ rest) (length pre) y ≡ pre ++ y ∷ rest
set-behind [] rest x y = refl
set-behind (z ∷ pre) rest x y = ap (◌∷◌ z) (set-behind pre rest x y)

put-behind :
    (pre rest : List Slot) (x y : Slot) (i : ℕ)
    → i ≡ length pre
    → put (some (pre ++ x ∷ rest)) i y ≡ ok (pre ++ y ∷ rest)
unfolding put
put-behind pre rest x y i e =
    let inside : ltb (length pre) (length (pre ++ x ∷ rest)) ≡ true =
      ground (arith, length-append pre (x ∷ rest)) in
    rw (e, inside) (ap ok (set-behind pre rest x y))

lock-free :
    (l : ArrayList)
    → l.use_mutex ≡ true
    → l.locked ≡ false
    → lock l ≡ ok (record l { locked = true })
unfolding lock
lock-free l m f = let on : lock l ≡ mutex_lock l = rw m in on ∙ mutex_lock-free l f

unlock-used : (l : ArrayList) → l.use_mutex ≡ true → unlock l ≡ mutex_unlock l
unfolding unlock
unlock-used l m = rw m

lock-held : (l : ArrayList) → l.use_mutex ≡ true → l.locked ≡ true → lock l ≡ fault
unfolding lock mutex_lock
lock-held l m f =
    let on : lock l ≡ mutex_lock l = rw m in let held : mutex_lock l ≡ fault = rw f in on ∙ held

module _ (grants : ℕ → Bool) (a : ArrayList) (rc : ℕ) where
  -- A round that makes a block.
  store_block-made :
      (pre rest : List Slot) (bs : List MemPoolBlock)
      → grants (length bs) ≡ true
      → length pre ≡ length bs
      → length bs + 1 < 2 ^ 64
      → store_block grants
          (pool_of a rc (pre ++ none ∷ rest) bs)
          (new_block grants (pool_of a rc (pre ++ none ∷ rest) bs))
          (length bs)
        ≡ ok (true, pool_of a rc (pre ++ some (length bs) ∷ rest) (bs ++ unused ∷ []))
  unfolding store_block new_block
  store_block-made pre rest bs g e k =
      let sum : add_size (length bs) 1 ≡ length (bs ++ unused ∷ []) =
        omega (arith, length-append bs (unused ∷ [])) in
      rw (g, put-behind pre rest none (some (length bs)) (length bs) (sym e), sum)

  -- All rounds of the loop, if every block can be made.
  fill_from-made :
      (k i : ℕ) (pre : List Slot) (bs : List MemPoolBlock)
      → ((n : ℕ) → grants n ≡ true)
      → length pre ≡ length bs
      → i ≡ length bs
      → length bs + k < 2 ^ 64
      → fill_from grants k i (pool_of a rc (pre ++ replicate k none) bs)
        ≡ ok (true, pool_of a rc (pre ++ numbers (length bs) k) (bs ++ replicate k unused))
  unfolding fill_from or_stop
  fill_from-made zero i pre bs g e s h =
      ap (λ cs. ok (true, pool_of a rc (pre ++ []) cs)) (sym (append-nil bs))
  fill_from-made (suc k) i pre bs g e s h =
      let made = store_block-made pre (replicate k none) bs (g (length bs)) e (omega arith) in
      let pre' : List Slot = pre ++ some (length bs) ∷ [] in
      let bs' : List MemPoolBlock = bs ++ unused ∷ [] in
      let longer : length bs' ≡ suc (length bs) = omega (arith, length-append bs (unused ∷ [])) in
      let grown : length pre' ≡ length bs' =
        omega (arith, length-append pre (some (length bs) ∷ []), longer) in
      let rest = fill_from-made k (i + 1) pre' bs' g grown (omega arith) (omega (arith, longer)) in
      let here : pre' ++ replicate k none ≡ pre ++ some (length bs) ∷ replicate k none =
        append_assoc pre (some (length bs) ∷ []) (replicate k none) in
      let filled : pre' ++ numbers (length bs') k ≡ pre ++ numbers (length bs) (suc k) =
        ap (λ n. pre' ++ numbers n k) longer
        ∙ append_assoc pre (some (length bs) ∷ []) (numbers (suc (length bs)) k) in
      let blocks : bs' ++ replicate k unused ≡ bs ++ replicate (suc k) unused =
        append_assoc bs (unused ∷ []) (replicate k unused) in
      rw (s, made)
        (ap (λ xs. fill_from grants k (length bs + 1) (pool_of a rc xs bs')) (sym here)
          ∙ ap (λ n. fill_from grants k (n + 1) (pool_of a rc (pre' ++ replicate k none) bs'))
              (sym s)
          ∙ rest
          ∙ ap₂ (λ xs cs. ok (true, pool_of a rc xs cs)) filled blocks)

  -- A round that cannot make its block ends the loop.
  fill_from-failed :
      (k i : ℕ) (pre rest : List Slot) (bs : List MemPoolBlock)
      → grants (length bs) ≡ false
      → length pre ≡ length bs
      → i ≡ length bs
      → fill_from grants (suc k) i (pool_of a rc (pre ++ none ∷ rest) bs)
        ≡ ok (false, pool_of a rc (pre ++ none ∷ rest) bs)
  unfolding fill_from or_stop store_block new_block
  fill_from-failed k i pre rest bs g e s = rw (g, put-behind pre rest none none i (s ∙ sym e))

-- With a mutex in use that is free, fill_resized_memory() of a pool whose array has `k` free slots
-- behind the slots of its blocks makes `k` blocks, if all can be made: it returns ALIB_OK, fills the
-- slots with them in order, none of them reserved, and leaves the mutex free.
pub fill_resized_memory_lem :
    (grants : ℕ → Bool) (a : ArrayList) (rc k : ℕ) (pre : List Slot) (bs : List MemPoolBlock)
    → ((n : ℕ) → grants n ≡ true)
    → length pre ≡ length bs
    → a.capacity ≡ length bs + k
    → a.capacity < 2 ^ 64
    → a.use_mutex ≡ true
    → a.locked ≡ false
    → fill_resized_memory grants (pool_of a rc (pre ++ replicate k none) bs)
      ≡ ok (
        alib_ok,
        pool_of
            (record a { locked = false })
            rc
            (pre ++ numbers (length bs) k)
            (bs ++ replicate k unused),
      )
unfolding fill_resized_memory filled_pool mutex_unlock
fill_resized_memory_lem grants a rc k pre bs g e c h m f =
    let a₁ : ArrayList = record a { list = some (pre ++ replicate k none); count = length bs } in
    let a₂ : ArrayList = record a { locked = true } in
    let taken : lock a₁ ≡ ok (record a₁ { locked = true }) = lock-free a₁ m f in
    let rounds : a.capacity - length bs ≡ k = omega arith in
    let made = fill_from-made grants a₂ rc k (length bs) pre bs g e refl (omega arith) in
    let full : ArrayList = record a₂ {
      list = some (pre ++ numbers (length bs) k);
      count = length (bs ++ replicate k unused);
    } in
    rw (taken, rounds, made)
      (ap
        (λ l.
          ok
            (alib_ok, record { array = l; reserved_count = rc; blocks = bs ++ replicate k unused }))
        (unlock-used full m))

-- Where the next block cannot be made and the mutex in use is free, fill_resized_memory() returns
-- ALIB_MEM_ERR and leaves the pool as it was but for the mutex, which stays locked: ArrayList_lock()
-- then never returns.
pub fill_resized_memory_stuck :
    (grants : ℕ → Bool) (a : ArrayList) (rc k : ℕ) (pre rest : List Slot) (bs : List MemPoolBlock)
    → grants (length bs) ≡ false
    → length pre ≡ length bs
    → a.capacity ≡ length bs + suc k
    → a.use_mutex ≡ true
    → a.locked ≡ false
    → let p : MemPool = pool_of (record a { locked = true }) rc (pre ++ none ∷ rest) bs in
      (fill_resized_memory grants (pool_of a rc (pre ++ none ∷ rest) bs) ≡ ok (alib_mem_err, p))
      × (lock p.array ≡ fault)
unfolding fill_resized_memory filled_pool
fill_resized_memory_stuck grants a rc k pre rest bs g e c m f =
    let a₁ : ArrayList = record a { list = some (pre ++ none ∷ rest); count = length bs } in
    let a₂ : ArrayList = record a { locked = true } in
    let taken : lock a₁ ≡ ok (record a₁ { locked = true }) = lock-free a₁ m f in
    let rounds : a.capacity - length bs ≡ suc k = omega arith in
    let failed = fill_from-failed grants a₂ rc k (length bs) pre rest bs g e refl in
    (rw (taken, rounds, failed), lock-held (record a₁ { locked = true }) m refl)
