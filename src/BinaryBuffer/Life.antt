-- ===== src/BinaryBuffer/Life.antt =====
-- source/BinaryBuffer.c: making and deleting a buffer, what reads its bytes, and what reads and sets
-- its fields. `object` says whether malloc() of the struct succeeds.
pub mod Draining
pub mod Making
use alib_c.Common.{
  ℕ, ◌+◌, ◌-◌, ◌*◌, zero, Bool, Option, none, some, List, [], ltb, leb, ◌==◌, if◌then◌else◌,
  add_size, sub_size, ℤ, pos, alib_ok, alib_bad_index,
}
use alib_c.Common.Run.{Run, ok, fault, ◌>>=◌, read, write}
use alib_c.BinaryBuffer.{BinaryBuffer, memory, rewritten, Result, ulong_max, realloc, remove}

-- The bytes that reach `to`, which is not NULL.
pub copy : BinaryBuffer → ℕ → Run (List ℕ)
copy b count = read (memory b.buff) 0 (if ltb count b.len then count else b.len)

pub copy_and_drain : BinaryBuffer → ℕ → Run (List ℕ × Result)
copy_and_drain b count = do
  let count' = if ltb b.len count then b.len else count
  bytes ← read (memory b.buff) 0 count'
  r ← remove b 0 count'
  ok (bytes, r)

pub copy_between : BinaryBuffer → ℕ → ℕ → ℕ → Run (ℤ × List ℕ)
copy_between b begin end count = if leb b.len end then ok (alib_bad_index, []) else do
  bytes ← read (memory b.buff) begin (if ltb (end - begin) count then end - begin else count)
  ok (alib_ok, bytes)

pub copy_block : BinaryBuffer → ℕ → ℕ → ℕ → Run (ℤ × List ℕ)
copy_block b begin end count =
    if ltb end begin then copy_between b end begin count else copy_between b begin end count

-- The bounds are not put in order here.
pub drain_block : BinaryBuffer → ℕ → ℕ → ℕ → ℤ × List ℕ → Run (List ℕ × Result)
drain_block b begin end count (pos zero, bytes) = do
  let new_count = sub_size end begin
  r ← remove b begin (add_size begin (if ltb new_count count then new_count else count))
  ok (bytes, r)
drain_block b begin end count (code, bytes) = ok (bytes, (code, b))

pub copy_block_and_drain : BinaryBuffer → ℕ → ℕ → ℕ → Run (List ℕ × Result)
copy_block_and_drain b begin end count = do
  r ← copy_block b begin end count
  drain_block b begin end count r

pub extract_buffer : BinaryBuffer → Option (List ℕ) × BinaryBuffer
extract_buffer b = (b.buff, record b { buff = none; capacity = 0; len = 0 })

pub fill_new : BinaryBuffer → Option (List ℕ) → ℕ → Run (Option BinaryBuffer)
fill_new b none n = ok (some b)
fill_new b (some src) n = if n == 0 then ok (some b) else do
  bytes ← read src 0 n
  mem ← write (memory b.buff) 0 bytes
  ok (some (record b { buff = rewritten b.buff mem }))

-- Where the memory of the buffer cannot be allocated the object is deleted, and the bytes are copied
-- all the same.
pub without_memory : Option (List ℕ) → ℕ → Run (Option BinaryBuffer)
without_memory none n = ok none
without_memory (some src) n = if n == 0 then ok none else fault

module _ (room : ℕ → Bool) (junk : ℕ) where
  -- The struct as newBinaryBuffer_ex() fills it in.
  pub fresh : ℕ → ℕ → ℕ → ℕ → BinaryBuffer
  fresh n cap min_cap max_expand = record {
    buff = if cap == 0 then none else realloc room junk none cap;
    len = n;
    capacity = cap;
    min_cap = min_cap;
    max_expand = if max_expand == 0 then ulong_max else max_expand;
  }

  -- The rest of newBinaryBuffer_ex(), for the capacity it has found
  pub allocate : (object : Bool) → Option (List ℕ) → ℕ → ℕ → ℕ → ℕ → Run (Option BinaryBuffer)
  allocate object src n cap min_cap max_expand =
      let b = fresh n cap min_cap max_expand in
      if object
      then (if cap == 0
          then fill_new b src n
          else if room cap
          then fill_new b src n
          else without_memory src n)
      else ok none

  -- newBinaryBuffer_ex()
  pub new_ex : (object : Bool) → Option (List ℕ) → ℕ → ℕ → ℕ → ℕ → Run (Option BinaryBuffer)
  new_ex object src n start min_cap max_expand =
      let start₁ = if ltb start n then n else start in
      allocate object src n (if ltb start₁ min_cap then min_cap else start₁) min_cap max_expand

  -- newBinaryBuffer()
  pub new : (object : Bool) → Run (Option BinaryBuffer)
  new object = new_ex object none 0 0 64 (1024 * 1024)

-- BinaryBuffer_write_to_file(): what fwrite() returns; `accepts` is how many of the bytes it takes.
pub write_to_file : (accepts : List ℕ → ℕ) → BinaryBuffer → Run ℕ
write_to_file accepts b = do bytes ← read (memory b.buff) 0 b.len; ok (accepts bytes)

pub get_raw_buff : BinaryBuffer → Option (List ℕ)
get_raw_buff b = b.buff

abbrev pub get_length : BinaryBuffer → ℕ
get_length b = b.len

abbrev pub get_capacity : BinaryBuffer → ℕ
get_capacity b = b.capacity

abbrev pub get_min_capacity : BinaryBuffer → ℕ
get_min_capacity b = b.min_cap

abbrev pub get_max_expand_size : BinaryBuffer → ℕ
get_max_expand_size b = b.max_expand

pub set_min_capacity : BinaryBuffer → ℕ → BinaryBuffer
set_min_capacity b n = record b { min_cap = n }

pub set_max_expand_size : BinaryBuffer → ℕ → BinaryBuffer
set_max_expand_size b n = record b { max_expand = if n == 0 then ulong_max else n }

-- delBinaryBuffer(): what free() is given besides the struct
pub del : Option BinaryBuffer → Option (List ℕ) × Option BinaryBuffer
del none = (none, none)
del (some b) = (b.buff, none)
