-- ===== src/BinaryBuffer.antt =====
-- source/BinaryBuffer.c and includes/BinaryBuffer_private.h: a buffer of bytes that grows.
-- `room n` says whether the C library can allocate n bytes; memory that has not been written holds the
-- byte `junk`. Each function is what stands behind its check of `buff` for NULL, and gives the error
-- code and the buffer.
pub mod Growth
pub mod Splice
pub mod Edits
pub mod Moving
pub mod Life
mod Tests
use alib_c.Common.{
  ℕ, zero, suc, ◌+◌, ◌-◌, ◌*◌, ◌%◌, ◌^◌, Bool, true, false, Option, none, some, List, [], ◌∷◌, ◌++◌,
  ltb, leb, ◌==◌, if◌then◌else◌, length, take, replicate, add_size, sub_size, size_max, ℤ, pos,
  alib_ok, alib_bad_arg, alib_mem_err, alib_internal_max_reached, alib_bad_index, alib_file_err,
  alib_file_read_err,
}
use alib_c.Common.Run.{Run, ok, fault, ◌>>=◌, read, write}
use alib_c.AlibString.{memcpy, memcpy_back, memcpy_safe}

pub record BinaryBuffer : Type 0 where
  pub buff : Option (List ℕ)
  pub len : ℕ
  pub capacity : ℕ
  pub min_cap : ℕ
  pub max_expand : ℕ

-- The memory that `buff` points to; NULL points to none.
abbrev pub memory : Option (List ℕ) → List ℕ
memory none = []
memory (some mem) = mem

-- A pointer that is NULL stays NULL, whatever is copied.
abbrev pub rewritten : Option (List ℕ) → List ℕ → Option (List ℕ)
rewritten none mem = none
rewritten (some _) mem = some mem

abbrev pub Result : Type 0
Result = ℤ × BinaryBuffer

abbrev pub ulong_max : ℕ
ulong_max = 2 ^ 64 - 1

-- calculate_expansion()
pub next_size : ℕ → ℕ → ℕ
next_size max size =
    if size == 0
    then 1
    else let new_size = (if ltb max size then add_size size max else size * 2 % size_max) in
      if ltb new_size size then ulong_max else new_size

-- `while(new_cap < target) calculate_expansion(buff, &new_cap);`, on fuel
pub grow_to : ℕ → ℕ → ℕ → ℕ → Option ℕ
grow_to zero max size target = if ltb size target then none else some size
grow_to (suc fuel) max size target =
    let rest = grow_to fuel max (next_size max size) target in
    if ltb size target then rest else some size

-- `if((err = …)) return err;`
pub or_return : Result → (BinaryBuffer → Run Result) → Run Result
or_return (pos zero, b) next = next b
or_return (code, b) next = ok (code, b)

-- BinaryBuffer_remove() with its bounds in order
pub remove_between : BinaryBuffer → ℕ → ℕ → Run Result
remove_between b begin end =
    if leb (sub_size b.len 1) end then ok (alib_ok, record b { len = begin }) else (do
      mem ← memcpy (memory b.buff) begin end (sub_size b.len end)
      ok (
        alib_ok,
        record b { buff = rewritten b.buff mem; len = sub_size b.len (sub_size end begin) },
      ))

pub remove : BinaryBuffer → ℕ → ℕ → Run Result
remove b begin end =
    if ltb end begin then remove_between b end begin else remove_between b begin end

-- A failed realloc() leaves NULL in `buff`.
pub resized : BinaryBuffer → ℕ → Option (List ℕ) → Result
resized b n none = (alib_mem_err, record b { buff = none })
resized b n (some mem) =
    (alib_ok, record b { buff = some mem; capacity = n; len = if ltb n b.len then n else b.len })

-- `memcpy(buff + at, src, n); len = new_len;`
pub put_bytes : List ℕ → ℕ → ℕ → ℕ → BinaryBuffer → Run Result
put_bytes src at n new_len b = do
  bytes ← read src 0 n
  mem ← write (memory b.buff) at bytes
  ok (alib_ok, record b { buff = rewritten b.buff mem; len = new_len })

-- The end of BinaryBuffer_insert(): the bytes from `index` on move back, but for the last one.
pub insert_bytes : ℕ → List ℕ → ℕ → ℕ → BinaryBuffer → Run Result
insert_bytes index src n new_len b = do
  mem ← memcpy_back (memory b.buff) (index + n) index (sub_size b.len (index + 1))
  put_bytes src index n new_len (record b { buff = rewritten b.buff mem })

-- The end of BinaryBuffer_replace(). Its pointer into the buffer stays good only if the memory has not
-- been reallocated since.
pub replace_bytes : BinaryBuffer → ℕ → ℕ → List ℕ → ℕ → Run Result
replace_bytes b index old_len src n = do
  mem ←
      (if old_len == n
        then ok (memory b.buff)
        else memcpy_safe (memory b.buff) (index + n) (index + old_len)
            (sub_size (sub_size b.len index) old_len))
  put_bytes src index n (add_size b.len (sub_size n old_len))
      (record b { buff = rewritten b.buff mem })

pub after_growth : Result → Run Result
after_growth (pos zero, b) = fault
after_growth (code, b) = ok (code, b)

unfoldable pub clear_no_resize : BinaryBuffer → BinaryBuffer
clear_no_resize b = record b { len = 0 }

-- The end of BinaryBuffer_append_file()
pub put_file : List ℕ → ℕ → BinaryBuffer → Run Result
put_file got n b = do
  mem ← write (memory b.buff) b.len got
  let b' = record b { buff = rewritten b.buff mem }
  ok (
      if ltb (length got) n
      then (alib_file_read_err, b')
      else (alib_ok, record b' { len = add_size b.len n }))

module _ (room : ℕ → Bool) (junk : ℕ) where
  pub realloc : Option (List ℕ) → ℕ → Option (List ℕ)
  realloc mem n =
      if room n
      then some (take n (memory mem) ++ replicate (n - length (memory mem)) junk)
      else none

  pub hard_resize : BinaryBuffer → ℕ → Result
  hard_resize b n =
      if b.capacity == n
      then (alib_ok, b)
      else if n == 0
      then (alib_ok, record b { buff = none; capacity = 0; len = 0 })
      else resized b n (realloc b.buff n)

  pub resize : BinaryBuffer → ℕ → Result
  resize b n = hard_resize b (if ltb n b.min_cap then b.min_cap else n)

  -- BinaryBuffer_expand(); `stale` is what its uninitialised local holds.
  pub expand : (stale : ℕ) → BinaryBuffer → Result
  expand stale b =
      if b.capacity == ulong_max
      then (alib_internal_max_reached, b)
      else resize b (next_size b.max_expand stale)

  pub resize_to : BinaryBuffer → Option ℕ → Run Result
  resize_to b none = fault
  resize_to b (some n) = ok (resize b n)

  -- BinaryBuffer_expand_to_target(); `target` rounds of its loop are enough.
  pub expand_to_target : BinaryBuffer → ℕ → Run Result
  expand_to_target b target = resize_to b (grow_to target b.max_expand b.capacity target)

  -- `if(capacity < n) { if((err = BinaryBuffer_expand_to_target(buff, n))) return err; }`
  pub ensure : BinaryBuffer → ℕ → (BinaryBuffer → Run Result) → Run Result
  ensure b n next =
      let here = next b in
      if ltb b.capacity n then (do r ← expand_to_target b n; or_return r next) else here

  pub append : BinaryBuffer → Option (List ℕ) → ℕ → Run Result
  append b none n = ok (alib_bad_arg, b)
  append b (some src) n =
      let new_len = add_size b.len n in
      if ltb ulong_max new_len
      then ok (alib_internal_max_reached, b)
      else ensure b new_len (put_bytes src b.len n new_len)

  -- BinaryBuffer_append_file(). `end` and `back` say whether the calls of fseek() succeed, `n` is the length
  -- that ftell() gives, and `got` is what fread() reads. A short read leaves the length as it is.
  pub append_file : BinaryBuffer → (end back : Bool) → ℕ → List ℕ → Run Result
  append_file b false back n got = ok (alib_file_err, b)
  append_file b true false n got = ok (alib_file_err, b)
  append_file b true true n got = do
    r ← expand_to_target b (add_size b.len n)
    or_return r (put_file got n)

  pub insert : BinaryBuffer → ℕ → Option (List ℕ) → ℕ → Run Result
  insert b index none n = ok (alib_bad_arg, b)
  insert b index (some src) n =
      let new_len = add_size b.len n in
      if ltb b.len index
      then ok (alib_bad_index, b)
      else if ltb ulong_max new_len
      then ok (alib_internal_max_reached, b)
      else ensure b new_len (insert_bytes index src n new_len)

  pub clear : BinaryBuffer → BinaryBuffer
  clear b = if ltb b.min_cap b.capacity then (hard_resize b 0).1 else record b { len = 0 }

  pub shrink_to_fit : BinaryBuffer → BinaryBuffer
  shrink_to_fit b = (hard_resize b b.len).1

  pub replace : BinaryBuffer → ℕ → ℕ → List ℕ → ℕ → Run Result
  replace b index old_len src n =
      let new_len = sub_size (add_size b.len n) old_len in
      let in_place = replace_bytes b index old_len src n in
      if ltb b.len index
      then ok (alib_bad_arg, b)
      else if ltb b.capacity new_len
      then (do r ← expand_to_target b new_len; after_growth r)
      else in_place
