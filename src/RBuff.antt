-- ===== src/RBuff.antt =====
-- source/RBuff.c and includes/RBuff_private.h: the rotational byte buffer.
-- A pointer to a struct is an option, NULL being `none`; a pointer into the buffer is its distance
-- from `buff`, so `buffEnd` is the size; `mem` holds the bytes from `buff` to `buffEnd`. These
-- pointers are never NULL in an initialised buffer.
pub mod Invariant
pub mod Contents
pub mod Copy
pub mod Push
pub mod Room
pub mod Pushback
pub mod Refine
pub mod Increment
mod Tests
use Prim.Native.Nat.{bit_and}
use alib_c.Common.{
  ℕ, zero, suc, ◌+◌, ◌-◌, ◌%◌, Bool, true, false, Option, none, some, List, [], ◌∷◌, ◌++◌, ltb, leb,
  ◌==◌, if◌then◌else◌, get_elem?, add_size, sub_size, size_of_int32, ℤ, pos, alib_ok, alib_bad_arg,
}
use alib_c.Common.Run.{Run, ok, fault, ◌>>=◌, read, write}

pub record RBuff : Type 0 where
  pub mem : List ℕ
  pub buff_end : ℕ
  pub it_begin : ℕ
  pub it_end : ℕ
  pub count : ℕ
  pub flags : ℕ

abbrev pub rbuff_owned_buff : ℕ
rbuff_owned_buff = 1

abbrev pub rbuff_no_overwrite : ℕ
rbuff_no_overwrite = 2

-- `flags & flag` as a condition
pub raised : ℕ → ℕ → Bool
raised flags flag = if bit_and flags flag == 0 then false else true

-- _endItToBuffEnd()
pub end_it_to_buff_end : RBuff → ℕ
end_it_to_buff_end r =
    if ltb r.it_end r.it_begin then r.it_begin - r.it_end else r.buff_end - r.it_end

-- _beginItToBuffEnd()
pub begin_it_to_buff_end : RBuff → ℕ
begin_it_to_buff_end r =
    if ltb r.it_begin r.it_end then r.it_end - r.it_begin else r.buff_end - r.it_begin

abbrev pub get_size : Option RBuff → ℕ
get_size none = 0
get_size (some r) = r.buff_end

-- RBuff_get_count() reads through its argument unchecked.
pub get_count : Option RBuff → Run ℕ
get_count none = fault
get_count (some r) = ok r.count

pub get_remaining : Option RBuff → ℕ
get_remaining none = 0
get_remaining (some r) = sub_size (get_size (some r)) r.count

-- `*it += count; if(*it >= buffEnd) *it -= buffSize;`
abbrev rotate : ℕ → ℕ → ℕ
rotate size it = if leb size it then it - size else it

-- _incrementIt(): the new value of the iterator `it`
pub step_it : RBuff → ℕ → ℕ → ℕ
step_it r it n =
    rotate (get_size (some r))
      (it + (if ltb (get_size (some r)) n then n % get_size (some r) else n))

pub increment_it : Option RBuff → ℕ → Option RBuff
increment_it none n = none
increment_it (some r) n =
    if n == 0
    then some r
    else let size = get_size (some r) in
      if ltb size (add_size r.count n)
      then some (record r {
        it_begin = step_it r r.it_begin n;
        count = size;
        it_end = step_it r r.it_end n;
      })
      else some (record r { count = add_size r.count n; it_end = step_it r r.it_end n })

-- `if(buff) memcpy(buff, mem + at, n)`, as the bytes that reach `buff`
fetch : Bool → List ℕ → ℕ → ℕ → Run (List ℕ)
fetch dst mem at n = if dst then read mem at n else ok []

-- RBuff_copy() behind its guard; `dst` says whether there is a destination.
copy_count : RBuff → Bool → ℕ → Run (ℕ × List ℕ)
copy_count r dst n =
    let first = begin_it_to_buff_end r in
    if ltb first n
    then (do
      a ← fetch dst r.mem r.it_begin first
      b ← fetch dst r.mem 0 (n - first)
      ok (first + (n - first), a ++ b))
    else do a ← fetch dst r.mem r.it_begin n; ok (n, a)

-- The number of bytes copied, and the bytes.
pub copy : Option RBuff → Bool → ℕ → Run (ℕ × List ℕ)
copy none dst n = ok (0, [])
copy (some r) dst n =
    if n == 0 then ok (0, []) else copy_count r dst (if ltb r.count n then r.count else n)

-- `rbuff->count` is read unchecked.
pub popoff : Option RBuff → Bool → ℕ → Run (ℕ × List ℕ × RBuff)
popoff none dst n = fault
popoff (some r) dst n = do
  (total, bytes) ← copy (some r) dst n
  ok (
    total,
    bytes,
    record r { it_begin = step_it r r.it_begin total; count = sub_size r.count total },
  )

popoff_front : RBuff → Option ℕ → Run (ℤ × Option RBuff)
popoff_front r none = fault
popoff_front r (some byte) =
    ok (pos byte, some (record r { it_begin = step_it r r.it_begin 1; count = sub_size r.count 1 }))

pub popoff_byte : Option RBuff → Run (ℤ × Option RBuff)
popoff_byte none = ok (alib_bad_arg, none)
popoff_byte (some r) =
    if r.count == 0 then ok (alib_bad_arg, some r) else popoff_front r (get_elem? r.mem r.it_begin)

-- The end of RBuff_pushback(), from "Copy second half" on: `total` bytes are written, `n` are
-- left, and `c` fit behind `itEnd`. The result passes through an int32_t.
pub push_rest : RBuff → List ℕ → ℕ → ℕ → ℕ → ℕ → Run (ℕ × RBuff)
push_rest r src at n c total = do
  let c' = if ltb n c then n else c
  bytes ← read src at c'
  mem ← write r.mem r.it_end bytes
  let total' = size_of_int32 (total + c')
  let count = add_size r.count total'
  ok (
    total',
    record r {
      mem = mem;
      it_end = r.it_end + c';
      count = if ltb (get_size (some r)) count then get_size (some r) else count;
    },
  )

-- RBuff_pushback() from "Copy first half" on, for the `n` bytes of `src` at `at`
pub push_chunks : RBuff → List ℕ → ℕ → ℕ → Run (ℕ × RBuff)
push_chunks r src at n =
    let c = end_it_to_buff_end r in
    if ltb c n
    then (do
      bytes ← read src at c
      mem ← write r.mem r.it_end bytes
      push_rest (record r { mem = mem; it_end = 0 }) src (at + c) (n - c) (n - c) c)
    else push_rest r src at n c 0

-- The middle of RBuff_pushback(): room is made for the bytes, or fewer are taken.
pub push_fit : RBuff → List ℕ → ℕ → ℕ → Run (ℕ × RBuff)
push_fit r src at n =
    let size = get_size (some r) in
    if ltb size (add_size n r.count)
    then if raised r.flags rbuff_no_overwrite
      then push_chunks r src at (sub_size size r.count)
      else (do
        (_, _, r') ← popoff (some r) false (sub_size (add_size n r.count) size)
        push_chunks r' src at n)
    else push_chunks r src at n

-- `src` is the memory that `buff` points to. The result is the number of bytes pushed.
pub pushback : Option RBuff → Option (List ℕ) → ℕ → Run (ℕ × Option RBuff)
pushback none src n = ok (0, none)
pushback (some r) none n = ok (0, some r)
pushback (some r) (some src) n = if n == 0 then ok (0, some r) else do
  let size = get_size (some r)
  (total, r') ← push_fit r src (if ltb size n then n - size else 0) (if ltb size n then size else n)
  ok (total, some r')

pub pushback_byte : Option RBuff → ℕ → Run (ℕ × Option RBuff)
pushback_byte r byte = pushback r (some (byte ∷ [])) 1

pub init : Option RBuff → Option (List ℕ) → ℕ → ℕ → ℤ × Option RBuff
init none buff n flags = (alib_bad_arg, none)
init (some r) none n flags = (alib_bad_arg, some r)
init (some r) (some mem) n flags = if n == 0 then (alib_bad_arg, some r) else (
  alib_ok,
  some (record { mem = mem; buff_end = n; it_begin = 0; it_end = 0; count = 0; flags = flags }),
)

pub reset : Option RBuff → Option RBuff
reset none = none
reset (some r) = (init (some r) (some r.mem) (get_size (some r)) r.flags).1

-- `buff` and `rbuff` are what the two malloc() calls return.
pub new : (buff : Option (List ℕ)) (rbuff : Option RBuff) → ℕ → Option RBuff
new none rbuff n = none
new (some mem) none n = none
new (some mem) (some r) n = if n == 0 then none else (init (some r) (some mem) n rbuff_owned_buff).1

-- freeRBuff(): whether the buffer is freed with the struct
pub free : Option RBuff → Bool
free none = false
free (some r) = raised r.flags rbuff_owned_buff

pub del : Option RBuff → Bool × Option RBuff
del r = (free r, none)
