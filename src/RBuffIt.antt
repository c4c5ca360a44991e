-- ===== src/RBuffIt.antt =====
-- source/RBuffIt.c and includes/RBuffIt_private.h: an iterator over an RBuff.
-- `rbuff` stands for the buffer that the iterator points to, as it is at the time of the call. The
-- pointer `it` is `none` when it is NULL, else its distance from `rbuff->buff`.
pub mod Walk
pub mod Back
mod Tests
use alib_c.Common.{
  ℕ, ◌+◌, ◌-◌, Bool, true, false, ◌&&◌, ◌||◌, Option, none, some, ltb, leb, ◌==◌, if◌then◌else◌, ℤ,
  alib_ok, alib_bad_arg, int_of_size, negsuc,
}
use alib_c.RBuff.{RBuff}

pub record RBuffIt : Type 0 where
  pub rbuff : RBuff
  pub it : Option ℕ

-- What _recover() tests of a pointer, as the code does, NULL apart.
lost : RBuff → ℕ → Bool
lost r p =
    if ltb r.it_end r.it_begin
    then ltb p r.it_begin && ltb r.it_end p
    else ltb p r.it_begin || ltb r.it_end p

-- _recover(); an iterator that is NULL lies below every pointer into the buffer.
recover_it : RBuff → Option ℕ → Bool × Option ℕ
recover_it r none = (if ltb r.it_end r.it_begin then false else true, none)
recover_it r (some p) = if lost r p then (true, none) else (false, some p)

pub recover : Option RBuffIt → Bool × Option RBuffIt
recover none = (false, none)
recover (some i) = let (hit, it) = recover_it i.rbuff i.it in (hit, some (record i { it = it }))

index_it : RBuff → Option ℕ → ℤ
index_it r none = negsuc 0
index_it r (some p) =
    int_of_size (if ltb p r.it_begin then r.buff_end - r.it_begin + p else p - r.it_begin)

pub get_index : Option RBuffIt → ℤ
get_index none = negsuc 0
get_index (some i) = index_it i.rbuff i.it

-- `if(it == itEnd) { it = NULL; return 0; } return 1;`
stop_at : ℕ → ℕ → Bool × Option ℕ
stop_at end p = if p == end then (false, none) else (true, some p)

pub next_it : RBuff → Option ℕ → Bool × Option ℕ
next_it r none = if r.count == 0 then (false, none) else (true, some r.it_begin)
next_it r (some p) = stop_at r.it_end (if leb r.buff_end (p + 1) then 0 else p + 1)

pub next : Option RBuffIt → Bool × Option RBuffIt
next none = (false, none)
next (some i) = let (more, it) = next_it i.rbuff i.it in (more, some (record i { it = it }))

pub prev_it : RBuff → Option ℕ → Bool × Option ℕ
prev_it r none = if r.count == 0 then (false, none) else (true, some r.it_end)
prev_it r (some p) =
    if p == r.it_begin
    then (false, none)
    else (true, some (if p == 0 then r.buff_end - 1 else p - 1))

pub prev : Option RBuffIt → Bool × Option RBuffIt
prev none = (false, none)
prev (some i) = let (more, it) = prev_it i.rbuff i.it in (more, some (record i { it = it }))

pub reset : Option RBuffIt → Option RBuffIt
reset none = none
reset (some i) = some (record i { it = none })

pub init : Option RBuffIt → Option RBuff → ℤ × Option RBuffIt
init none r = (alib_bad_arg, none)
init (some i) none = (alib_bad_arg, some i)
init (some i) (some r) = (alib_ok, some (record { rbuff = r; it = none }))

-- `block` is what malloc() returns.
pub new : (block : Option RBuffIt) → Option RBuff → Option RBuffIt
new block none = none
new none (some r) = none
new (some i) (some r) = (init (some i) (some r)).1

-- delRBuffIt(): the struct is freed, and the pointer is NULL afterwards.
pub del : Option RBuffIt → Option RBuffIt
del i = none
