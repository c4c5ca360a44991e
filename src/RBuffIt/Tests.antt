-- ===== src/RBuffIt/Tests.antt =====
-- The theorems on the iterator of source/RBuffIt.c at concrete buffers.
use alib_c.Common.{◌≡◌, true, none, some, [], ◌∷◌, arith}
use alib_c.RBuff.{RBuff}
use alib_c.RBuff.Invariant.{IsValid}
use alib_c.RBuffIt.{next, prev}
use alib_c.RBuffIt.Walk.{visit, visit-contents}
use alib_c.RBuffIt.Back.{at, prev-next}

-- 8, 9 and 7, going round behind the fourth byte
abbrev wrapped : RBuff
wrapped = record {
  mem = 7 ∷ 0 ∷ 8 ∷ 9 ∷ [];
  buff_end = 4;
  it_begin = 2;
  it_end = 1;
  count = 3;
  flags = 0;
}

-- 8 and 9 at the end of the memory
abbrev at_end : RBuff
at_end = record {
  mem = 0 ∷ 0 ∷ 8 ∷ 9 ∷ [];
  buff_end = 4;
  it_begin = 2;
  it_end = 4;
  count = 2;
  flags = 0;
}

wrapped-IsValid : IsValid wrapped
wrapped-IsValid = omega arith

at_end-IsValid : IsValid at_end
at_end-IsValid = omega arith

visit-contents_example : visit 5 wrapped none ≡ some (8 ∷ 9 ∷ 7 ∷ [])
visit-contents_example = visit-contents wrapped-IsValid (omega arith)

prev-next_example :
    (next (some (at wrapped 3)) ≡ (true, some (at wrapped 0)))
    × (prev (some (at wrapped 0)) ≡ (true, some (at wrapped 3)))
prev-next_example = prev-next 1 wrapped-IsValid (omega arith) (omega arith)
