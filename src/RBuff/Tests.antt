-- ===== src/RBuff/Tests.antt =====
-- Runs of the byte buffer of source/RBuff.c, and its theorems at concrete buffers.
use alib_c.Common.{ℕ, ◌≡◌, refl, true, false, some, List, [], ◌∷◌, arith}
use alib_c.Common.Run.{ok}
use alib_c.RBuff.{RBuff, rbuff_no_overwrite, raised, step_it, increment_it, popoff, pushback}
use alib_c.RBuff.Invariant.{IsValid}
use alib_c.RBuff.Contents.{contents}
use alib_c.RBuff.Copy.{popoff_lem}
use alib_c.RBuff.Push.{Pushed}
use alib_c.RBuff.Room.{Overwritten}
use alib_c.RBuff.Pushback.{pushback_overwrite, pushback_keep}
use alib_c.RBuff.Refine.{Op, push, pop, run, spec, run_refines}

-- 8, 9 and 7, going round behind the fourth byte
abbrev wrapped : RBuff
wrapped = record {
  mem = 7 ∷ 0 ∷ 8 ∷ 9 ∷ [];
  buff_end = 4;
  it_begin = 2;
  it_end = 1;
  count = 3;
  flags = 0;
}

abbrev keeping : RBuff
keeping = record wrapped { flags = rbuff_no_overwrite }

abbrev full : RBuff
full = record {
  mem = 7 ∷ 6 ∷ 8 ∷ 9 ∷ [];
  buff_end = 4;
  it_begin = 2;
  it_end = 2;
  count = 4;
  flags = 0;
}

abbrev source : List ℕ
source = 1 ∷ 2 ∷ 3 ∷ 4 ∷ 5 ∷ []

abbrev script : List Op
script = push (1 ∷ 2 ∷ []) ∷ pop 3 ∷ push source ∷ pop 9 ∷ []

abbrev overrun : RBuff
overrun = record wrapped { it_begin = 0; count = 4; it_end = 3 }

wrapped-IsValid : IsValid wrapped
wrapped-IsValid = omega arith

keeping-IsValid : IsValid keeping
keeping-IsValid = omega arith

full-IsValid : IsValid full
full-IsValid = omega arith

overwrites : raised wrapped.flags rbuff_no_overwrite ≡ false
unfolding raised
overwrites = refl

keeps : raised keeping.flags rbuff_no_overwrite ≡ true
unfolding raised
keeps = refl

contents-wrapped : contents wrapped ≡ 8 ∷ 9 ∷ 7 ∷ []
contents-wrapped = refl

increment_it-overrun : increment_it (some wrapped) 2 ≡ some overrun
unfolding increment_it step_it
increment_it-overrun = refl

run_refines_example : run (some wrapped) script ≡ ok (spec 4 (8 ∷ 9 ∷ 7 ∷ []) script)
run_refines_example = run_refines script wrapped-IsValid overwrites

-- The client sees the last four bytes pushed.
spec-script :
    spec 4 (8 ∷ 9 ∷ 7 ∷ []) script
    ≡ (2, []) ∷ (3, 9 ∷ 7 ∷ 1 ∷ []) ∷ (4, []) ∷ (4, 2 ∷ 3 ∷ 4 ∷ 5 ∷ []) ∷ []
unfolding spec
spec-script = refl

pushback_overwrite_example :
    (r' : RBuff) × (pushback (some wrapped) (some source) 5 ≡ ok (4, some r'))
    × Overwritten wrapped (8 ∷ 9 ∷ 7 ∷ source) 5 r'
pushback_overwrite_example = pushback_overwrite source 5 wrapped-IsValid overwrites (omega arith)

-- One byte fits: the second of the five, since the first does not count among the last four.
pushback_keep_example :
    (r' : RBuff) × (pushback (some keeping) (some source) 5 ≡ ok (1, some r'))
    × Pushed keeping (2 ∷ []) r'
pushback_keep_example = pushback_keep source 5 keeping-IsValid keeps (omega arith)

popoff_lem_example :
    (r' : RBuff) × (popoff (some wrapped) true 2 ≡ ok (2, 8 ∷ 9 ∷ [], r'))
    × IsValid r'
    × (contents r' ≡ 7 ∷ [])
    × (r'.count ≡ 1)
    × (r'.buff_end ≡ 4)
    × (r'.flags ≡ 0)
popoff_lem_example = popoff_lem true 2 wrapped-IsValid
