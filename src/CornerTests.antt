-- ===== src/CornerTests.antt =====
-- The theorems on source/Endianess.c and source/alib_math.c at concrete arguments.
use alib_c.Common.{◌≡◌, refl, true, false, [], ◌∷◌, arith, pos}
use alib_c.Common.Run.{fault}
use alib_c.Endianess.{flip_endianess, flip_endianess_runaway}
use alib_c.AlibMath.{is_prime, no_divisor_from}

flip_endianess_runaway_example : flip_endianess (1 ∷ 2 ∷ 3 ∷ 4 ∷ 5 ∷ []) 4 ≡ fault
flip_endianess_runaway_example =
    flip_endianess_runaway (1 ∷ 2 ∷ 3 ∷ 4 ∷ 5 ∷ []) 4 (omega arith) (omega arith)

is_prime-15 : is_prime (pos 15) ≡ false
unfolding is_prime no_divisor_from
is_prime-15 = refl

is_prime-17 : is_prime (pos 17) ≡ true
unfolding is_prime no_divisor_from
is_prime-17 = refl
