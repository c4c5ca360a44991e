-- ===== src/AlibTypes/Tests.antt =====
-- The theorems on source/alib_types.c at short strings.
use alib_c.Common.{ℕ, ◌≡◌, refl, true, false, List, [], ◌∷◌, arith}
use alib_c.Common.Run.{ok}
use alib_c.AlibTypes.{
  is_whitespace, is_other, skip, int_from, is_int, is_double, strlen, type_string, get_string_type,
}
use alib_c.AlibTypes.Parsing.{
  Integer, is_double-is_int, Integer-is_int, is_int-Integer, get_string_type_lem,
}

-- " 42"
abbrev forty_two : List ℕ
forty_two = 32 ∷ 52 ∷ 50 ∷ 0 ∷ []

-- "4.2"
abbrev dotted : List ℕ
dotted = 52 ∷ 46 ∷ 50 ∷ 0 ∷ []

forty_two-Integer : Integer forty_two
unfolding is_whitespace is_other
forty_two-Integer =
    (32 ∷ [], 52 ∷ 50 ∷ [], 0, [], refl, (refl, tt), (refl, (refl, tt)), omega arith, refl)

dotted_length : strlen dotted ≡ ok 3
unfolding strlen
dotted_length = refl

dotted_start : is_whitespace 52 ≡ false
unfolding is_whitespace
dotted_start = refl

dotted_int : is_int dotted ≡ ok false
unfolding is_int skip int_from is_whitespace is_other
dotted_int = refl

forty_two_int : is_int forty_two ≡ ok true
unfolding is_int skip int_from is_whitespace is_other
forty_two_int = refl

is_double-is_int_example : is_double dotted ≡ is_int dotted
is_double-is_int_example = is_double-is_int dotted

Integer-is_int_example : is_int forty_two ≡ ok true
Integer-is_int_example = Integer-is_int forty_two forty_two-Integer

is_int-Integer_example : Integer forty_two
is_int-Integer_example = is_int-Integer forty_two forty_two_int

get_string_type_lem_example : get_string_type (λ s t n. true) dotted ≡ ok type_string
get_string_type_lem_example =
    get_string_type_lem (λ s t n. true) 52 (46 ∷ 50 ∷ 0 ∷ []) 3 false dotted_start dotted_length
      dotted_int
