-- ===== src/AlibString/Text/Tests.antt =====
-- The functions of source/alib_string.c on "abca" and on letters in both cases.
use alib_c.Common.{
  ap, Option, none, ℕ, zero, suc, ◌+◌, ◌≡◌, refl, ◌&&◌, some, List, [], ◌∷◌, arith, leb,
  if◌then◌else◌,
}
use alib_c.Common.Run.{ok}
use alib_c.AlibTypes.{strlen}
use alib_c.AlibString.Text.{find_last_char, strncpy_fast, str_to_lower, strn_to_lower}
use alib_c.AlibString.Text.Copying.{strncpy_fast_lem}
use alib_c.AlibString.Text.Searching.{NotBehind, find_last_char_lem, to_lower_lem}

abbrev abca : List ℕ
abca = 97 ∷ 98 ∷ 99 ∷ 97 ∷ 0 ∷ []

abca_length : strlen abca ≡ ok 4
unfolding strlen
abca_length = refl

abbrev letter : Option ℕ → ℕ
letter none = 0
letter (some c) = c

behind_b : NotBehind abca 98 1 4
behind_b zero lo hi e = absurd (omega arith)
behind_b (suc zero) lo hi e = absurd (omega arith)
behind_b (suc (suc zero)) lo hi e = absurd (omega (arith, ap letter e))
behind_b (suc (suc (suc zero))) lo hi e = absurd (omega (arith, ap letter e))
behind_b (suc (suc (suc (suc zero)))) lo hi e = absurd (omega (arith, ap letter e))
behind_b (suc (suc (suc (suc (suc i))))) lo hi e = absurd (omega arith)

find_last_char_lem_example : find_last_char (some abca) 98 ≡ ok (some 1)
find_last_char_lem_example = find_last_char_lem abca 98 4 1 abca_length (omega arith) refl behind_b

abbrev lower : ℕ → ℕ
lower c = if leb 65 c && leb c 90 then c + 32 else c

to_lower_lem_example :
    (str_to_lower lower lower (some (65 ∷ 98 ∷ 67 ∷ 0 ∷ 68 ∷ []))
      ≡ ok (some (97 ∷ 98 ∷ 99 ∷ 0 ∷ 68 ∷ [])))
    × (strn_to_lower lower lower (some (65 ∷ 98 ∷ 67 ∷ 0 ∷ 68 ∷ [])) 2
        ≡ ok (some (97 ∷ 98 ∷ 67 ∷ 0 ∷ 68 ∷ [])))
to_lower_lem_example =
    to_lower_lem lower lower (65 ∷ 98 ∷ 67 ∷ []) (68 ∷ []) 2 (refl, (refl, (refl, tt)))

strncpy_fast_lem_example :
    (strncpy_fast (1 ∷ 2 ∷ 3 ∷ 4 ∷ []) (97 ∷ 98 ∷ 0 ∷ []) 3 ≡ ok (97 ∷ 98 ∷ 0 ∷ 4 ∷ [], 3))
    × (strncpy_fast (1 ∷ 2 ∷ 3 ∷ 4 ∷ []) (97 ∷ 98 ∷ 0 ∷ []) 1 ≡ ok (97 ∷ 2 ∷ 3 ∷ 4 ∷ [], 1))
strncpy_fast_lem_example =
    strncpy_fast_lem [] (97 ∷ 98 ∷ []) (1 ∷ 2 ∷ 3 ∷ 4 ∷ []) 3 1 (refl, (refl, tt)) (omega arith)
      (omega arith) (omega arith)
