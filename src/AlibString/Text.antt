-- ===== src/AlibString/Text.antt =====
-- strncpy_fast() and the functions of source/alib_string.c that search a string or change its letters. A
-- string is the object from its first character on; a read in front of it or behind its last byte is a
-- fault. tolower() and toupper() are parameters.
pub mod Copying
pub mod Searching
mod Tests
use alib_c.Common.{
  ℕ, zero, suc, ◌+◌, Bool, true, false, ◌||◌, Option, none, some, List, [], ◌∷◌, get_elem?, ◌==◌,
  if◌then◌else◌,
}
use alib_c.Common.Run.{Run, ok, fault, ◌>>=◌}
use alib_c.AlibTypes.{strlen}

abbrev pub byte_at : List ℕ → ℕ → Run ℕ
byte_at mem i = elim (get_elem? mem i) [ none ↦ fault | some c ↦ ok c ]

-- ' ', '\t', '\n' and '\r'
abbrev pub is_space : ℕ → Bool
is_space c = c == 32 || (c == 9 || (c == 10 || c == 13))

-- The loop of find_next_whitespace(), from the `i`th character on
pub whitespace_from : List ℕ → ℕ → Run (Option ℕ)
whitespace_from [] i = fault
whitespace_from (c ∷ cs) i =
    if is_space c || c == 0
    then ok (if c == 0 then none else some i)
    else whitespace_from cs (suc i)

pub find_next_whitespace : Option (List ℕ) → Run (Option ℕ)
find_next_whitespace none = ok none
find_next_whitespace (some s) = whitespace_from s 0

-- The loop of find_next_non_whitespace(), which passes over a NUL too
pub non_whitespace_from : List ℕ → ℕ → Run (Option ℕ)
non_whitespace_from [] i = fault
non_whitespace_from (c ∷ cs) i =
    if is_space c || c == 0
    then non_whitespace_from cs (suc i)
    else ok (if c == 0 then none else some i)

pub find_next_non_whitespace : Option (List ℕ) → Run (Option ℕ)
find_next_non_whitespace none = ok none
find_next_non_whitespace (some s) = non_whitespace_from s 0

-- The loop of find_last_char_count(), from a position down. It reads the byte in front of the string
-- before it looks whether it has come to it.
pub last_from : List ℕ → ℕ → ℕ → Run (Option ℕ)
last_from s c zero = do x ← byte_at s 0; if x == c then ok (some 0) else fault
last_from s c (suc i) =
    let rest = last_from s c i in
    (do x ← byte_at s (suc i); if x == c then ok (some (suc i)) else rest)

pub find_last_char_count : Option (List ℕ) → ℕ → ℕ → Run (Option ℕ)
find_last_char_count none c count = ok none
find_last_char_count (some s) c count = last_from s c count

-- find_last_char(); strlen() of NULL is a fault.
pub find_last_char : Option (List ℕ) → ℕ → Run (Option ℕ)
find_last_char none c = fault
find_last_char (some s) c = do n ← strlen s; find_last_char_count (some s) c n

-- The loops of str_to_lower() and str_to_upper()
pub changed : (ℕ → ℕ) → List ℕ → Run (List ℕ)
changed change [] = fault
changed change (c ∷ cs) =
    let rest = changed change cs in
    if c == 0 then ok (c ∷ cs) else (do cs' ← rest; ok (change c ∷ cs'))

-- The loops of strn_to_lower() and strn_to_upper(), which read a character before they look at the count
pub changed_n : (ℕ → ℕ) → List ℕ → ℕ → Run (List ℕ)
changed_n change [] n = fault
changed_n change (c ∷ cs) zero = ok (c ∷ cs)
changed_n change (c ∷ cs) (suc n) =
    let rest = changed_n change cs n in
    if c == 0 then ok (c ∷ cs) else (do cs' ← rest; ok (change c ∷ cs'))

module _ (tolower toupper : ℕ → ℕ) where
  pub str_to_lower : Option (List ℕ) → Run (Option (List ℕ))
  str_to_lower none = ok none
  str_to_lower (some s) = do s' ← changed tolower s; ok (some s')

  pub strn_to_lower : Option (List ℕ) → ℕ → Run (Option (List ℕ))
  strn_to_lower none count = ok none
  strn_to_lower (some s) count = do s' ← changed_n tolower s count; ok (some s')

  pub str_to_upper : Option (List ℕ) → Run (Option (List ℕ))
  str_to_upper none = ok none
  str_to_upper (some s) = do s' ← changed toupper s; ok (some s')

  pub strn_to_upper : Option (List ℕ) → ℕ → Run (Option (List ℕ))
  strn_to_upper none count = ok none
  strn_to_upper (some s) count = do s' ← changed_n toupper s count; ok (some s')

-- The loop of strncpy_fast() between two objects and what follows it, with `n` characters left: the
-- destination, and the count that remains. The loop reads a character before it looks at the count.
pub fast_from : List ℕ → List ℕ → ℕ → Run (List ℕ × ℕ)
fast_from to [] n = fault
fast_from to (c ∷ cs) zero = ok (to, 0)
fast_from [] (c ∷ cs) (suc n) = fault
fast_from (d ∷ to) (c ∷ cs) (suc n) =
    let rest = fast_from to cs n in
    if c == 0 then ok (0 ∷ to, n) else (do r ← rest; ok (c ∷ r.0, r.1))

-- strncpy_fast(): the destination, and what `coppied_count` points to. What remains is taken off the
-- pointer and not off the count.
pub strncpy_fast : List ℕ → List ℕ → ℕ → Run (List ℕ × ℕ)
strncpy_fast to from count = do r ← fast_from to from count; ok (r.0, count)
