-- ===== src/StrParser.antt =====
-- source/StrParser.c and includes/StrParser_private.h: a string that is trimmed at both ends.
-- `mem` is the memory that holds the string; reading outside it is a fault.
pub mod Trim
pub mod Whole
mod Tests
use alib_c.Common.{
  ℕ, zero, suc, ◌+◌, ◌-◌, Bool, true, false, Option, none, some, List, [], ◌∷◌, ltb, ◌==◌,
  if◌then◌else◌, get_elem?, drop, ℤ, alib_ok, alib_bad_arg,
}
use alib_c.Common.Run.{Run, ok, fault, ◌>>=◌}
use alib_c.StrRef.{StrRef, bad_bounds, distance}

pub record StrParser : Type 0 where
  pub str : StrRef
  pub it : StrRef

pub reset_it : StrParser → StrParser
reset_it p = record p { it = record { begin = none; end = p.str.begin } }

pub reset : Option StrParser → ℤ × Option StrParser
reset none = (alib_bad_arg, none)
reset (some p) = (alib_ok, some (reset_it p))

pub init : Option StrParser → Option ℕ → Option ℕ → ℤ × Option StrParser
init none b e = (alib_bad_arg, none)
init (some p) b e =
    if bad_bounds b e
    then (alib_bad_arg, some p)
    else reset (some (record p { str = record { begin = b; end = e } }))

-- `str + strLen` of a NULL pointer is taken to be NULL.
pub init_w_size : Option StrParser → Option ℕ → ℕ → ℤ × Option StrParser
init_w_size p none n = init p none none
init_w_size p (some b) n = init p (some b) (some (b + n))

-- `for(; *citEnd; ++citEnd);`
pub strlen : List ℕ → Run ℕ
strlen [] = fault
strlen (c ∷ cs) = if c == 0 then ok 0 else do n ← strlen cs; ok (n + 1)

-- `for(cit = chars; *cit != *strIt && cit != citEnd; ++cit);` with `n` characters to compare: how far
-- `cit` goes. The character behind the last is read too.
pub scan : ℕ → List ℕ → ℕ → Run ℕ
scan n [] c = fault
scan zero (x ∷ xs) c = ok 0
scan (suc n) (x ∷ xs) c = if x == c then ok 0 else do k ← scan n xs c; ok (k + 1)

-- Whether the loops of StrParser_trim() go on at the character `c`.
pub goes_on : List ℕ → ℕ → ℕ → Run Bool
goes_on chars count c = do k ← scan count chars c; ok (ltb k count)

-- "Trim beginning of string": how many of the next `n` characters are skipped
pub trim_front : List ℕ → ℕ → ℕ → List ℕ → Run ℕ
trim_front chars count zero xs = ok 0
trim_front chars count (suc n) [] = fault
trim_front chars count (suc n) (c ∷ xs) = do
  more ← goes_on chars count c
  let rest = trim_front chars count n xs
  if more then (do k ← rest; ok (k + 1)) else ok 0

-- "Trim end of string": `e` is one behind `strIt`, and `n` characters are left.
pub back_at : List ℕ → ℕ → Option ℕ → Run ℕ → ℕ → Run ℕ
back_at chars count none next e = fault
back_at chars count (some c) next e = do more ← goes_on chars count c; if more then next else ok e

pub trim_back : List ℕ → ℕ → List ℕ → ℕ → ℕ → Run ℕ
trim_back chars count mem zero e = ok e
trim_back chars count mem (suc n) e =
    back_at chars count (get_elem? mem (e - 1)) (trim_back chars count mem n (e - 1)) e

-- `it.begin < str.begin`; NULL lies below every pointer into the string.
pub before : Option ℕ → ℕ → Bool
before none b = true
before (some i) b = ltb i b

pub behind : Option ℕ → ℕ → Bool
behind none e = false
behind (some i) e = ltb e i

-- The end of StrParser_trim(): the iterator is kept inside the string.
pub trim_it : StrParser → ℕ → ℕ → StrParser
trim_it p b e =
    let p₁ = record p { str = record { begin = some b; end = some e } } in
    let p₂ = if before p₁.it.begin b then reset_it p₁ else p₁ in
    if behind p₂.it.end e then record p₂ { it = record p₂.it { end = some e } } else p₂

pub trim_between : List ℕ → StrParser → List ℕ → ℕ → Option ℕ → Option ℕ → Run (ℤ × StrParser)
trim_between mem p chars count (some b) (some e) = do
  k ← trim_front chars count (e - b) (drop b mem)
  e' ← trim_back chars count mem (e - (b + k) - 1) e
  ok (alib_ok, trim_it p (b + k) e')
trim_between mem p chars count _ _ = fault

-- StrParser_trim() on a parser
pub trim : List ℕ → StrParser → List ℕ → ℕ → Run (ℤ × StrParser)
trim mem p chars count = do
  n ← (if count == 0 then strlen chars else ok count)
  trim_between mem p chars n p.str.begin p.str.end

-- ' ', '\t', '\r' and '\n'
abbrev pub whitespaces : List ℕ
whitespaces = 32 ∷ 9 ∷ 13 ∷ 10 ∷ []

pub trim_whitespaces : List ℕ → StrParser → Run (ℤ × StrParser)
trim_whitespaces mem p = trim mem p whitespaces 4

pub get_str_len : Option StrParser → ℕ
get_str_len none = 0
get_str_len (some p) = distance p.str.begin p.str.end

it_len : Option ℕ → Option ℕ → ℕ
it_len none e = 0
it_len (some b) e = distance (some b) e

pub get_it_len : Option StrParser → ℕ
get_it_len none = 0
get_it_len (some p) = it_len p.it.begin p.it.end
