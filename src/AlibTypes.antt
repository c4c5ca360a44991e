-- ===== src/AlibTypes.antt =====
-- source/alib_types.c: what a string can be parsed into, and packages that wrap an object. A string is
-- the memory from its first character on; a read behind that memory is a fault. `char` is signed, and the
-- tests on it come out as they do on bytes.
pub mod Parsing
mod Tests
use alib_c.Common.{
  ℕ, zero, suc, ◌+◌, ◌-◌, ◌^◌, Bool, true, false, not, ◌||◌, Option, none, some, List, [], ◌∷◌,
  length, take, drop, get_elem?, ltb, ◌==◌, if◌then◌else◌,
}
use alib_c.Common.Run.{Run, ok, fault, ◌>>=◌}

-- ' ', '\n', '\t' and '\r'
pub is_whitespace : ℕ → Bool
is_whitespace c = c == 32 || c == 10 || c == 9 || c == 13

-- `*str < '0' || *str > '9'`
pub is_other : ℕ → Bool
is_other c = ltb c 48 || ltb 57 c

-- `while(is_whitespace(*str)) ++str;`
pub skip : List ℕ → Run (List ℕ)
skip [] = fault
skip (c ∷ s) = let rest = skip s in if is_whitespace c then rest else ok (c ∷ s)

-- The loop of is_int(); `found` is its r_val.
pub int_from : Bool → List ℕ → Run Bool
int_from found [] = fault
int_from found (c ∷ s) =
    let rest = int_from true s in
    if c == 0 || is_whitespace c then ok found else if is_other c then ok false else rest

pub is_int : List ℕ → Run Bool
is_int str = do s ← skip str; int_from false s

-- The loop of is_double(). A dot is noted, and then it is looked at like any other character.
pub double_from : (found dot_found : Bool) → List ℕ → Run Bool
double_from found dot_found [] = fault
double_from found dot_found (c ∷ s) =
    let rest = double_from true (if not dot_found then dot_found || c == 46 else dot_found) s in
    if c == 0 || is_whitespace c then ok found else if is_other c then ok false else rest

pub is_double : List ℕ → Run Bool
is_double str = do s ← skip str; double_from false false s

-- `for(; len > 0 && is_whitespace(*str); --len, ++str);` and the length that is left
pub skip_n : List ℕ → ℕ → Run (List ℕ × ℕ)
skip_n s zero = ok (s, 0)
skip_n [] (suc len) = fault
skip_n (c ∷ s) (suc len) =
    let rest = skip_n s len in if is_whitespace c then rest else ok (c ∷ s, suc len)

-- The loop of is_int_n(), which does not stop at a NUL.
pub int_n_from : Bool → List ℕ → ℕ → Run Bool
int_n_from found s zero = ok found
int_n_from found [] (suc len) = fault
int_n_from found (c ∷ s) (suc len) =
    let rest = int_n_from true s len in
    if is_whitespace c then ok found else if is_other c then ok false else rest

-- is_int_n() for a length that is not negative
pub is_int_n : List ℕ → ℕ → Run Bool
is_int_n str len = do r ← skip_n str len; int_n_from false r.0 r.1

pub double_n_from : (found dot_found : Bool) → List ℕ → ℕ → Run Bool
double_n_from found dot_found s zero = ok found
double_n_from found dot_found [] (suc len) = fault
double_n_from found dot_found (c ∷ s) (suc len) =
    let rest =
      double_n_from true (if not dot_found then dot_found || c == 46 else dot_found) s len in
    if c == 0 || is_whitespace c then ok found else if is_other c then ok false else rest

pub is_double_n : List ℕ → ℕ → Run Bool
is_double_n str len = do r ← skip_n str len; double_n_from false false r.0 r.1

-- `*(str + i)`
abbrev pub char_at : Option ℕ → Run ℕ
char_at none = fault
char_at (some c) = ok c

-- "true" and "false"
abbrev pub true_string : List ℕ
true_string = 116 ∷ 114 ∷ 117 ∷ 101 ∷ []

abbrev pub false_string : List ℕ
false_string = 102 ∷ 97 ∷ 108 ∷ 115 ∷ 101 ∷ []

unfoldable pub strlen : List ℕ → Run ℕ
strlen [] = fault
strlen (c ∷ s) = let rest = strlen s in if c == 0 then ok 0 else (do n ← rest; ok (n + 1))

pub data StringType : Type 0 where
  type_int : StringType
  type_double : StringType
  type_bool : StringType
  type_string : StringType

-- `same` says whether strncasecmp() of the two strings and the length gives 0.
module _ (same : List ℕ → List ℕ → ℕ → Bool) where
  -- `strncasecmp(…) == 0 && is_whitespace(str[str_len])`
  pub matches : List ℕ → ℕ → List ℕ → ℕ → Run Bool
  matches s len word n =
      if same s word n then (do c ← char_at (get_elem? s len); ok (is_whitespace c)) else ok false

  pub is_bool_n : List ℕ → ℕ → Run Bool
  is_bool_n str len = do
    s ← skip str
    if ltb len 4 then ok false else do
      t ← matches s len true_string 4
      f ← (if t then ok true else matches s len false_string 5)
      ok f

  pub is_bool : List ℕ → Run Bool
  is_bool str = do n ← strlen str; is_bool_n str n

  pub get_string_type : List ℕ → Run StringType
  get_string_type str = do
    i ← is_int str
    d ← (if i then ok false else is_double str)
    b ← (if i || d then ok false else is_bool str)
    ok (if i then type_int else if d then type_double else if b then type_bool else type_string)

  pub get_string_type_n : List ℕ → ℕ → Run StringType
  get_string_type_n str len = do
    i ← is_int_n str len
    d ← (if i then ok false else is_double_n str len)
    b ← (if i || d then ok false else is_bool_n str len)
    ok (if i then type_int else if d then type_double else if b then type_bool else type_string)

-- `free_data` says whether there is a callback.
pub record WrapperPackage : Type 0 where
  pub parent : Option ℕ
  pub data_ptr : Option ℕ
  pub free_data : Bool

-- new_wrapper_package(); the flag says whether malloc() succeeds.
pub new_wrapper_package : Bool → Option ℕ → Option ℕ → Bool → Option WrapperPackage
new_wrapper_package false parent p callback = none
new_wrapper_package true parent p callback =
    some (record { parent = parent; data_ptr = p; free_data = callback })

abbrev pub given : Option ℕ → Bool → List ℕ
given (some p) true = p ∷ []
given _ _ = []

-- free_wrapper_package(): what the callback is given
pub free_wrapper_package : Option WrapperPackage → List ℕ
free_wrapper_package none = []
free_wrapper_package (some w) = given w.data_ptr w.free_data

-- del_wrapper_package(): that, and the caller's pointer afterwards
pub del_wrapper_package : Option WrapperPackage → List ℕ × Option WrapperPackage
del_wrapper_package w = (free_wrapper_package w, none)
