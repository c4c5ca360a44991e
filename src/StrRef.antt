-- ===== src/StrRef.antt =====
-- source/StrRef.c and includes/StrRef_private.h: a reference to a part of a string. A pointer is its
-- distance from the start of the memory that holds the string, `none` when it is NULL.
use alib_c.Common.{
  ℕ, ◌-◌, Bool, true, Option, none, some, ltb, if◌then◌else◌, ℤ, alib_ok, alib_bad_arg,
}

pub record StrRef : Type 0 where
  pub begin : Option ℕ
  pub end : Option ℕ

unfoldable pub get_begin : Option StrRef → Option ℕ
get_begin none = none
get_begin (some r) = r.begin

unfoldable pub get_end : Option StrRef → Option ℕ
get_end none = none
get_end (some r) = r.end

abbrev pub distance : Option ℕ → Option ℕ → ℕ
distance (some b) (some e) = e - b
distance none (some e) = e
distance _ none = 0

-- The code takes both pointers to be set.
unfoldable pub len : Option StrRef → ℕ
len none = 0
len (some r) = distance r.begin r.end

-- `!begin || !end || begin > end`
abbrev pub bad_bounds : Option ℕ → Option ℕ → Bool
bad_bounds (some b) (some e) = ltb e b
bad_bounds _ _ = true

unfoldable pub init : Option StrRef → Option ℕ → Option ℕ → ℤ × Option StrRef
init none b e = (alib_bad_arg, none)
init (some r) b e =
    if bad_bounds b e
    then (alib_bad_arg, some r)
    else (alib_ok, some (record { begin = b; end = e }))

-- `block` is what malloc() returns.
unfoldable pub new : (block : Option StrRef) → Option ℕ → Option ℕ → Option StrRef
unfolding init
new block b e =
    if bad_bounds b e then none else elim block [ none ↦ none | some r ↦ (init (some r) b e).1 ]

-- `stale` is what the uninitialised local holds.
unfoldable pub from_string : (stale : StrRef) → Option ℕ → Option ℕ → StrRef
from_string stale b e = if bad_bounds b e then stale else record { begin = b; end = e }
