-- ===== src/ListItem/Counting.antt =====
-- The references to a value of source/ListItemVal.c, counted.
use alib_c.Common.{
  ℕ, zero, suc, ◌+◌, ◌-◌, ◌^◌, ◌<◌, ◌≡◌, refl, sym, ap, true, false, Option, none, some, List, [],
  ◌∷◌, ◌++◌, append-nil, arith, length, ◌==◌, if◌then◌else◌, add_size,
}
use alib_c.ListItem.{ListItemVal, ref, del_val, handed}

-- A call of ListItemVal_ref() or of delListItemVal()
pub data Use : Type 0 where
  take_ref : Use
  drop_ref : Use

-- What the callback is given in the course of the calls, and the object afterwards
pub uses : Option ListItemVal → List Use → List ℕ × Option ListItemVal
uses v [] = ([], v)
uses v (take_ref ∷ us) = uses (ref v).1 us
uses v (drop_ref ∷ us) = let (given, rest) = uses (del_val v).1 us in ((del_val v).0 ++ given, rest)

-- The references after the calls, from a number of them on; once there is none there stays none.
abbrev pub left : ℕ → List Use → ℕ
left zero us = 0
left (suc n) [] = suc n
left (suc n) (take_ref ∷ us) = left (suc (suc n)) us
left (suc n) (drop_ref ∷ us) = left n us

uses-none : (us : List Use) → uses none us ≡ ([], none)
unfolding uses ref del_val
uses-none [] = refl
uses-none (take_ref ∷ us) = uses-none us
uses-none (drop_ref ∷ us) = uses-none us

-- A value lives as long as there is a reference to it. When the last one is given up, and not before, its
-- callback is given what it holds, exactly once; the references never are 2^64 or more.
pub uses_lem :
    (us : List Use) (n : ℕ) (v : ListItemVal)
    → v.ref_count ≡ suc n
    → suc n + length us < 2 ^ 64
    → uses (some v) us ≡ (
        if left (suc n) us == 0
        then (handed v.value v.free_value_cb, none)
        else ([], some (record v { ref_count = left (suc n) us })))
unfolding uses ref del_val
uses_lem [] n v e h =
    let some' : (v.ref_count == 0) ≡ false = ground (arith, e) in rw (sym e, some') refl
uses_lem (take_ref ∷ us) n v e h =
    let some' : (v.ref_count == 0) ≡ false = ground (arith, e) in
    let more : add_size v.ref_count 1 ≡ suc (suc n) = ground (arith, e, h) in
    rw some' (
      uses_lem us (suc n) (record v { ref_count = add_size v.ref_count 1 }) more (omega (arith, h)))
uses_lem (drop_ref ∷ us) zero v e h =
    let some' : (v.ref_count == 0) ≡ false = ground (arith, e) in
    let last : (v.ref_count - 1 == 0) ≡ true = ground (arith, e) in
    rw (some', last, uses-none us)
      (ap (λ given. (given, none)) (append-nil (handed v.value v.free_value_cb)))
uses_lem (drop_ref ∷ us) (suc n) v e h =
    let some' : (v.ref_count == 0) ≡ false = ground (arith, e) in
    let more : (v.ref_count - 1 == 0) ≡ false = ground (arith, e) in
    rw (some', more)
      (uses_lem us n (record v { ref_count = v.ref_count - 1 }) (omega (arith, e))
        (omega (arith, h)))
