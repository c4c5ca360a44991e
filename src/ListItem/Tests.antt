-- ===== src/ListItem/Tests.antt =====
-- source/ListItemVal.c on a value to which two references are taken, and all are given up.
use alib_c.Common.{◌≡◌, refl, true, none, some, List, [], ◌∷◌, arith}
use alib_c.ListItem.{ListItemVal}
use alib_c.ListItem.Counting.{Use, take_ref, drop_ref, uses, uses_lem}

abbrev made : ListItemVal
made = record { value = some 9; free_value_cb = true; ref_count = 1 }

abbrev turns : List Use
turns = take_ref ∷ drop_ref ∷ take_ref ∷ take_ref ∷ drop_ref ∷ drop_ref ∷ drop_ref ∷ drop_ref ∷ []

uses_lem_example : uses (some made) turns ≡ (9 ∷ [], none)
uses_lem_example = uses_lem turns 0 made refl (omega arith)
