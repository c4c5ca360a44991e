-- ===== src/ListItem.antt =====
-- source/ListItemVal.c and source/ListItem.c: values with a count of references, and the items that point
-- to them. `values` is the memory of the values, by address; a read of memory that is no value, or
-- through NULL, is a fault.
pub mod Counting
mod Tests
use alib_c.Common.{
  ℕ, zero, suc, ◌-◌, Bool, true, false, Option, none, some, List, [], ◌∷◌, ◌++◌, ◌==◌,
  if◌then◌else◌, add_size,
}
use alib_c.Common.Run.{Run, ok, fault, ◌>>=◌}

-- `free_value_cb` says whether there is a callback.
pub record ListItemVal : Type 0 where
  pub value : Option ℕ
  pub free_value_cb : Bool
  pub ref_count : ℕ

-- ListItemVal_ref(): whether it returns the object, and the object
pub ref : Option ListItemVal → Bool × Option ListItemVal
ref none = (false, none)
ref (some v) =
    if v.ref_count == 0
    then (false, some v)
    else (true, some (record v { ref_count = add_size v.ref_count 1 }))

pub get_value : ListItemVal → Option ℕ
get_value v = v.value

-- newListItemVal(); the flag says whether malloc() succeeds.
pub new_val : Bool → Option ℕ → Bool → Option ListItemVal
new_val false p callback = none
new_val true p callback = some (record { value = p; free_value_cb = callback; ref_count = 1 })

-- What the callback is given
abbrev pub handed : Option ℕ → Bool → List ℕ
handed (some p) true = p ∷ []
handed _ _ = []

-- delListItemVal(): what the callback is given, and the object, none once it has been freed
pub del_val : Option ListItemVal → List ℕ × Option ListItemVal
del_val none = ([], none)
del_val (some v) =
    let v' = record v { ref_count = v.ref_count - 1 } in
    if v.ref_count == 0
    then ([], some v)
    else if v'.ref_count == 0
    then (handed v.value v.free_value_cb, none)
    else ([], some v')

-- delListItemVal_complete()
pub del_val_complete : Option ListItemVal → List ℕ × Option ListItemVal
del_val_complete none = ([], none)
del_val_complete (some v) = (handed v.value v.free_value_cb, none)

pub record ListItem : Type 0 where
  pub val : Option ℕ
  pub parent : Option ℕ
  pub removed : Bool

abbrev pub Values : Type 0
Values = ℕ → Option ListItemVal

abbrev pub stored : Values → ℕ → Option ListItemVal → Values
stored values p v q = if q == p then v else values q

abbrev pub known : Option ListItemVal → Run ListItemVal
known none = fault
known (some v) = ok v

-- ListItem_get_val()
pub get_val : Values → ListItem → Run (Option ℕ)
get_val values item = elim item.val [ none ↦ fault | some p ↦ do v ← known (values p); ok v.value ]

abbrev pub ref_behind : Values → Option ℕ → Run (Option ℕ × Values)
ref_behind values none = ok (none, values)
ref_behind values (some p) = do
  v ← known (values p)
  let r = ref (some v)
  ok (if r.0 then some p else none, stored values p r.1)

-- ListItem_get_val_ref(): what it returns, and the values
pub get_val_ref : Values → ListItem → Run (Option ℕ × Values)
get_val_ref values item = ref_behind values item.val

pub is_removed : ListItem → Bool
is_removed item = item.removed

pub mark_for_removal : ListItem → ListItem
mark_for_removal item = record item { removed = true }

-- ListItem_extract_value()
pub extract_value : Option ListItem → Option ℕ × Option ListItem
extract_value none = (none, none)
extract_value (some item) = (item.val, some (mark_for_removal (record item { val = none })))

-- initListItem()
pub init_item : Option ℕ → ListItem
init_item val = record { val = val; parent = none; removed = false }

-- newListItem_ex(); the flag says whether malloc() succeeds.
pub new_ex : Bool → Option ℕ → Option ListItem
new_ex object none = none
new_ex object (some p) = if object then some (init_item (some p)) else none

abbrev pub del_behind : Values → Option ℕ → Run (List ℕ × Values)
del_behind values none = ok ([], values)
del_behind values (some p) = do
  v ← known (values p)
  let r = del_val (some v)
  ok (r.0, stored values p r.1)

-- newListItem(); `val` and `object` say whether the two calls of malloc() succeed, and `p` is where the
-- value is then stored.
pub new_item : (val object : Bool) → Values → ℕ → Option ℕ → Bool → Option ListItem × Values
new_item val object values p v callback = elim (new_val val v callback) [
  | none ↦ (new_ex object none, values)
  | some made ↦ (new_ex object (some p), stored values p (some made))
]

-- delListItem() of an item that is there: what the callback is given, and the values
pub del_item : Values → ListItem → Run (List ℕ × Values)
del_item values item = del_behind values item.val
