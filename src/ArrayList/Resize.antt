-- ===== src/ArrayList/Resize.antt =====
-- ArrayList_resize(), ArrayList_shrink() and ArrayList_expand(). `room n` says whether the C library
-- can allocate an array of `n` pointers.
use alib_c.Common.{
  ℕ, ◌-◌, ◌*◌, Bool, ◌&&◌, Option, none, some, List, [], ◌++◌, min, ltb, leb, ◌==◌, if◌then◌else◌,
  replicate, map, take, length,
}
use alib_c.Common.Run.{Run, ok, fault, ◌>>=◌}
use alib_c.ArrayList.State.{Item, Slot, ArrayList, handed, next_items}

-- The new list, the returned capacity, and the items handed to `free_item`.
abbrev pub Resized : Type 0
Resized = ArrayList × ℕ × List Item

abbrev pub filled : List Item → ℕ → List Slot
filled ps n = map some ps ++ replicate n none

module _ (room : ℕ → Bool) where
  -- calloc() of `n` pointers
  unfoldable pub calloc : ℕ → Option (List Slot)
  calloc n = if room n then some (replicate n none) else none

  -- The new array in place of the old one. Only a copy writes through it.
  unfoldable pub packed : ArrayList → ℕ → List Item → List Item → Run Resized
  packed l newcap kept dropped =
      if room newcap
      then ok (
        record l {
          list = some (filled kept (newcap - length kept));
          count = min l.count newcap;
          capacity = newcap;
        },
        newcap,
        handed l.frees dropped,
      )
      else if length kept == 0
      then ok (record l { list = none; capacity = newcap }, newcap, handed l.frees dropped)
      else fault

  -- The case of a capacity that falls: the items are packed into a new array, and those that it
  -- cannot hold are removed by ArrayList_remove_by_ptr().
  unfoldable pub pack : ArrayList → List Slot → ℕ → Run Resized
  unfolding packed
  pack l xs newcap = do
    (kept, rest) ← next_items (min l.count newcap) xs
    (dropped, rest') ← next_items (l.count - newcap) rest
    packed l newcap kept dropped

  -- The case of a capacity that grows: realloc() and memset(). Memory of the old array that was never
  -- allocated, or a failed realloc(), is a fault.
  unfoldable pub grow : ArrayList → List Slot → ℕ → Run Resized
  grow l xs newcap =
      if room newcap && leb l.capacity (length xs)
      then ok (
        record l {
          list = some (take l.capacity xs ++ replicate (newcap - l.capacity) none);
          capacity = newcap;
        },
        newcap,
        [],
      )
      else fault

  unfoldable pub resize_list : ArrayList → Option (List Slot) → ℕ → Run Resized
  unfolding calloc pack grow
  resize_list l none newcap =
      let c = if ltb l.max_cap newcap then l.max_cap else newcap in
      ok (record l { list = calloc c; capacity = c }, c, [])
  resize_list l (some xs) newcap =
      if newcap == 0
      then ok (record l { list = none; count = 0; capacity = 0 }, 0, [])
      else if ltb newcap l.capacity
      then pack l xs newcap
      else grow l xs newcap

  unfoldable pub resize : ArrayList → ℕ → Run Resized
  unfolding resize_list
  resize l newcap = if newcap == l.capacity then ok (l, newcap, []) else resize_list l l.list newcap

  unfoldable pub shrink : ArrayList → Run Resized
  shrink l = resize l l.count

  -- The returned capacity is the new list's.
  unfoldable pub expand : ArrayList → Run Resized
  expand l =
      if l.capacity == 0
      then resize l 1
      else if ltb l.capacity l.max_cap
      then resize l (if ltb (l.max_cap - l.capacity) l.capacity then l.max_cap else l.capacity * 2)
      else ok (l, l.capacity, [])
