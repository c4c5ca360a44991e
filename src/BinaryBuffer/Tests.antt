-- ===== src/BinaryBuffer/Tests.antt =====
-- The theorems on source/BinaryBuffer.c and memcpy_safe() at concrete buffers, and runs of its functions.
use alib_c.Common.{
  ℕ, ◌+◌, ◌-◌, ◌^◌, ◌≤◌, ◌<◌, ◌≡◌, refl, ◌⊎◌, Bool, true, false, none, some, [], ◌∷◌, arith,
  alib_ok,
}
use alib_c.Common.Run.{ok, fault, ◌>>=◌}
use alib_c.AlibString.{memcpy_safe}
use alib_c.AlibString.Copies.{memcpy_safe_lem}
use alib_c.BinaryBuffer.{BinaryBuffer, next_size, grow_to, append, insert, remove, replace}
use alib_c.BinaryBuffer.Growth.{IsValid, contents, lost, grow_to-some}
use alib_c.BinaryBuffer.Edits.{append_lem, remove_lem}
use alib_c.BinaryBuffer.Moving.{Movable, insert_lem, replace_lem}
use alib_c.BinaryBuffer.Life.{copy_and_drain}
use alib_c.BinaryBuffer.Life.Draining.{append-copy_and_drain}

abbrev all_room : ℕ → Bool
all_room n = true

-- Four bytes in use, in memory of six.
abbrev four : BinaryBuffer
four = record {
  buff = some (10 ∷ 20 ∷ 30 ∷ 40 ∷ 50 ∷ 60 ∷ []);
  len = 4;
  capacity = 6;
  min_cap = 2;
  max_expand = 8;
}

abbrev five : BinaryBuffer
five = record four { len = 5; buff = some (10 ∷ 20 ∷ 30 ∷ 40 ∷ 50 ∷ 60 ∷ []) }

five-IsValid : IsValid five
five-IsValid = (refl, omega arith, omega arith, omega arith, omega arith, omega arith)

abbrev empty : BinaryBuffer
empty = record { buff = none; len = 0; capacity = 0; min_cap = 2; max_expand = 8 }

four-IsValid : IsValid four
four-IsValid = (refl, omega arith, omega arith, omega arith, omega arith, omega arith)

empty-IsValid : IsValid empty
empty-IsValid = (refl, omega arith, omega arith, omega arith, omega arith, omega arith)

next_size_wraps : next_size (2 ^ 64 - 1) (2 ^ 63) ≡ 2 ^ 64 - 1
unfolding next_size
next_size_wraps = refl

grow_to_twenty : grow_to 20 8 6 20 ≡ some 20
unfolding grow_to next_size
grow_to_twenty = refl

grow_to-some_example : (n : ℕ) × (grow_to 20 8 6 20 ≡ some n) × (20 ≤ n) × (6 ≤ n) × (n < 2 ^ 64)
grow_to-some_example =
    grow_to-some 20 8 6 20 (omega arith) (omega arith) (omega arith) (omega arith) (omega arith)

append_lem_example :
    ((b' : BinaryBuffer) × (append all_room 0 four (some (1 ∷ 2 ∷ 3 ∷ [])) 3 ≡ ok (alib_ok, b'))
      × IsValid b'
      × (contents b' ≡ 10 ∷ 20 ∷ 30 ∷ 40 ∷ 1 ∷ 2 ∷ 3 ∷ []))
    ⊎ ((k : ℕ) × (all_room k ≡ false)
        × (append all_room 0 four (some (1 ∷ 2 ∷ 3 ∷ [])) 3 ≡ ok (lost four)))
append_lem_example = append_lem all_room 0 four (1 ∷ 2 ∷ 3 ∷ []) four-IsValid (omega arith)

insert_lem_example :
    ((b' : BinaryBuffer) × (x : ℕ) × (insert all_room 0 four 1 (some (9 ∷ [])) 1 ≡ ok (alib_ok, b'))
      × IsValid b'
      × (contents b' ≡ 10 ∷ 9 ∷ 20 ∷ 30 ∷ x ∷ []))
    ⊎ ((k : ℕ) × (all_room k ≡ false)
        × (insert all_room 0 four 1 (some (9 ∷ [])) 1 ≡ ok (lost four)))
insert_lem_example = insert_lem all_room 0 four 1 (9 ∷ []) four-IsValid (omega arith) (omega arith)

remove_lem_example :
    (((5 ≤ 3 + 1) ⊎ (5 - 3 ≤ 3 - 1))
      × ((b' : BinaryBuffer) × (remove five 1 3 ≡ ok (alib_ok, b'))
          × IsValid b'
          × (contents b' ≡ 10 ∷ 40 ∷ 50 ∷ [])))
    ⊎ ((3 + 1 < 5) × (3 - 1 < 5 - 3) × (remove five 1 3 ≡ fault))
remove_lem_example = remove_lem five 1 3 five-IsValid (omega arith) (omega arith) (omega arith)

replace_lem_example :
    (Movable four 1 1 3
      × ((b' : BinaryBuffer) × (replace all_room 0 four 1 1 (7 ∷ 8 ∷ 9 ∷ []) 3 ≡ ok (alib_ok, b'))
          × IsValid b'
          × (contents b' ≡ 10 ∷ 7 ∷ 8 ∷ 9 ∷ 30 ∷ 40 ∷ [])))
    ⊎ ((3 < 1) × (1 - 3 < 4 - (1 + 1)) × (replace all_room 0 four 1 1 (7 ∷ 8 ∷ 9 ∷ []) 3 ≡ fault))
replace_lem_example =
    replace_lem all_room 0 four 1 1 (7 ∷ 8 ∷ 9 ∷ []) four-IsValid (omega arith) (omega arith)
      (omega arith)

append-copy_and_drain_example :
    (b' : BinaryBuffer) × ((do
      r ← append all_room 0 empty (some (1 ∷ 2 ∷ 3 ∷ [])) 3
      copy_and_drain r.1 3)
      ≡ ok (1 ∷ 2 ∷ 3 ∷ [], (alib_ok, b')))
    × IsValid b'
    × (contents b' ≡ [])
append-copy_and_drain_example =
    append-copy_and_drain all_room 0 empty (1 ∷ 2 ∷ 3 ∷ []) empty-IsValid refl (omega arith)
      (omega arith) (λ k. refl)

memcpy_safe_lem_example : memcpy_safe (1 ∷ 2 ∷ 3 ∷ 4 ∷ 5 ∷ []) 2 1 3 ≡ ok (1 ∷ 2 ∷ 2 ∷ 3 ∷ 4 ∷ [])
memcpy_safe_lem_example = memcpy_safe_lem (1 ∷ 2 ∷ 3 ∷ 4 ∷ 5 ∷ []) 2 1 3 (omega arith) (omega arith)
