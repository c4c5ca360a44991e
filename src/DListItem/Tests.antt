-- ===== src/DListItem/Tests.antt =====
-- The theorems on source/DListItem.c at a list of three nodes.
use alib_c.Common.{ℕ, ◌≡◌, refl, none, some, [], ◌∷◌, arith, ◌==◌, if◌then◌else◌}
use alib_c.Common.Run.{ok}
use alib_c.DListItem.{Node, Heap}
use alib_c.DListItem.Pull.{pull_out, new}
use alib_c.DListItem.Chain.{Chain, Avoids}
use alib_c.DListItem.Links.{Distinct}
use alib_c.DListItem.Pulling.{Alone, pull_out_lem}
use alib_c.DListItem.Inserting.{new_lem}

abbrev node : ℕ → ℕ → Node
node next prev = record { parent = 0; val = 50; next = next; prev = prev }

-- 1, 2 and 3 in a list, and 9 on its own
abbrev heap : Heap
heap p =
    if p == 1
    then some (node 2 0)
    else if p == 2
    then some (node 3 1)
    else if p == 3
    then some (node 0 2)
    else if p == 9
    then some (node 0 0)
    else none

three : Chain heap 0 (1 ∷ 2 ∷ 3 ∷ []) 0
three = (
  omega arith,
  (node 2 0, refl, refl, refl),
  (omega arith, (node 3 1, refl, refl, refl), (omega arith, (node 0 2, refl, refl, refl), tt)),
)

three-Distinct : Distinct (1 ∷ 2 ∷ 3 ∷ [])
three-Distinct = (
  (λ e. absurd (omega (arith, e)), (λ e. absurd (omega (arith, e)), tt)),
  ((λ e. absurd (omega (arith, e)), tt), (tt, tt)),
)

new-Avoids : Avoids 7 (1 ∷ 2 ∷ 3 ∷ [])
new-Avoids = (
  λ e. absurd (omega (arith, e)),
  (λ e. absurd (omega (arith, e)), (λ e. absurd (omega (arith, e)), tt)),
)

pull_out_lem_example :
    (h' : Heap) × (pull_out 1 heap 2 ≡ ok (2, 1, h')) × Chain h' 0 (1 ∷ 3 ∷ []) 0 × Alone h' 2
pull_out_lem_example = pull_out_lem 0 heap (1 ∷ []) 2 (3 ∷ []) three-Distinct three

new_lem_example :
    (h' : Heap) × (new 7 60 heap (some 2) ≡ ok (7, some 7, h')) × Chain h' 0 (1 ∷ 2 ∷ 7 ∷ 3 ∷ []) 0
new_lem_example =
    new_lem 7 60 heap (1 ∷ []) 2 (3 ∷ []) three-Distinct three (omega arith) new-Avoids
