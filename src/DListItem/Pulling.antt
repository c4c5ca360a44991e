-- ===== src/DListItem/Pulling.antt =====
-- DListItem_pull_out(), newDListItem() and DListItem_insert_before() on the nodes of a list.
use alib_c.Common.{
  ℕ, zero, suc, ◌<◌, ◌≡◌, ◌≢◌, refl, ap, ◌∙◌, inl, inr, Bool-cases, true, false, some, List, ◌∷◌,
  ◌++◌, arith, ◌==◌, if◌then◌else◌, alib_ok,
}
use alib_c.Common.Run.{ok}
use alib_c.DListItem.{
  Node, Heap, put, set_next, set_prev, set_parent, set_next_if, set_prev_if, first_from,
  get_first_item, parent_from, set_list_parent,
}
use alib_c.DListItem.Pull.{pull_out}
use alib_c.DListItem.Chain.{head, Chain, Avoids, put_self}
use alib_c.DListItem.Walk.{last}
use alib_c.DListItem.Links.{
  Distinct, Distinct-append, Avoids-earlier, Agree, Chain-agree, Agree-put, Chain-split, Chain-join,
  set_prev_if_lem, set_next_if_lem, Avoids-head, Avoids-last_zero, head-Avoids, last-Avoids,
}

-- An item on its own
abbrev pub Alone : Heap → ℕ → Type 0
Alone h p = (n : Node) × (h p ≡ some n) × (n.next ≡ 0) × (n.prev ≡ 0) × (n.parent ≡ 0)

parent_from-nil : (fuel : ℕ) (h : Heap) (p q : ℕ) → p ≡ 0 → parent_from fuel h p q ≡ ok h
unfolding parent_from
parent_from-nil zero h p q e = rw e refl
parent_from-nil (suc fuel) h p q e = rw e refl

pub set_list_parent-alone :
    (fuel : ℕ) (h : Heap) (p parent : ℕ) (n : Node)
    → 0 < p
    → h p ≡ some n
    → n.next ≡ 0
    → n.prev ≡ 0
    → (h' : Heap) × (m : Node) × (set_list_parent (suc fuel) h p parent ≡ ok (alib_ok, h'))
      × (h' p ≡ some m)
      × (m.next ≡ 0)
      × (m.prev ≡ 0)
      × (m.parent ≡ parent)
      × Agree h h' p
unfolding set_list_parent get_first_item first_from parent_from set_parent
set_list_parent-alone fuel h p parent n here e l r =
    let some' : (p == 0) ≡ false = ground arith in
    let last' : (n.next == 0) ≡ true = ap (λ m. m == 0) l in
    let first' : (n.prev == 0) ≡ true = ap (λ m. m == 0) r in
    elim (Bool-cases (n.parent == parent)) [
      | inl free ↦
          let same : n.parent ≡ parent = ground arith in
          (h, n, rw (some', e, free) refl, e, l, r, same, λ q ne. refl)
      | inr owned ↦
          let m : Node = record n { parent = parent } in
          let read' : put h p m p ≡ some m = put_self h p m in
          (
            put h p m,
            m,
            rw
                (
                  some',
                  e,
                  owned,
                  first',
                  some',
                  e,
                  read',
                  parent_from-nil fuel (put h p m) n.next parent l,
                )
                refl,
            read',
            l,
            r,
            refl,
            Agree-put h p m,
          )
    ]

-- `p->next = NULL; p->prev = NULL; DListItem_set_list_parent(p, NULL);`
isolated :
    (fuel : ℕ) (h : Heap) (p : ℕ) (n : Node)
    → 0 < p
    → h p ≡ some n
    → (h₃ : Heap) × (h₄ : Heap) × (h' : Heap) × (set_next h p 0 ≡ ok h₃)
      × (set_prev h₃ p 0 ≡ ok h₄)
      × (set_list_parent (suc fuel) h₄ p 0 ≡ ok (alib_ok, h'))
      × Alone h' p
      × Agree h h' p
unfolding set_next set_prev
isolated fuel h p n here e =
    let m : Node = record n { next = 0 } in
    let m' : Node = record n { next = 0; prev = 0 } in
    let h₄ : Heap = put (put h p m) p m' in
    let some' : (p == 0) ≡ false = ground arith in
    let (h', last', run, e', l', r', free, agree) =
      set_list_parent-alone fuel h₄ p 0 m' here (put_self (put h p m) p m') refl refl in
    (
      put h p m,
      h₄,
      h',
      rw (some', e) refl,
      rw (some', put_self h p m) refl,
      run,
      (last', e', l', r', free),
      λ q ne. agree q ne ∙ Agree-put (put h p m) p m' q ne ∙ Agree-put h p m q ne,
    )

pull_out_run :
    (fuel : ℕ) (h h₁ h₂ h₃ h₄ h₅ : Heap) (p : ℕ) (n : Node) (next prev : ℕ)
    → 0 < p
    → h p ≡ some n
    → n.next ≡ next
    → n.prev ≡ prev
    → set_prev_if h next prev ≡ ok h₁
    → h₁ p ≡ some n
    → set_next_if h₁ prev next ≡ ok h₂
    → set_next h₂ p 0 ≡ ok h₃
    → set_prev h₃ p 0 ≡ ok h₄
    → set_list_parent (suc fuel) h₄ p 0 ≡ ok (alib_ok, h₅)
    → pull_out (suc fuel) h p ≡ ok (p, if prev == 0 then next else prev, h₅)
unfolding pull_out
pull_out_run fuel h h₁ h₂ h₃ h₄ h₅ p n next prev here e r l run₁ e₁ run₂ run₃ run₄ run₅ =
    let some' : (p == 0) ≡ false = ground arith in
    rw (some', e, r, l, run₁, e₁, r, l, run₂, run₃, run₄, run₅) refl

-- DListItem_pull_out() takes an item out of a list of distinct nodes: the nodes in front and behind are
-- then linked, and the item is on its own. The caller's pointer is set to the node in front, or else to
-- the one behind. One unit of fuel is enough, since the item is alone when its parent is set.
pub pull_out_lem :
    (fuel : ℕ) (h : Heap) (xs : List ℕ) (p : ℕ) (ys : List ℕ)
    → Distinct (xs ++ p ∷ ys)
    → Chain h 0 (xs ++ p ∷ ys) 0
    → (h' : Heap) × (pull_out (suc fuel) h p
        ≡ ok (p, if last 0 xs == 0 then head ys 0 else last 0 xs, h'))
      × Chain h' 0 (xs ++ ys) 0
      × Alone h' p
pull_out_lem fuel h xs p ys d c =
    let (front, here, (n, e, l, r), back) = Chain-split h 0 xs p ys 0 c in
    let (dx, (av, dy)) = Distinct-append xs (p ∷ ys) d in
    let avx : Avoids p xs = Avoids-earlier xs p ys d in
    let some' : (p == 0) ≡ false = ground arith in
    let (h₁, run₁, back₁, agree₁) = set_prev_if_lem h p (last 0 xs) ys dy back in
    let p≢head : p ≢ head ys 0 = Avoids-head p ys av (λ z. absurd (omega (arith, z, here))) in
    let e₁ : h₁ p ≡ some n = agree₁ p p≢head ∙ e in
    let front₁ : Chain h₁ 0 xs p =
      Chain-agree h h₁ (head ys 0) 0 xs p agree₁ (head-Avoids h xs p ys d front) front in
    let (h₂, run₂, front₂, agree₂) = set_next_if_lem h₁ xs p (head ys 0) dx front₁ in
    let p≢last : p ≢ last 0 xs = Avoids-last_zero p xs avx (λ z. absurd (omega (arith, z, here))) in
    let e₂ : h₂ p ≡ some n = agree₂ p p≢last ∙ e₁ in
    let back₂ : Chain h₂ (last 0 xs) ys 0 =
      Chain-agree h₁ h₂ (last 0 xs) (last 0 xs) ys 0 agree₂ (last-Avoids h xs p ys d back) back₁ in
    let (ha, hb, h₃, run₃, run₄, run₅, alone, agree₃) = isolated fuel h₂ p n here e₂ in
    (
      h₃,
      pull_out_run fuel h h₁ h₂ ha hb h₃ p n (head ys 0) (last 0 xs) here e r l run₁ e₁ run₂ run₃
          run₄ run₅,
      Chain-join h₃ 0 xs ys 0 (Chain-agree h₂ h₃ p 0 xs (head ys 0) agree₃ avx front₂)
          (Chain-agree h₂ h₃ p (last 0 xs) ys 0 agree₃ av back₂),
      alone,
    )
