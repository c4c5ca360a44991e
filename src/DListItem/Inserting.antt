-- ===== src/DListItem/Inserting.antt =====
-- newDListItem() behind an item of a list, and DListItem_insert_before() in front of the first one.
use alib_c.Common.{
  ℕ, suc, ◌<◌, ◌≡◌, ◌≢◌, refl, sym, ap, ◌∙◌, true, false, some, List, [], ◌∷◌, ◌++◌, arith, ◌==◌,
  alib_ok,
}
use alib_c.Common.Run.{ok, fault}
use alib_c.DListItem.{
  Node, Heap, put, set_next, set_prev, set_prev_if, get_first_item, get_last_item, set_list_parent,
  unless_owned, link_before, insert_before,
}
use alib_c.DListItem.Pull.{new}
use alib_c.DListItem.Chain.{head, Chain, Avoids, put_self, put_other, Chain-put}
use alib_c.DListItem.Walk.{get_first_item_lem, get_last_item_lem}
use alib_c.DListItem.Links.{
  Distinct, Avoids-append, Distinct-append, Avoids-earlier, Chain-agree, Chain-split, Chain-join,
  set_prev_if_lem, Avoids-head, head-Avoids,
}
use alib_c.DListItem.Pulling.{Alone, set_list_parent-alone}

new_run :
    (p val old : ℕ) (h h₂ : Heap) (o : Node) (next : ℕ)
    → 0 < p
    → 0 < old
    → h old ≡ some o
    → o.next ≡ next
    → set_prev_if (put h p (record { parent = 0; val = val; next = next; prev = old })) next p
      ≡ ok h₂
    → h₂ old ≡ some o
    → new p val h (some old) ≡ ok (p, some p, put h₂ old (record o { next = p }))
unfolding new set_next
new_run p val old h h₂ o next hp ho e r run e₂ =
    let some' : (p == 0) ≡ false = ground arith in
    let some'' : (old == 0) ≡ false = ground arith in rw (some', some'', e, r, run, e₂) refl

-- newDListItem() puts the new item behind the item that the caller's pointer points to, in a list of
-- distinct nodes, where malloc() gives an address that is none of them. The pointer is set to the new item.
pub new_lem :
    (p val : ℕ) (h : Heap) (xs : List ℕ) (old : ℕ) (ys : List ℕ)
    → Distinct (xs ++ old ∷ ys)
    → Chain h 0 (xs ++ old ∷ ys) 0
    → 0 < p
    → Avoids p (xs ++ old ∷ ys)
    → (h' : Heap) × (new p val h (some old) ≡ ok (p, some p, h'))
      × Chain h' 0 (xs ++ old ∷ p ∷ ys) 0
new_lem p val h xs old ys d c hp av =
    let (front, here, (o, e, l, r), back) = Chain-split h 0 xs old ys 0 c in
    let (dx, (avo, dy)) = Distinct-append xs (old ∷ ys) d in
    let (avx, (p≢old, avy)) = Avoids-append p xs (old ∷ ys) av in
    let avox : Avoids old xs = Avoids-earlier xs old ys d in
    let n : Node = record { parent = 0; val = val; next = head ys 0; prev = old } in
    let h₁ : Heap = put h p n in
    let (h₂, run, back₂, agree) =
      set_prev_if_lem h₁ old p ys dy (Chain-put h p n old ys 0 avy back) in
    let p≢head : p ≢ head ys 0 = Avoids-head p ys avy (λ z. absurd (omega (arith, z, hp))) in
    let old≢head : old ≢ head ys 0 =
      Avoids-head old ys avo (λ z. absurd (omega (arith, z, here))) in
    let e₂ : h₂ old ≡ some o = agree old old≢head ∙ put_other h p old n p≢old ∙ e in
    let m : Node = record o { next = p } in
    let h₃ : Heap = put h₂ old m in
    let new' : h₃ p ≡ some n =
      put_other h₂ old p m (λ q. p≢old (sym q)) ∙ agree p p≢head ∙ put_self h p n in
    let front₂ : Chain h₂ 0 xs old =
      Chain-agree h₁ h₂ (head ys 0) 0 xs old agree (head-Avoids h xs old ys d front)
        (Chain-put h p n 0 xs old avx front) in
    (
      h₃,
      new_run p val old h h₂ o (head ys 0) hp here e r run e₂,
      Chain-join h₃ 0 xs (old ∷ p ∷ ys) 0 (Chain-put h₂ old m 0 xs old avox front₂) (
        here,
        (m, put_self h₂ old m, l, refl),
        (hp, (n, new', refl, refl), Chain-put h₂ old m p ys 0 avo back₂),
      ),
    )

link_before_run :
    (fuel : ℕ) (h h₀ : Heap) (p q : ℕ) (n m : Node)
    → 0 < p
    → 0 < q
    → p ≢ q
    → h p ≡ some n
    → h₀ p ≡ some n
    → n.prev ≡ 0
    → h₀ q ≡ some m
    → get_last_item fuel h q ≡ ok q
    → get_first_item fuel h q ≡ ok q
    → set_list_parent fuel h q n.parent ≡ ok (alib_ok, h₀)
    → link_before fuel h p q ≡ fault
unfolding link_before set_next set_prev set_prev_if
link_before_run fuel h h₀ p q n m hp hq ne e e₀ first f last' first' parent' =
    let some' : (p == 0) ≡ false = ground arith in
    let some'' : (q == 0) ≡ false = ground arith in
    let q≢p : q ≢ p = λ z. ne (sym z) in
    let m₁ : Node = record m { next = p } in
    let h₁ : Heap = put h₀ q m₁ in
    let m₂ : Node = record m₁ { prev = n.prev } in
    let h₂ : Heap = put h₁ q m₂ in
    let h₃ : Heap = put h₂ p (record n { prev = q }) in
    let e₁ : h₁ p ≡ some n = put_other h₀ q p m₁ q≢p ∙ e₀ in
    let e₂ : h₂ p ≡ some n = put_other h₁ q p m₂ q≢p ∙ e₁ in
    let f₃ : h₃ q ≡ some m₂ = put_other h₂ p q (record n { prev = q }) ne ∙ put_self h₁ q m₂ in
    rw
      (
        last',
        first',
        some',
        e,
        parent',
        some'',
        f,
        e₁,
        put_self h₀ q m₁,
        put_self h₁ q m₂,
        some',
        e₂,
        f₃,
        first,
      )
      refl

-- DListItem_insert_before() in front of the first item of a list runs into a write through NULL, where the
-- new item is one that belongs to no list.
pub insert_before_head :
    (fuel : ℕ) (h : Heap) (p q : ℕ) (ys : List ℕ)
    → Chain h 0 (p ∷ ys) 0
    → 0 < q
    → p ≢ q
    → Alone h q
    → insert_before (suc fuel) h p q ≡ fault
unfolding insert_before unless_owned
insert_before_head fuel h p q ys (hp, (n, e, l, r), c) hq ne (m, f, f₁, f₂, f₃) =
    let some' : (p == 0) ≡ false = ground arith in
    let some'' : (q == 0) ≡ false = ground arith in
    let free : (m.parent == 0) ≡ true = ap (λ k. k == 0) f₃ in
    let alone : Chain h 0 (q ∷ []) 0 = (hq, (m, f, f₂, f₁), tt) in
    let (h₀, m', parent', f', _, _, _, agree) =
      set_list_parent-alone fuel h q n.parent m hq f f₁ f₂ in
    rw (some', some'', f, free)
      (link_before_run (suc fuel) h h₀ p q n m' hp hq ne e (agree p ne ∙ e) l f'
        (get_last_item_lem (suc fuel) h 0 [] q [] alone (omega arith))
        (get_first_item_lem (suc fuel) h [] q [] 0 alone (omega arith)) parent')
