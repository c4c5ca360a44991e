-- ===== src/ArrayList/Locked.antt =====
-- The *_tsafe() functions of source/ArrayList.c that only read the list.
use alib_c.Common.{ℕ, ◌≡◌, sym, ap, ◌∙◌, Bool, true, false, inl, inr, some, Bool-cases, get_elem?}
use alib_c.Common.Run.{Run, ok, ◌>>=◌}
use alib_c.ArrayList.State.{Item, ArrayList, slots, items}
use alib_c.ArrayList.Invariant.{IsValid}
use alib_c.ArrayList.Guarded.{mutex_lock, mutex_unlock, mutex_lock-free, set_locked-IsValid}
use alib_c.ArrayList.Access.{
  let_go, run_locked, with_mutex, reading, get_first_item_tsafe, find_item_by_value_tsafe,
  get_by_index_tsafe, get_item_index_tsafe,
}
use alib_c.ArrayList.Lookups.{
  find, index_of, get_first_item_lem, find_item_by_value_lem, get_by_index_lem, get_item_index_lem,
}

module _ {ℓ} {A : Type ℓ} where
  pub with_mutex-locked :
      (l : ArrayList) (op : ArrayList → Run (ArrayList × A)) {l' : ArrayList} {a : A}
      → l.use_mutex ≡ true
      → l.locked ≡ false
      → op (record l { locked = true }) ≡ ok (l', a)
      → with_mutex l op ≡ ok (record l' { locked = false }, a)
  unfolding with_mutex run_locked let_go mutex_unlock
  with_mutex-locked l op {l'} {a} m f e =
      let taken : mutex_lock l ≡ ok (record l { locked = true }) = mutex_lock-free l f in
      let inner : run_locked l op ≡ ok (record l' { locked = false }, a) = rw (taken, e) in
      let outer : with_mutex l op ≡ run_locked l op = rw m in outer ∙ inner

  pub with_mutex-plain :
      (l : ArrayList) (op : ArrayList → Run (ArrayList × A))
      → l.use_mutex ≡ false
      → with_mutex l op ≡ op l
  unfolding with_mutex
  with_mutex-plain l op m = rw m

  -- Reading under the mutex gives what reading gives, and leaves the list as it is.
  with_mutex-reading :
      (op : ArrayList → Run A) {l : ArrayList} {a : A}
      → l.locked ≡ false
      → op (record l { locked = true }) ≡ ok a
      → op l ≡ ok a
      → with_mutex l (reading op) ≡ ok (l, a)
  unfolding reading
  with_mutex-reading op {l} {a} f e e' = elim (Bool-cases l.use_mutex) [
    | inl mutex ↦
        with_mutex-locked l (reading op) {l' = record l { locked = true }} {a = a} mutex f (rw e)
        ∙ ap (λ b. ok (record l { locked = b }, a)) (sym f)
    | inr no_mutex ↦ with_mutex-plain l (reading op) no_mutex ∙ ap (λ m. m >>= (λ b. ok (l, b))) e'
  ]

-- On a valid list whose mutex is free, with or without a mutex in use, the reading *_tsafe() functions
-- answer from the items in order: the first item, the first that matches, the item of an index, the index
-- of an item. They leave the list as it was, and its mutex free.
pub reading-tsafe :
    {l : ArrayList} (matches : Item → Bool) (n : ℕ) (p : Item)
    → IsValid l
    → l.locked ≡ false
    → (get_first_item_tsafe l ≡ ok (l, get_elem? (items (slots l)) 0))
      × (find_item_by_value_tsafe l (some matches) ≡ ok (l, find matches (items (slots l))))
      × (get_by_index_tsafe l n ≡ ok (l, get_elem? (items (slots l)) n))
      × (get_item_index_tsafe l (some p) ≡ ok (l, index_of p 0 (items (slots l))))
unfolding get_first_item_tsafe find_item_by_value_tsafe get_by_index_tsafe get_item_index_tsafe
reading-tsafe matches n p v f =
    let v₁ = set_locked-IsValid true v in
    (
      with_mutex-reading _ f (get_first_item_lem v₁) (get_first_item_lem v),
      with_mutex-reading _ f (find_item_by_value_lem matches v₁) (find_item_by_value_lem matches v),
      with_mutex-reading _ f (get_by_index_lem n v₁) (get_by_index_lem n v),
      with_mutex-reading _ f (get_item_index_lem p v₁) (get_item_index_lem p v),
    )
