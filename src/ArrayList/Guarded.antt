-- ===== src/ArrayList/Guarded.antt =====
-- Eight of the *_tsafe() functions of source/ArrayList.c that change the list: the plain calls under the
-- mutex. ArrayList/Access has the others.
use alib_c.Common.{
  ℕ, ◌≡◌, refl, sym, ◌∙◌, Bool, true, false, inl, inr, Option, none, some, [], if◌then◌else◌,
  Bool-cases, arith,
}
use mathlib.Core.Path.{subst}
use alib_c.Common.Run.{Run, ok, fault, ◌>>=◌}
use alib_c.ArrayList.State.{Item, ArrayList}
use alib_c.ArrayList.Resize.{resize}
use alib_c.ArrayList.Invariant.{IsValid, Roomy, count-le-capacity}
use alib_c.ArrayList.Calls.{
  Call, add_item, remove_item, remove_item_no_free, clear_all, resize_to, shrink_it, sift_it,
  extract_it, Reply, freed, Outcome, from_resize, apply, apply_null,
}
use alib_c.ArrayList.Calls.Sound.{Respects, Goes, apply-Goes, resize-Goes}

-- pthread_mutex_lock(): a thread that locks the mutex twice waits for ever, which is a fault here.
unfoldable pub mutex_lock : ArrayList → Run ArrayList
mutex_lock l = if l.locked then fault else ok (record l { locked = true })

unfoldable pub mutex_unlock : ArrayList → ArrayList
mutex_unlock l = record l { locked = false }

-- ArrayList_lock() and ArrayList_unlock()
unfoldable pub lock : ArrayList → Run ArrayList
lock l = if l.use_mutex then mutex_lock l else ok l

unfoldable pub unlock : ArrayList → ArrayList
unlock l = if l.use_mutex then mutex_unlock l else l

pub data Guarded : Type 0 where
  add_tsafe : Option Item → Guarded
  remove_tsafe : Option Item → Guarded
  remove_no_free_tsafe : Option Item → Guarded
  clear_tsafe : Guarded
  resize_tsafe : ℕ → Guarded
  shrink_tsafe : Guarded
  sift_tsafe : Guarded
  extract_tsafe : Guarded

abbrev pub plain : Guarded → Call
plain (add_tsafe p) = add_item p
plain (remove_tsafe p) = remove_item p
plain (remove_no_free_tsafe p) = remove_item_no_free p
plain clear_tsafe = clear_all
plain (resize_tsafe n) = resize_to n
plain shrink_tsafe = shrink_it
plain sift_tsafe = sift_it
plain extract_tsafe = extract_it

released : Option ArrayList × Reply → Outcome
released (none, a) = fault
released (some l, a) = ok (some (mutex_unlock l), a)

-- `if(use_mutex) { lock; call; unlock; } else call;`
locked_call : ArrayList → (ArrayList → Outcome) → Outcome
locked_call l op = do l₁ ← mutex_lock l; r ← op l₁; released r

under_mutex : ArrayList → (ArrayList → Outcome) → Outcome
under_mutex l op = if l.use_mutex then locked_call l op else op l

module _ (room : ℕ → Bool) where
  -- The count that ArrayList_shrink_tsafe() passes on is read before the mutex is locked.
  call_on : ArrayList → Guarded → Outcome
  call_on l (remove_no_free_tsafe none) = ok (some l, freed [])
  call_on l shrink_tsafe = under_mutex l (λ l₁. from_resize (resize room l₁ l.count))
  call_on l g = under_mutex l (λ l₁. apply room l₁ (plain g))

  pub call_tsafe : Option ArrayList → Guarded → Outcome
  call_tsafe none g = apply_null room (plain g)
  call_tsafe (some l) g = call_on l g

-- The call goes through and leaves the mutex free.
pub record Released (l : ArrayList) (m : Outcome) : Type 0 where
  pub after : ArrayList
  pub reply : Reply
  pub runs : m ≡ ok (some after, reply)
  pub valid : IsValid after
  pub max_cap : after.max_cap ≡ l.max_cap
  pub free : after.locked ≡ false

pub mutex_lock-free :
    (l : ArrayList) → l.locked ≡ false → mutex_lock l ≡ ok (record l { locked = true })
unfolding mutex_lock
mutex_lock-free l f = simp f

under_mutex-locked :
    (l : ArrayList) (op : ArrayList → Outcome) {l' : ArrayList} {a : Reply}
    → l.use_mutex ≡ true
    → l.locked ≡ false
    → op (record l { locked = true }) ≡ ok (some l', a)
    → under_mutex l op ≡ ok (some (record l' { locked = false }), a)
unfolding under_mutex locked_call mutex_unlock released
under_mutex-locked l op {l'} {a} m f e =
    let takes : mutex_lock l ≡ ok (record l { locked = true }) = mutex_lock-free l f in
    let inner : locked_call l op ≡ ok (some (record l' { locked = false }), a) = rw (takes, e) in
    let outer : under_mutex l op ≡ locked_call l op = rw m in outer ∙ inner

under_mutex-plain :
    (l : ArrayList) (op : ArrayList → Outcome) → l.use_mutex ≡ false → under_mutex l op ≡ op l
unfolding under_mutex
under_mutex-plain l op m = rw m

pub set_locked-IsValid : {l : ArrayList} (b : Bool) → IsValid l → IsValid (record l { locked = b })
set_locked-IsValid b v = record {
  allocated = v.allocated;
  counted = v.counted;
  capped = v.capped;
  bounded = v.bounded;
}

under_mutex-Released :
    (l : ArrayList) (op : ArrayList → Outcome)
    → l.locked ≡ false
    → IsValid l
    → ((l₁ : ArrayList)
        → IsValid l₁
        → l₁.max_cap ≡ l.max_cap
        → l₁.count ≡ l.count
        → Goes l₁ (op l₁))
    → Released l (under_mutex l op)
under_mutex-Released l op free v goes = elim (Bool-cases l.use_mutex) [
  | inl mutex ↦
      let l₁ : ArrayList = record l { locked = true } in
      let g = goes l₁ (set_locked-IsValid true v) refl refl in
      record {
        after = record g.after { locked = false };
        reply = g.reply;
        runs = under_mutex-locked l op mutex free g.runs;
        valid = set_locked-IsValid false g.valid;
        max_cap = g.max_cap;
        free = refl;
      }
  | inr no_mutex ↦
      let g = goes l v refl refl in
      record {
        after = g.after;
        reply = g.reply;
        runs = under_mutex-plain l op no_mutex ∙ g.runs;
        valid = g.valid;
        max_cap = g.max_cap;
        free = g.locked ∙ free;
      }
]

module _ {room : ℕ → Bool} (roomy : Roomy room) where
  plain-Released :
      (l : ArrayList) (c : Call)
      → l.locked ≡ false
      → IsValid l
      → Respects l.max_cap c
      → Released l (under_mutex l (λ l₁. apply room l₁ c))
  plain-Released l c free v h =
      under_mutex-Released l (λ l₁. apply room l₁ c) free v
        (λ l₁ v₁ m n. apply-Goes roomy l₁ c v₁ (subst (λ k. Respects k c) (sym m) h))

  -- If allocation succeeds, each of these calls on a valid list whose mutex is free, that resizes to no
  -- more than the maximum, goes through, whether or not the list uses its mutex: it leaves a valid list
  -- whose mutex is free again.
  pub call_tsafe-Released :
      (l : ArrayList) (g : Guarded)
      → l.locked ≡ false
      → IsValid l
      → Respects l.max_cap (plain g)
      → Released l (call_tsafe room (some l) g)
  unfolding call_tsafe call_on
  call_tsafe-Released l (add_tsafe p) free v h = plain-Released l (add_item p) free v h
  call_tsafe-Released l (remove_tsafe p) free v h = plain-Released l (remove_item p) free v h
  call_tsafe-Released l (remove_no_free_tsafe none) free v h = record {
    after = l;
    reply = freed [];
    runs = refl;
    valid = v;
    max_cap = refl;
    free = free;
  }
  call_tsafe-Released l (remove_no_free_tsafe (some p)) free v h =
      plain-Released l (remove_item_no_free (some p)) free v h
  call_tsafe-Released l clear_tsafe free v h = plain-Released l clear_all free v h
  call_tsafe-Released l (resize_tsafe n) free v h = plain-Released l (resize_to n) free v h
  call_tsafe-Released l shrink_tsafe free v h =
      under_mutex-Released l (λ l₁. from_resize (resize room l₁ l.count)) free v
        (λ l₁ v₁ m n.
          resize-Goes roomy l₁ l.count v₁ (omega (arith, count-le-capacity v, v.capped, m)))
  call_tsafe-Released l sift_tsafe free v h = plain-Released l sift_it free v h
  call_tsafe-Released l extract_tsafe free v h = plain-Released l extract_it free v h

-- ArrayList_add_tsafe() on a list whose mutex the thread holds already never returns.
pub call_tsafe_blocked :
    (room : ℕ → Bool) (l : ArrayList) (p : Option Item)
    → l.use_mutex ≡ true
    → l.locked ≡ true
    → call_tsafe room (some l) (add_tsafe p) ≡ fault
unfolding call_tsafe call_on under_mutex locked_call mutex_lock
call_tsafe_blocked room l p m k = rw (m, k)
