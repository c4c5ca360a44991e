-- ===== src/ArrayList/Calls/Sound.antt =====
-- Sequences of calls by a client that respects the maximum of its list.
use alib_c.Common.{
  ℕ, ◌≤◌, ◌≡◌, refl, sym, ap, inl, inr, Bool, true, false, none, some, List, [], ◌∷◌, arith, ◌==◌,
  if◌then◌else◌, Bool-cases, le_cases, min, drop, ◌*◌, alib_ok,
}
use mathlib.Core.Path.{subst}
use alib_c.Common.Run.{ok}
use alib_c.ArrayList.State.{Item, ArrayList, slots, items, handed}
use alib_c.ArrayList.Resize.{resize, expand}
use alib_c.ArrayList.Invariant.{IsValid, Roomy, count-le-capacity}
use alib_c.ArrayList.Adding.{add-Added, add-full}
use alib_c.ArrayList.Removing.{remove-erase, remove_no_free-erase, clear_lem, removed}
use alib_c.ArrayList.Resizing.{resize_lem, expand_lem}
use alib_c.ArrayList.Sift.{sift_lem}
use alib_c.ArrayList.Calls.Edges.{
  emptied, resize_list-zero, expand_at_max, add-none, remove-none, remove_no_free-none,
  shrink-resize, extract-parts,
}
use alib_c.ArrayList.Calls.{
  Call, add_item, remove_item, remove_item_no_free, clear_all, resize_to, shrink_it, expand_it,
  sift_it, extract_it, cap_at, Reply, flag, freed, size, code, slots_of, Outcome, from_resize,
  apply, call, calls,
}

-- The call resizes to no more than the maximum, and does not set the maximum.
abbrev pub Respects : ℕ → Call → Type 0
Respects max (resize_to n) = n ≤ max
Respects max (cap_at n) = ⊥
Respects max c = Unit {0}

abbrev pub AllRespect : ℕ → List Call → Type 0
AllRespect max [] = Unit {0}
AllRespect max (c ∷ cs) = Respects max c × AllRespect max cs

-- The call goes through and leaves a valid list with the same maximum.
pub record Goes (l : ArrayList) (m : Outcome) : Type 0 where
  pub after : ArrayList
  pub reply : Reply
  pub runs : m ≡ ok (some after, reply)
  pub valid : IsValid after
  pub max_cap : after.max_cap ≡ l.max_cap
  pub locked : after.locked ≡ l.locked

module _ {room : ℕ → Bool} (roomy : Roomy room) where
  pub resize-Goes :
      (l : ArrayList) (n : ℕ) → IsValid l → n ≤ l.max_cap → Goes l (from_resize (resize room l n))
  unfolding from_resize resize
  resize-Goes l n v h = elim (le_cases n 0) [
    | inl none_wanted ↦
        let zero_wanted : n ≡ 0 = omega arith in
        rw zero_wanted (elim (Bool-cases (0 == l.capacity)) [
          | inl same ↦ record {
            after = l;
            reply = size 0 [];
            runs = rw same;
            valid = v;
            max_cap = refl;
            locked = refl;
          }
          | inr other ↦ record {
            after = record l { list = none; count = 0; capacity = 0 };
            reply = size 0 [];
            runs = rw (other, resize_list-zero room l l.list refl v other);
            valid = emptied v;
            max_cap = refl;
            locked = refl;
          }
        ])
    | inr wanted ↦
        let (l', runs, fits) = resize_lem roomy n v wanted h in
        record {
          after = l';
          reply = size n (handed l.frees (drop n (items (slots l))));
          runs = ap from_resize runs;
          valid = fits.valid;
          max_cap = fits.max_cap;
          locked = fits.locked;
        }
  ]

  add-Goes : (l : ArrayList) (p : Item) → IsValid l → Goes l (apply room l (add_item (some p)))
  unfolding apply
  add-Goes l p v = elim (le_cases l.max_cap l.count) [
    | inl full ↦
        let at_max : l.count ≡ l.max_cap = omega (arith, count-le-capacity v, v.capped) in
        record {
          after = l;
          reply = flag false;
          runs = rw (add-full room p v at_max);
          valid = v;
          max_cap = refl;
          locked = refl;
        }
    | inr below ↦
        let (l', runs, a) = add-Added room p roomy v below in
        record {
          after = l';
          reply = flag true;
          runs = rw runs;
          valid = a.valid;
          max_cap = a.max_cap;
          locked = a.locked;
        }
  ]

  expand-Goes : (l : ArrayList) → IsValid l → Goes l (from_resize (expand room l))
  unfolding from_resize
  expand-Goes l v = elim (le_cases l.max_cap l.capacity) [
    | inl at_max ↦ record {
      after = l;
      reply = size l.capacity [];
      runs = rw (expand_at_max room l v at_max);
      valid = v;
      max_cap = refl;
      locked = refl;
    }
    | inr below ↦
        let (l', runs, fits, same) = expand_lem roomy v below in
        record {
          after = l';
          reply = size (if l.capacity == 0 then 1 else min (l.capacity * 2) l.max_cap) [];
          runs = ap from_resize runs;
          valid = fits.valid;
          max_cap = fits.max_cap;
          locked = fits.locked;
        }
  ]

  pub apply-Goes :
      (l : ArrayList) (c : Call) → IsValid l → Respects l.max_cap c → Goes l (apply room l c)
  unfolding apply from_resize
  apply-Goes l (add_item none) v h = record {
    after = l;
    reply = flag false;
    runs = rw (add-none room l);
    valid = v;
    max_cap = refl;
    locked = refl;
  }
  apply-Goes l (add_item (some p)) v h = add-Goes l p v
  apply-Goes l (remove_item none) v h = record {
    after = l;
    reply = freed [];
    runs = rw (remove-none l);
    valid = v;
    max_cap = refl;
    locked = refl;
  }
  apply-Goes l (remove_item (some p)) v h =
      let (l', runs, k, left) = remove-erase p v in
      record {
        after = l';
        reply = freed (removed l p);
        runs = rw runs;
        valid = k.valid;
        max_cap = k.max_cap;
        locked = k.locked;
      }
  apply-Goes l (remove_item_no_free none) v h = record {
    after = l;
    reply = freed [];
    runs = rw (remove_no_free-none l);
    valid = v;
    max_cap = refl;
    locked = refl;
  }
  apply-Goes l (remove_item_no_free (some p)) v h =
      let (l', runs, k, left) = remove_no_free-erase p v in
      record {
        after = l';
        reply = freed [];
        runs = rw runs;
        valid = k.valid;
        max_cap = k.max_cap;
        locked = k.locked;
      }
  apply-Goes l clear_all v h =
      let (l', runs, k, left) = clear_lem v in
      record {
        after = l';
        reply = freed (handed l.frees (items (slots l)));
        runs = rw runs;
        valid = k.valid;
        max_cap = k.max_cap;
        locked = k.locked;
      }
  apply-Goes l (resize_to n) v h = resize-Goes l n v h
  apply-Goes l shrink_it v h =
      subst (Goes l) (ap from_resize (shrink-resize room l))
        (resize-Goes l l.count v (omega (arith, count-le-capacity v, v.capped)))
  apply-Goes l expand_it v h = expand-Goes l v
  apply-Goes l sift_it v h =
      let (l', ps, runs, v', front, perm, same, same', max, lock) = sift_lem v in
      record {
        after = l';
        reply = code alib_ok;
        runs = rw runs;
        valid = v';
        max_cap = max;
        locked = lock;
      }
  apply-Goes l extract_it v h = record {
    after = record l { capacity = 0; count = 0; list = none };
    reply = slots_of l.list;
    runs = ap (λ q. ok (some q.1, slots_of q.0)) (extract-parts l);
    valid = emptied v;
    max_cap = refl;
    locked = refl;
  }
  apply-Goes l (cap_at n) v h = absurd h

  -- If allocation succeeds, any sequence of calls that resizes to no more than the maximum and does not
  -- set the maximum runs without a fault on a valid list, and leaves a valid list.
  pub calls-IsValid :
      (cs : List Call) {l : ArrayList}
      → IsValid l
      → AllRespect l.max_cap cs
      → (l' : ArrayList) × (replies : List Reply) × (calls room (some l) cs ≡ ok (some l', replies))
        × IsValid l'
  unfolding calls call
  calls-IsValid [] {l} v h = (l, [], refl, v)
  calls-IsValid (c ∷ cs) {l} v h =
      let g = apply-Goes l c v h.0 in
      let (l', replies, runs, v') =
        calls-IsValid cs g.valid (subst (λ m. AllRespect m cs) (sym g.max_cap) h.1) in
      (l', g.reply ∷ replies, rw (g.runs, runs), v')
