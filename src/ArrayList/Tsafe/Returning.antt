-- ===== src/ArrayList/Tsafe/Returning.antt =====
-- The *_tsafe() functions of source/ArrayList.c and the mutex.
use alib_c.Common.{
  ℕ, ◌≡◌, refl, ◌∙◌, inl, inr, Bool, true, false, Option, none, some, List, [], ◌∷◌, get_elem?,
  alib_bad_arg, alib_ok, Bool-cases,
}
use alib_c.Common.Run.{Run, ok, ◌>>=◌}
use alib_c.ArrayList.State.{Item, Slot, ArrayList, slots, items, handed}
use alib_c.ArrayList.Edit.{remove_by_ptr, remove_by_ptr_no_free}
use alib_c.ArrayList.Query.{get_first_item, find_item_by_value, get_by_index, get_item_index}
use alib_c.ArrayList.Invariant.{IsValid, Roomy}
use alib_c.ArrayList.Removing.{remove_by_ptr-Kept}
use alib_c.ArrayList.Lookups.{
  find, index_of, get_first_item_lem, find_item_by_value_lem, get_by_index_lem, get_item_index_lem,
}
use alib_c.ArrayList.Calls.Sound.{Respects}
use alib_c.ArrayList.Guarded.{plain, call_tsafe-Released, set_locked-IsValid}
use alib_c.ArrayList.Sort.{Sorts, sort_with-Front}
use alib_c.ArrayList.Locked.{with_mutex-locked, with_mutex-plain}
use alib_c.ArrayList.Access.{
  with_mutex, reading, sort_with, sort_tsafe, swapped, get_first_item_tsafe,
  find_item_by_value_tsafe, get_by_index_tsafe, get_item_index_tsafe, remove_by_ptr_tsafe,
  remove_by_ptr_no_free_tsafe,
}
use alib_c.ArrayList.Tsafe.{
  Tsafe, changing, remove_ptr, remove_ptr_no_free, sort_by, find_by, first_item, at_index,
  index_of_item, Answer, reply, given, code, item, answered, answered_by, run_tsafe,
}

-- The call resizes to no more than the maximum, points to a slot that holds an item, and sorts with a
-- qsort() that only puts items into another order.
abbrev pub Proper : ArrayList → Tsafe → Type 0
Proper l (changing g) = Respects l.max_cap (plain g)
Proper l (remove_ptr (some i)) = (p : Item) × (get_elem? (slots l) i ≡ some (some p))
Proper l (remove_ptr_no_free (some i)) = (p : Item) × (get_elem? (slots l) i ≡ some (some p))
Proper l (sort_by (some qsort)) = Sorts qsort (λ ps. Unit {0})
Proper l t = Unit {0}

-- The call goes through and leaves the mutex free.
pub record Returned (l : ArrayList) (m : Run (Option ArrayList × Answer)) : Type 0 where
  pub after : ArrayList
  pub answer : Answer
  pub runs : m ≡ ok (some after, answer)
  pub valid : IsValid after
  pub max_cap : after.max_cap ≡ l.max_cap
  pub free : after.locked ≡ false

-- A plain call goes through and leaves the mutex as it was.
record WentOn {ℓ} {A : Type ℓ} (l : ArrayList) (m : Run (ArrayList × A)) : Type ℓ where
  after : ArrayList
  answer : A
  runs : m ≡ ok (after, answer)
  valid : IsValid after
  max_cap : after.max_cap ≡ l.max_cap
  locked : after.locked ≡ l.locked

with_mutex-Returned {ℓ} :
    {A : Type ℓ} (f : A → Answer) (l : ArrayList) (op : ArrayList → Run (ArrayList × A))
    → l.locked ≡ false
    → ((b : Bool) → WentOn (record l { locked = b }) (op (record l { locked = b })))
    → Returned l (answered f (with_mutex l op))
unfolding answered
with_mutex-Returned f l op free went = elim (Bool-cases l.use_mutex) [
  | inl mutex ↦
      let w = went true in
      record {
        after = record w.after { locked = false };
        answer = f w.answer;
        runs = rw (with_mutex-locked l op mutex free w.runs) refl;
        valid = set_locked-IsValid false w.valid;
        max_cap = w.max_cap;
        free = refl;
      }
  | inr no_mutex ↦
      let w = went l.locked in
      record {
        after = w.after;
        answer = f w.answer;
        runs = rw (with_mutex-plain l op no_mutex, w.runs) refl;
        valid = w.valid;
        max_cap = w.max_cap;
        free = w.locked ∙ free;
      }
]

module _ (l : ArrayList) (free : l.locked ≡ false) (v : IsValid l) where
  left_alone : (a : Answer) → Returned l (ok (some l, a))
  left_alone a = record {
    after = l;
    answer = a;
    runs = refl;
    valid = v;
    max_cap = refl;
    free = free;
  }

  reading-Returned {ℓ} :
      {A : Type ℓ} (f : A → Answer) (op : ArrayList → Run A)
      → ((l₁ : ArrayList) → IsValid l₁ → (a : A) × (op l₁ ≡ ok a))
      → Returned l (answered f (with_mutex l (reading op)))
  unfolding reading
  reading-Returned f op gives = with_mutex-Returned f l (reading op) free (λ b.
      let v' = set_locked-IsValid b v in
      let (a, e) = gives (record l { locked = b }) v' in
      record {
        after = record l { locked = b };
        answer = a;
        runs = rw e refl;
        valid = v';
        max_cap = refl;
        locked = refl;
      })

  module _ (i : ℕ) {p : Item} (held : get_elem? (slots l) i ≡ some (some p)) where
    remove_by_ptr-Returned : Returned l (answered given (remove_by_ptr_tsafe l (some i)))
    unfolding remove_by_ptr_tsafe
    remove_by_ptr-Returned =
        with_mutex-Returned given l (λ l₁. remove_by_ptr l₁ (some i)) free
          (λ b.
            let (l', runs, _, k) =
              remove_by_ptr-Kept {l = record l { locked = b }} i (set_locked-IsValid b v) held in
            record {
              after = l';
              answer = handed l.frees (p ∷ []);
              runs = runs;
              valid = k.valid;
              max_cap = k.max_cap;
              locked = k.locked;
            })

    remove_by_ptr_no_free-Returned :
        Returned l (answered given (remove_by_ptr_no_free_tsafe l (some i)))
    unfolding remove_by_ptr_no_free_tsafe
    remove_by_ptr_no_free-Returned =
        with_mutex-Returned given l (λ l₁. do l' ← remove_by_ptr_no_free l₁ (some i); ok (l', []))
          free
          (λ b.
            let (l', _, runs, k) =
              remove_by_ptr-Kept {l = record l { locked = b }} i (set_locked-IsValid b v) held in
            record {
              after = l';
              answer = [];
              runs = rw runs refl;
              valid = k.valid;
              max_cap = k.max_cap;
              locked = k.locked;
            })

  sort-Returned :
      (qsort : List Slot → List Slot)
      → Sorts qsort (λ ps. Unit {0})
      → Returned l (answered code (sort_tsafe qsort l))
  unfolding sort_tsafe swapped
  sort-Returned qsort sorts =
      with_mutex-Returned code l (λ l₁. swapped (sort_with qsort l₁)) free
        (λ b.
          let (l', _, runs, v', _, _, _, _, max, lock) =
            sort_with-Front {l = record l { locked = b }} sorts (set_locked-IsValid b v) in
          record {
            after = l';
            answer = alib_ok;
            runs = rw runs refl;
            valid = v';
            max_cap = max;
            locked = lock;
          })

  find-Returned :
      (matches : Option (Item → Bool))
      → Returned l (answered item (find_item_by_value_tsafe l matches))
  unfolding find_item_by_value_tsafe find_item_by_value
  find-Returned none =
      reading-Returned item (λ l₁. find_item_by_value l₁ none) (λ l₁ v₁. (none, refl))
  find-Returned (some matches) =
      reading-Returned item (λ l₁. find_item_by_value l₁ (some matches))
        (λ l₁ v₁. (find matches (items (slots l₁)), find_item_by_value_lem matches v₁))

  index-Returned : (p : Option Item) → Returned l (answered code (get_item_index_tsafe l p))
  unfolding get_item_index_tsafe get_item_index
  index-Returned none =
      reading-Returned code (λ l₁. get_item_index l₁ none) (λ l₁ v₁. (alib_bad_arg, refl))
  index-Returned (some p) =
      reading-Returned code (λ l₁. get_item_index l₁ (some p))
        (λ l₁ v₁. (index_of p 0 (items (slots l₁)), get_item_index_lem p v₁))

-- If allocation succeeds, each of the fifteen *_tsafe() functions on a valid list whose mutex is free goes
-- through, whether or not the list uses its mutex, and leaves a valid list whose mutex is free again. The
-- call resizes to no more than the maximum; a pointer into the array points to a slot that holds an item;
-- and qsort() only puts the items into another order.
pub run_tsafe-Returned :
    {room : ℕ → Bool}
    → Roomy room
    → (l : ArrayList) (t : Tsafe) → l.locked ≡ false
    → IsValid l
    → Proper l t
    → Returned l (run_tsafe room (some l) t)
unfolding run_tsafe answered answered_by remove_by_ptr_tsafe remove_by_ptr_no_free_tsafe
    get_first_item_tsafe get_by_index_tsafe
run_tsafe-Returned roomy l (changing g) free v h =
    let r = call_tsafe-Released roomy l g free v h in
    record {
      after = r.after;
      answer = reply r.reply;
      runs = rw r.runs refl;
      valid = r.valid;
      max_cap = r.max_cap;
      free = r.free;
    }
run_tsafe-Returned roomy l (remove_ptr none) free v h = left_alone l free v (given [])
run_tsafe-Returned roomy l (remove_ptr (some i)) free v (p, held) =
    remove_by_ptr-Returned l free v i held
run_tsafe-Returned roomy l (remove_ptr_no_free none) free v h = left_alone l free v (given [])
run_tsafe-Returned roomy l (remove_ptr_no_free (some i)) free v (p, held) =
    remove_by_ptr_no_free-Returned l free v i held
run_tsafe-Returned roomy l (sort_by none) free v h =
    reading-Returned l free v code (λ l₁. ok alib_bad_arg) (λ l₁ v₁. (alib_bad_arg, refl))
run_tsafe-Returned roomy l (sort_by (some qsort)) free v h = sort-Returned l free v qsort h
run_tsafe-Returned roomy l (find_by matches) free v h = find-Returned l free v matches
run_tsafe-Returned roomy l first_item free v h =
    reading-Returned l free v item get_first_item
      (λ l₁ v₁. (get_elem? (items (slots l₁)) 0, get_first_item_lem v₁))
run_tsafe-Returned roomy l (at_index n) free v h =
    reading-Returned l free v item (λ l₁. get_by_index l₁ n)
      (λ l₁ v₁. (get_elem? (items (slots l₁)) n, get_by_index_lem n v₁))
run_tsafe-Returned roomy l (index_of_item p) free v h = index-Returned l free v p
