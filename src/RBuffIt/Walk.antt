-- ===== src/RBuffIt/Walk.antt =====
-- Walking a buffer with RBuffIt_next().
use alib_c.Common.{
  ℕ, zero, suc, ◌+◌, ◌-◌, ◌≤◌, ◌<◌, ◌≡◌, refl, sym, ap, ◌∙◌, ◌⊎◌, inl, inr, true, false, Option,
  none, some, List, [], ◌∷◌, arith, leb, if◌then◌else◌, get_elem?, le_cases,
}
use alib_c.RBuff.{RBuff}
use alib_c.RBuff.Invariant.{IsValid}
use alib_c.RBuff.Contents.{window, contents, window-cons}
use alib_c.RBuffIt.{next_it, stop_at}

-- The client's loop `while(RBuffIt_next(it)) use(*it);`: the bytes that it sees. `none` means that the
-- fuel ran out or that a byte outside the buffer was read.
and_byte : Option ℕ → Option (List ℕ) → Option (List ℕ)
and_byte none rest = none
and_byte (some x) none = none
and_byte (some x) (some xs) = some (x ∷ xs)

and_here : RBuff → Option ℕ → Option (List ℕ) → Option (List ℕ)
and_here r none rest = none
and_here r (some p) rest = and_byte (get_elem? r.mem p) rest

pub visit : ℕ → RBuff → Option ℕ → Option (List ℕ)
visit zero r it = none
visit (suc fuel) r it =
    let rest = visit fuel r (next_it r it).1 in
    elim (next_it r it).0 [ false ↦ some [] | true ↦ and_here r (next_it r it).1 rest ]

module _ (r : RBuff) (it : Option ℕ) (fuel : ℕ) where
  visit-stop : {it' : Option ℕ} → next_it r it ≡ (false, it') → visit (suc fuel) r it ≡ some []
  unfolding visit
  visit-stop e = rw (e, visit)

  visit-go :
      {p x : ℕ} {xs : List ℕ}
      → next_it r it ≡ (true, some p)
      → get_elem? r.mem p ≡ some x
      → visit fuel r (some p) ≡ some xs
      → visit (suc fuel) r it ≡ some (x ∷ xs)
  unfolding visit and_here and_byte
  visit-go e here rest = rw (e, visit, e, here, rest)

-- `n` items from `p` on lead to the end iterator.
abbrev Leads : RBuff → ℕ → ℕ → Type 0
Leads r p n = (p < r.buff_end) × ((p + n ≡ r.it_end) ⊎ (p + n ≡ r.it_end + r.buff_end))

next_it-last :
    {r : RBuff} (p : ℕ)
    → IsValid r
    → r.it_end < r.buff_end
    → Leads r p 1
    → next_it r (some p) ≡ (false, none)
unfolding next_it stop_at
next_it-last {r} p v h l = ground arith

abbrev succ : RBuff → ℕ → ℕ
succ r p = if leb r.buff_end (p + 1) then 0 else p + 1

next_it-more :
    {r : RBuff} (p n : ℕ)
    → IsValid r
    → r.it_end < r.buff_end
    → n + 2 ≤ r.buff_end
    → Leads r p (n + 2)
    → (next_it r (some p) ≡ (true, some (succ r p))) × Leads r (succ r p) (n + 1)
unfolding next_it stop_at
next_it-more {r} p n v h k l = (ground arith, ground arith)

next_it-empty : (r : RBuff) → r.count ≡ 0 → next_it r none ≡ (false, none)
unfolding next_it
next_it-empty r e = ground arith

next_it-begin : (r : RBuff) → 0 < r.count → next_it r none ≡ (true, some r.it_begin)
unfolding next_it
next_it-begin r h = ground arith

next_it-turns :
    (r : RBuff) (p : ℕ)
    → r.it_end ≡ r.buff_end
    → p < r.buff_end
    → next_it r (some p) ≡ (true, some (succ r p))
unfolding next_it stop_at
next_it-turns r p h k = ground arith

succ-window :
    {r : RBuff} (p n : ℕ)
    → IsValid r
    → p < r.buff_end
    → n < r.buff_end
    → (x : ℕ) × (get_elem? r.mem p ≡ some x)
      × (window r.mem p (suc n) ≡ x ∷ window r.mem (succ r p) n)
succ-window {r} p n v h k =
    window-cons r.mem p (succ r p) n (omega arith) (ground arith) (omega arith) (ground arith)

visit-window :
    (n fuel : ℕ) {r : RBuff} (it : Option ℕ) (p : ℕ)
    → IsValid r
    → r.it_end < r.buff_end
    → next_it r it ≡ (true, some p)
    → n < r.buff_end
    → Leads r p (n + 1)
    → n + 1 < fuel
    → visit fuel r it ≡ some (window r.mem p (suc n))
visit-window n zero it p v h e k l f = absurd (omega arith)
visit-window zero (suc zero) it p v h e k l f = absurd (omega arith)
visit-window zero (suc (suc fuel)) {r} it p v h e k l f =
    let (x, here, w) = succ-window p 0 v l.0 k in
    visit-go r it (suc fuel) e here
      (visit-stop r (some p) fuel (next_it-last p v h (l.0, omega arith)))
    ∙ ap some (sym w)
visit-window (suc n) (suc fuel) {r} it p v h e k l f =
    let (go, l') = next_it-more p n v h (omega arith) (l.0, omega arith) in
    let (x, here, w) = succ-window p (suc n) v l.0 k in
    visit-go r it fuel e here
      (visit-window n fuel (some p) (succ r p) v h go (omega arith) l' (omega arith))
    ∙ ap some (sym w)

-- On a valid buffer whose end iterator stands in front of the end of the memory, a client that calls
-- RBuffIt_next() until it returns 0, from a reset iterator, sees exactly the bytes held, oldest
-- first, and stops.
pub visit-contents :
    {r : RBuff} → IsValid r → r.it_end < r.buff_end → visit (r.count + 2) r none ≡ some (contents r)
visit-contents {r} v h = elim (le_cases r.count 0) [
  | inl empty ↦
      let held : r.count ≡ 0 = omega arith in
      let fuel : r.count + 2 ≡ suc (suc r.count) = omega arith in
      rw fuel (
        visit-stop r none (suc r.count) (next_it-empty r held)
        ∙ ap (λ n. some (window r.mem r.it_begin n)) (sym held))
  | inr held ↦
      let n : ℕ = r.count - 1 in
      let all : suc n ≡ r.count = omega arith in
      visit-window n (r.count + 2) none r.it_begin v h (next_it-begin r held) (omega arith)
        (omega arith) (omega arith)
      ∙ ap (λ k. some (window r.mem r.it_begin k)) all
]

and_byte-none : (o : Option ℕ) → and_byte o none ≡ none
unfolding and_byte
and_byte-none none = refl
and_byte-none (some x) = refl

visit-turning :
    (fuel : ℕ) (r : RBuff) (it : Option ℕ) (p : ℕ)
    → r.it_end ≡ r.buff_end
    → p < r.buff_end
    → next_it r it ≡ (true, some p)
    → visit fuel r it ≡ none
unfolding visit and_here
visit-turning zero r it p h k e = refl
visit-turning (suc fuel) r it p h k e =
    rw
      (
        e,
        visit,
        e,
        visit-turning fuel r (some p) (succ r p) h (ground arith) (next_it-turns r p h k),
      )
      (and_byte-none (get_elem? r.mem p))

-- On a valid buffer that is not empty and whose end iterator stands at the end of the memory, which
-- is where RBuff_pushback() leaves it when the bytes end there, RBuffIt_next() from a reset iterator
-- on never returns 0, however often it is called.
pub visit_endless :
    {r : RBuff} (fuel : ℕ)
    → IsValid r
    → r.it_end ≡ r.buff_end
    → 0 < r.count
    → visit fuel r none ≡ none
visit_endless {r} fuel v h k = visit-turning fuel r none r.it_begin h v.begin_in (next_it-begin r k)
