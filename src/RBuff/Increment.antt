-- ===== src/RBuff/Increment.antt =====
-- RBuff_increment_it(): the caller has put bytes behind the end iterator itself.
use alib_c.Common.{
  ℕ, ◌+◌, ◌≤◌, ◌<◌, ◌≡◌, refl, sym, ◌∙◌, true, false, some, arith, ltb, ◌==◌, take, add_size,
}
use mathlib.Core.Option.{some-injective}
use mathlib.Core.Path.{subst}
use alib_c.RBuff.{RBuff, step_it, increment_it}
use alib_c.RBuff.Invariant.{IsValid, step_it_begin, step_it_end}
use alib_c.RBuff.Contents.{contents, take-window}

-- The new state in its two forms.
abbrev pub grown : RBuff → ℕ → RBuff
grown r n = record r { count = r.count + n; it_end = step_it r r.it_end n }

abbrev pub overrun : RBuff → ℕ → RBuff
overrun r n = record r {
  it_begin = step_it r r.it_begin n;
  count = r.buff_end;
  it_end = step_it r r.it_end n;
}

increment_it-grown :
    {r : RBuff} (n : ℕ)
    → IsValid r
    → 0 < n
    → r.count + n ≤ r.buff_end
    → increment_it (some r) n ≡ some (grown r n)
unfolding increment_it
increment_it-grown {r} n v h fits =
    let more : (n == 0) ≡ false = ground arith in
    let sum : add_size r.count n ≡ r.count + n = omega arith in
    let below : ltb r.buff_end (r.count + n) ≡ false = ground arith in rw (more, sum, below)

increment_it-overrun :
    {r : RBuff} (n : ℕ)
    → IsValid r
    → n ≤ r.buff_end
    → r.buff_end < r.count + n
    → increment_it (some r) n ≡ some (overrun r n)
unfolding increment_it
increment_it-overrun {r} n v h over =
    let more : (n == 0) ≡ false = ground arith in
    let sum : add_size r.count n ≡ r.count + n = omega arith in
    let above : ltb r.buff_end (r.count + n) ≡ true = ground arith in rw (more, sum, above)

-- Where a valid buffer has room for `n` more bytes, `n` not 0, RBuff_increment_it() keeps it valid,
-- the count grows by `n`, and the bytes held stay in front.
pub increment_it_room :
    {r : RBuff} (n : ℕ)
    → IsValid r
    → 0 < n
    → r.count + n ≤ r.buff_end
    → (r' : RBuff) × (increment_it (some r) n ≡ some r')
      × IsValid r'
      × (r'.count ≡ r.count + n)
      × (take r.count (contents r') ≡ contents r)
increment_it_room {r} n v h fits =
    let moved = step_it_end n v (omega arith) in
    (
      grown r n,
      increment_it-grown n v h fits,
      omega (arith, moved),
      refl,
      take-window r.mem r.it_begin r.count (r.count + n) (omega arith),
    )

-- On a full buffer RBuff_increment_it() by at most the size keeps it full and valid.
pub increment_it_full :
    {r : RBuff} (n : ℕ)
    → IsValid r
    → 0 < n
    → n ≤ r.buff_end
    → r.count ≡ r.buff_end
    → (r' : RBuff) × (increment_it (some r) n ≡ some r') × IsValid r' × (r'.count ≡ r.buff_end)
increment_it_full {r} n v h k full =
    let begun = step_it_begin n v k in
    let ended = step_it_end n v k in
    (overrun r n, increment_it-overrun n v k (omega arith), omega (arith, begun, ended), refl)

-- On a valid buffer that is neither empty nor full, RBuff_increment_it() by more than there is room
-- for, and at most the size, leaves a state that is not valid: the iterators no longer agree with
-- the count.
pub increment_it-not-IsValid :
    {r r' : RBuff} (n : ℕ)
    → IsValid r
    → 0 < r.count
    → r.count < r.buff_end
    → n ≤ r.buff_end
    → r.buff_end < r.count + n
    → increment_it (some r) n ≡ some r'
    → ¬ IsValid r'
increment_it-not-IsValid {r} {r'} n v h k small over e v' =
    let same : overrun r n ≡ r' =
      some-injective _ _ (sym (increment_it-overrun n v small over) ∙ e) in
    let bad : IsValid (overrun r n) = subst IsValid (sym same) v' in
    let begun = step_it_begin n v small in
    let ended = step_it_end n v small in let meets = bad.meets in omega (arith, begun, ended, meets)
