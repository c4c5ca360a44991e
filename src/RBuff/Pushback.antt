-- ===== src/RBuff/Pushback.antt =====
-- RBuff_pushback() and RBuff_pushback_byte() as a whole, with and without rbuffNoOverwrite.
use alib_c.Common.{
  ℕ, zero, suc, ◌+◌, ◌-◌, ◌≤◌, ◌<◌, min, ◌≡◌, refl, sym, ap, ◌∙◌, inl, inr, true, false, some, List,
  [], ◌∷◌, ◌++◌, append-nil, arith, length, take, drop, ltb, ◌==◌, Bool-cases, if◌then◌else◌,
  sub_size, add_size, ltb→lt, ltb→le,
}
use mathlib.Core.Path.{subst}
use alib_c.Common.Run.{ok}
use alib_c.RBuff.{RBuff, rbuff_no_overwrite, raised, push_fit, pushback, pushback_byte}
use alib_c.RBuff.Invariant.{IsValid}
use alib_c.RBuff.Contents.{contents}
use alib_c.RBuff.Room.{Overwritten, push_fit_room, push_fit_part, push_fit_overwrite}
use alib_c.RBuff.Push.{slice, Pushed, push_chunks-ok}

-- The two conditionals of RBuff_pushback() on a count above the size.
clamped : (n size : ℕ) → (if ltb size n then size else n) ≡ min n size
clamped n size = elim (Bool-cases (ltb size n)) [
  | inl e ↦ rw e (omega (arith, ltb→lt size n e))
  | inr e ↦ rw e (omega (arith, ltb→le size n e))
]

skipped : (n size : ℕ) → (if ltb size n then n - size else 0) ≡ n - size
skipped n size = elim (Bool-cases (ltb size n)) [
  | inl e ↦ rw e
  | inr e ↦ rw e (omega (arith, ltb→le size n e))
]

-- On a valid buffer without rbuffNoOverwrite, RBuff_pushback() of `n` bytes, from a source of at
-- least as many, does not fault: afterwards the buffer holds the end of the stream made of the bytes
-- held and the bytes given, as much of it as fits, in order; it is valid, with the same size and
-- flags, and the call returns the number of bytes copied, `n` or the size.
pub pushback_overwrite :
    {r : RBuff} (src : List ℕ) (n : ℕ)
    → IsValid r
    → raised r.flags rbuff_no_overwrite ≡ false
    → n ≤ length src
    → (r' : RBuff) × (pushback (some r) (some src) n ≡ ok (min n r.buff_end, some r'))
      × Overwritten r (contents r ++ take n src) n r'
unfolding pushback
pushback_overwrite {r} src zero v flag h =
    let none_pushed : min 0 r.buff_end ≡ 0 = omega arith in
    let none_out : r.count + 0 - r.buff_end ≡ 0 = omega arith in
    (
      r,
      rw none_pushed,
      record {
        valid = v;
        holds = rw (none_out, append-nil (contents r));
        size = refl;
        flags = refl;
      },
    )
pushback_overwrite {r} src (suc n) v flag h =
    let more : (suc n == 0) ≡ false = ground arith in
    let (r', pushed, p) = push_fit_overwrite src (suc n) v flag h in
    (r', rw (more, clamped (suc n) r.buff_end, skipped (suc n) r.buff_end, pushed), p)

push_fit_keep :
    {r : RBuff} (src : List ℕ) (n : ℕ)
    → IsValid r
    → raised r.flags rbuff_no_overwrite ≡ true
    → n ≤ length src
    → let k : ℕ = min (min n r.buff_end) (r.buff_end - r.count) in
      (r' : RBuff) × (push_fit r src (n - r.buff_end) (min n r.buff_end) ≡ ok (k, r'))
      × Pushed r (slice src (n - r.buff_end) k) r'
push_fit_keep {r} src n v flag h =
    let size : ℕ = r.buff_end in
    let m : ℕ = min n size in
    let at : ℕ = n - size in
    let sum : add_size m r.count ≡ m + r.count = omega arith in
    elim (Bool-cases (ltb size (m + r.count))) [
      | inl over ↦
          let more : size < m + r.count = ltb→lt _ _ over in
          let room : sub_size size r.count ≡ size - r.count = omega arith in
          let part : size - r.count ≡ min m (size - r.count) = omega arith in
          let (r₁, pushed, p) =
            push_chunks-ok src at (size - r.count) v (omega arith) (omega arith) in
          (
            r₁,
            push_fit_part r src at m sum r₁ (size - r.count) over flag room pushed
                ∙ ap (λ k. ok (k, r₁)) part,
            subst (λ k. Pushed r (slice src at k) r₁) part p,
          )
      | inr fits ↦
          let less : m + r.count ≤ size = ltb→le _ _ fits in
          let all : m ≡ min m (size - r.count) = omega arith in
          let (r₁, pushed, p) = push_chunks-ok src at m v (omega arith) (omega arith) in
          (
            r₁,
            push_fit_room r src at m sum r₁ fits pushed ∙ ap (λ k. ok (k, r₁)) all,
            subst (λ k. Pushed r (slice src at k) r₁) all p,
          )
    ]

-- On a valid buffer with rbuffNoOverwrite, RBuff_pushback() of `n` bytes, from a source of at least
-- as many, keeps every byte held, appends as many bytes as there is room for, returns how many, and
-- leaves the buffer valid. It skips the first `n - size` bytes given when there are more than the
-- size.
pub pushback_keep :
    {r : RBuff} (src : List ℕ) (n : ℕ)
    → IsValid r
    → raised r.flags rbuff_no_overwrite ≡ true
    → n ≤ length src
    → let k : ℕ = min (min n r.buff_end) (r.buff_end - r.count) in
      (r' : RBuff) × (pushback (some r) (some src) n ≡ ok (k, some r'))
      × Pushed r (slice src (n - r.buff_end) k) r'
unfolding pushback
pushback_keep {r} src zero v flag h =
    let none_pushed : min (min 0 r.buff_end) (r.buff_end - r.count) ≡ 0 = omega arith in
    (
      r,
      rw none_pushed,
      rw none_pushed (record {
        valid = v;
        holds = sym (append-nil (contents r));
        counted = omega arith;
        size = refl;
        flags = refl;
      }),
    )
pushback_keep {r} src (suc n) v flag h =
    let more : (suc n == 0) ≡ false = ground arith in
    let (r', pushed, p) = push_fit_keep src (suc n) v flag h in
    (r', rw (more, clamped (suc n) r.buff_end, skipped (suc n) r.buff_end, pushed), p)

-- RBuff_pushback_byte() on a valid buffer with room appends the byte whatever the flags are, and
-- leaves the buffer valid. It returns 1, the number of bytes, as its alib_error.
pub pushback_byte_room :
    {r : RBuff} (byte : ℕ)
    → IsValid r
    → r.count < r.buff_end
    → (r' : RBuff) × (pushback_byte (some r) byte ≡ ok (1, some r'))
      × IsValid r'
      × (contents r' ≡ contents r ++ byte ∷ [])
unfolding pushback_byte
pushback_byte_room {r} byte v h = elim (Bool-cases (raised r.flags rbuff_no_overwrite)) [
  | inl keep ↦
      let (r', pushed, p) = pushback_keep (byte ∷ []) 1 v keep (omega arith) in
      let k : min (min 1 r.buff_end) (r.buff_end - r.count) ≡ 1 = omega arith in
      let first : 1 - r.buff_end ≡ 0 = omega arith in
      (
        r',
        pushed ∙ ap (λ n. ok (n, some r')) k,
        p.valid,
        p.holds
            ∙ ap (λ n. contents r ++ slice (byte ∷ []) (1 - r.buff_end) n) k
            ∙ ap (λ n. contents r ++ slice (byte ∷ []) n 1) first,
      )
  | inr free ↦
      let (r', pushed, p) = pushback_overwrite (byte ∷ []) 1 v free (omega arith) in
      let k : min 1 r.buff_end ≡ 1 = omega arith in
      let none_out : r.count + 1 - r.buff_end ≡ 0 = omega arith in
      (
        r',
        pushed ∙ ap (λ n. ok (n, some r')) k,
        p.valid,
        p.holds ∙ ap (λ n. drop n (contents r ++ byte ∷ [])) none_out,
      )
]
