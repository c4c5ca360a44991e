-- ===== src/RBuff/Room.antt =====
-- The middle of RBuff_pushback(), where room is made for the bytes.
use alib_c.Common.{
  ℕ, ◌+◌, ◌-◌, ◌≤◌, ◌<◌, min, ◌≡◌, sym, ap, ◌∙◌, inl, inr, true, false, some, List, ◌++◌, arith,
  length, take, drop, ltb, Bool-cases, le_cases, sub_size, add_size, ltb→lt, ltb→le, drop-append_le,
  drop-append_ge, drop-take, drop_of_length-le,
}
use alib_c.Common.Run.{ok}
use alib_c.RBuff.{RBuff, rbuff_no_overwrite, raised, popoff, push_chunks, push_fit}
use alib_c.RBuff.Invariant.{IsValid}
use alib_c.RBuff.Contents.{contents, length-window}
use alib_c.RBuff.Copy.{popoff_lem}
use alib_c.RBuff.Push.{slice, push_chunks-ok}

pub length-contents : {r : RBuff} → IsValid r → length (contents r) ≡ r.count
length-contents {r} v = length-window r.mem r.it_begin r.count (omega arith) (omega arith)

-- What is left of the bytes held, and the bytes pushed, is the end of the whole stream.
pub stream_end :
    (held src : List ℕ) (n size : ℕ)
    → n ≤ length src
    → length held ≤ size
    → drop (length held + min n size - size) held ++ slice src (n - size) (min n size)
      ≡ drop (length held + n - size) (held ++ take n src)
stream_end held src n size h k = elim (le_cases n size) [
  | inl few ↦
      let whole : min n size ≡ n = omega arith in
      let front : n - size ≡ 0 = omega arith in
      rw (whole, front)
        (sym (drop-append_le (length held + n - size) held (take n src) (omega arith)))
  | inr many ↦
      let whole : min n size ≡ size = omega arith in
      rw (
        whole,
        drop_of_length-le (length held + size - size) held (omega arith),
        drop-append_ge (length held + n - size) (n - size) held (take n src) (omega arith),
        drop-take (n - size) n size src (omega arith),
      )
]

-- The state after a push that overwrites the oldest bytes.
pub record Overwritten (r : RBuff) (stream : List ℕ) (n : ℕ) (r' : RBuff) : Type 0 where
  pub valid : IsValid r'
  pub holds : contents r' ≡ drop (r.count + n - r.buff_end) stream
  pub size : r'.buff_end ≡ r.buff_end
  pub flags : r'.flags ≡ r.flags

-- The three ways through the middle of RBuff_pushback().
module _ (r : RBuff) (src : List ℕ) (at m : ℕ) (sum : add_size m r.count ≡ m + r.count) where
  pub push_fit_room :
      (r' : RBuff)
      → ltb r.buff_end (m + r.count) ≡ false
      → push_chunks r src at m ≡ ok (m, r')
      → push_fit r src at m ≡ ok (m, r')
  unfolding push_fit
  push_fit_room r' fits pushed = rw (sum, fits, pushed)

  pub push_fit_out :
      (r₁ r' : RBuff) (k total : ℕ) (bytes : List ℕ)
      → ltb r.buff_end (m + r.count) ≡ true
      → raised r.flags rbuff_no_overwrite ≡ false
      → sub_size (m + r.count) r.buff_end ≡ k
      → popoff (some r) false k ≡ ok (total, bytes, r₁)
      → push_chunks r₁ src at m ≡ ok (m, r')
      → push_fit r src at m ≡ ok (m, r')
  unfolding push_fit
  push_fit_out r₁ r' k total bytes over flag excess popped pushed =
      rw (sum, over, flag, excess, popped, pushed)

  pub push_fit_part :
      (r' : RBuff) (k : ℕ)
      → ltb r.buff_end (m + r.count) ≡ true
      → raised r.flags rbuff_no_overwrite ≡ true
      → sub_size r.buff_end r.count ≡ k
      → push_chunks r src at k ≡ ok (k, r')
      → push_fit r src at m ≡ ok (k, r')
  unfolding push_fit
  push_fit_part r' k over flag room pushed = rw (sum, over, flag, room, pushed)

pub push_fit_overwrite :
    {r : RBuff} (src : List ℕ) (n : ℕ)
    → IsValid r
    → raised r.flags rbuff_no_overwrite ≡ false
    → n ≤ length src
    → (r' : RBuff) × (push_fit r src (n - r.buff_end) (min n r.buff_end)
        ≡ ok (min n r.buff_end, r'))
      × Overwritten r (contents r ++ take n src) n r'
unfolding push_fit
push_fit_overwrite {r} src n v flag h =
    let size : ℕ = r.buff_end in
    let m : ℕ = min n size in
    let at : ℕ = n - size in
    let len = length-contents v in
    let bytes : List ℕ = slice src at m in
    let sum : add_size m r.count ≡ m + r.count = omega arith in
    let end : drop (r.count + m - size) (contents r) ++ bytes
        ≡ drop (r.count + n - size) (contents r ++ take n src) =
      rw len at (stream_end (contents r) src n size h (omega arith)) in
    elim (Bool-cases (ltb size (m + r.count))) [
      | inl over ↦
          let more : size < m + r.count = ltb→lt _ _ over in
          let k : ℕ = r.count + m - size in
          let excess : sub_size (m + r.count) size ≡ k = omega arith in
          let (r₁, popped, v₁, left₁, count₁, size₁, flags₁) = popoff_lem false k v in
          let (r₂, pushed, p) = push_chunks-ok src at m v₁ (omega arith) (omega arith) in
          (
            r₂,
            push_fit_out r src at m sum r₁ r₂ k _ _ over flag excess popped pushed,
            record {
              valid = p.valid;
              holds = p.holds ∙ ap (λ xs. xs ++ bytes) left₁ ∙ end;
              size = p.size ∙ size₁;
              flags = p.flags ∙ flags₁;
            },
          )
      | inr fits ↦
          let less : m + r.count ≤ size = ltb→le _ _ fits in
          let none_out : r.count + m - size ≡ 0 = omega arith in
          let (r₁, pushed, p) = push_chunks-ok src at m v (omega arith) (omega arith) in
          (
            r₁,
            push_fit_room r src at m sum r₁ fits pushed,
            record {
              valid = p.valid;
              holds = p.holds ∙ ap (λ k. drop k (contents r) ++ bytes) (sym none_out) ∙ end;
              size = p.size;
              flags = p.flags;
            },
          )
    ]
