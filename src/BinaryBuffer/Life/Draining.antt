-- ===== src/BinaryBuffer/Life/Draining.antt =====
-- What BinaryBuffer_copy_block() and BinaryBuffer_copy_and_drain() give.
use alib_c.Common.{
  ℕ, ◌+◌, ◌-◌, ◌^◌, ◌≤◌, ◌<◌, ◌≡◌, refl, sym, ap, ap₂, ◌∙◌, inl, inr, Bool-cases, Bool, true, false,
  some, List, [], ◌++◌, arith, length, length-take, take, drop, take-take, take-take-min, drop-take,
  take_of_length-le, ltb, leb, ltb→lt, ltb→le, if◌then◌else◌, alib_ok, min,
}
use alib_c.Common.Run.{ok, read-ok, ◌>>=◌}
use alib_c.BinaryBuffer.{BinaryBuffer, memory, append}
use alib_c.BinaryBuffer.Growth.{IsValid, contents}
use alib_c.BinaryBuffer.Edits.{append_lem, remove-end}
use alib_c.BinaryBuffer.Life.{copy_and_drain, copy_between, copy_block}

-- BinaryBuffer_copy_and_drain() of all the bytes of a buffer that is not empty, or all but one, gives the
-- first `count` of them, or all, and leaves none.
pub copy_and_drain_lem :
    (b : BinaryBuffer) (count : ℕ)
    → IsValid b
    → 0 < b.len
    → b.len ≤ count + 1
    → (b' : BinaryBuffer) × (copy_and_drain b count ≡ ok (take count (contents b), (alib_ok, b')))
      × IsValid b'
      × (contents b' ≡ [])
unfolding copy_and_drain
copy_and_drain_lem b count v p h =
    let (size, inside, h₁, h₂, h₃, h₄) = v in
    let n : ℕ = if ltb b.len count then b.len else count in
    let cut : n ≡ min count b.len = ground arith in
    let (run, v', _) =
      remove-end b 0 n v p (omega arith) (omega (arith, cut)) (omega (arith, cut, h)) in
    let out : take n (memory b.buff) ≡ take count (contents b) =
      ap (λ k. take k (memory b.buff)) cut ∙ sym (take-take-min count b.len (memory b.buff)) in
    let start : copy_and_drain b count
        ≡ ok (take n (memory b.buff), (alib_ok, record b { len = 0 })) =
      rw (read-ok (memory b.buff) 0 n (omega (arith, size, inside, cut)), run) refl in
    (
      record b { len = 0 },
      start ∙ ap (λ xs. ok (xs, (alib_ok, record b { len = 0 }))) out,
      v',
      refl,
    )

copy_between_lem :
    (b : BinaryBuffer) (begin end count : ℕ)
    → IsValid b
    → begin ≤ end
    → end < b.len
    → copy_between b begin end count
      ≡ ok (alib_ok, take (min (end - begin) count) (drop begin (contents b)))
unfolding copy_between
copy_between_lem b begin end count (size, inside, _, _, _, _) h k =
    let mem = memory b.buff in
    let n : ℕ = min (end - begin) count in
    let within : leb b.len end ≡ false = ground arith in
    let cut : (if ltb (end - begin) count then end - begin else count) ≡ n = ground arith in
    rw (within, cut, read-ok mem begin n (omega (arith, size, inside)))
      (ap (λ xs. ok (alib_ok, xs))
        (sym (
          ap (take n) (drop-take begin b.len (b.len - begin) mem (omega arith))
          ∙ take-take n (b.len - begin) (drop begin mem) (omega arith))))

-- BinaryBuffer_copy_block() with its bounds in either order gives the bytes between them, `count` of
-- them at most, where both lie in front of the end.
pub copy_block_lem :
    (b : BinaryBuffer) (begin end count : ℕ)
    → IsValid b
    → begin < b.len
    → end < b.len
    → copy_block b begin end count
      ≡ ok (
        alib_ok,
        take (min (begin - end + (end - begin)) count) (drop (min begin end) (contents b)),
      )
unfolding copy_block
copy_block_lem b begin end count v h k = elim (Bool-cases (ltb end begin)) [
  | inl swap ↦
      let less : end < begin = ltb→lt end begin swap in
      let gap : begin - end ≡ begin - end + (end - begin) = omega (arith, less) in
      let low : end ≡ min begin end = omega (arith, less) in
      rw swap (
        copy_between_lem b end begin count v (omega (arith, less)) h
        ∙ ap₂ (λ m i. ok (alib_ok, take (min m count) (drop i (contents b)))) gap low)
  | inr ordered ↦
      let above : begin ≤ end = ltb→le end begin ordered in
      let gap : end - begin ≡ begin - end + (end - begin) = omega (arith, above) in
      let low : begin ≡ min begin end = omega (arith, above) in
      rw ordered (
        copy_between_lem b begin end count v above k
        ∙ ap₂ (λ m i. ok (alib_ok, take (min m count) (drop i (contents b)))) gap low)
]

module _ (room : ℕ → Bool) (junk : ℕ) where
  -- What was appended to a buffer with no bytes in use is what BinaryBuffer_copy_and_drain() of as many
  -- bytes then gives, where it is not empty, its length is a size_t and memory can be allocated. Nothing
  -- stays in the buffer, which is valid.
  pub append-copy_and_drain :
      (b : BinaryBuffer) (src : List ℕ)
      → IsValid b
      → b.len ≡ 0
      → 0 < length src
      → length src < 2 ^ 64
      → ((k : ℕ) → room k ≡ true)
      → (b' : BinaryBuffer) × ((do
        r ← append room junk b (some src) (length src)
        copy_and_drain r.1 (length src))
          ≡ ok (src, (alib_ok, b')))
        × IsValid b'
        × (contents b' ≡ [])
  append-copy_and_drain b src v e h k memory' =
      let n = length src in
      let none' : contents b ≡ [] = ap (λ m. take m (memory b.buff)) e in
      elim (append_lem room junk b src v (omega (arith, e, k))) [
        | inr (m, full, _) ↦ let got : room m ≡ true = memory' m in cc
        | inl (b₁, run, v₁, bytes) ↦
            let bytes' : contents b₁ ≡ src = bytes ∙ ap (λ xs. xs ++ src) none' in
            let (size, inside, _, _, _, _) = v₁ in
            let long : b₁.len ≡ n =
              omega (arith, ap length bytes', length-take b₁.len (memory b₁.buff), size, inside) in
            let (b₂, run', v₂, bytes₂) =
              copy_and_drain_lem b₁ n v₁ (omega (arith, long, h)) (omega (arith, long)) in
            let all : take n (contents b₁) ≡ src =
              ap (take n) bytes' ∙ take_of_length-le n src (omega arith) in
            (
              b₂,
              ap (λ r. r >>= λ p. copy_and_drain p.1 n) run
                  ∙ run'
                  ∙ ap (λ xs. ok (xs, (alib_ok, b₂))) all,
              v₂,
              bytes₂,
            )
      ]
