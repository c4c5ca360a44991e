-- ===== src/BinaryBuffer/Edits.antt =====
-- What BinaryBuffer_append() and _remove() do to the bytes in use.
use alib_c.Common.{
  ℕ, ◌+◌, ◌-◌, ◌^◌, ◌≤◌, ◌<◌, ◌≡◌, refl, sym, ap, ap₂, ◌∙◌, inl, inr, ◌⊎◌, Bool, true, false, some,
  List, [], ◌++◌, append-nil, arith, length, length-take, length-drop, length-store, store, take,
  drop, take-take, drop-take, ltb, leb, le_cases, if◌then◌else◌, add_size, sub_size, alib_ok,
  alib_internal_max_reached,
}
use mathlib.Core.Path.{fun_ext}
use alib_c.Common.Run.{ok, fault, ◌>>=◌, read-ok}
use alib_c.AlibString.{apart, memcpy}
use alib_c.AlibString.Copies.{memcpy_lem, memcpy-fault}
use alib_c.BinaryBuffer.{
  BinaryBuffer, memory, ulong_max, put_bytes, ensure, append, remove_between, remove,
}
use alib_c.BinaryBuffer.Splice.{
  memory-rewritten, patched, patched-IsValid, put_bytes_lem, take-store_end, contents-patched,
}
use alib_c.BinaryBuffer.Growth.{IsValid, contents, lost, ensure_lem}

-- BinaryBuffer_remove() with its bounds in order drops the bytes from `begin` on when there is at most one
-- behind `end`.
pub remove-end :
    (b : BinaryBuffer) (begin end : ℕ)
    → IsValid b
    → 0 < b.len
    → begin ≤ end
    → end ≤ b.len
    → b.len ≤ end + 1
    → (remove b begin end ≡ ok (alib_ok, record b { len = begin }))
      × IsValid (record b { len = begin })
      × (take begin (memory b.buff) ≡ take begin (contents b))
unfolding remove remove_between
remove-end b begin end (size, inside, h₁, h₂, h₃, h₄) p h k last =
    let ordered : ltb end begin ≡ false = ground arith in
    let stop : leb (sub_size b.len 1) end ≡ true = ground arith in
    (
      rw (ordered, stop) refl,
      (size, omega (arith, inside, h, k), h₁, h₂, h₃, h₄),
      sym (take-take begin b.len (memory b.buff) (omega (arith, h, k))),
    )

-- With more bytes than one behind `end` it is a memcpy().
remove-memcpy :
    (b : BinaryBuffer) (begin end : ℕ)
    → IsValid b
    → begin ≤ end
    → end + 1 < b.len
    → remove b begin end ≡ (
        memcpy (memory b.buff) begin end (b.len - end) >>= λ mem.
        ok (alib_ok, patched b mem (begin + (b.len - end))))
unfolding remove remove_between
remove-memcpy b begin end (size, inside, h₁, h₂, h₃, h₄) h more =
    let ordered : ltb end begin ≡ false = ground arith in
    let go : leb (sub_size b.len 1) end ≡ false = ground arith in
    let count : sub_size b.len end ≡ b.len - end = omega (arith, inside, h₁, more) in
    let len' : sub_size b.len (sub_size end begin) ≡ begin + (b.len - end) =
      omega (arith, inside, h₁, h, more) in
    rw (ordered, go, count, len') refl

-- With more bytes than one behind `end`, and no more of them than there are bytes to remove, they move up.
remove-moves :
    (b : BinaryBuffer) (begin end : ℕ)
    → IsValid b
    → begin ≤ end
    → end + 1 < b.len
    → b.len - end ≤ end - begin
    → (b' : BinaryBuffer) × (remove b begin end ≡ ok (alib_ok, b'))
      × IsValid b'
      × (contents b' ≡ take begin (contents b) ++ drop end (contents b))
remove-moves b begin end v h more few =
    let (size, inside, h₁, h₂, h₃, h₄) = v in
    let mem = memory b.buff in
    let n : ℕ = b.len - end in
    let bytes = take n (drop end mem) in
    let free : apart begin end n ≡ true = ground arith in
    let many : length bytes ≡ n =
      omega (arith, length-take n (drop end mem), length-drop end mem, size, inside) in
    let kept : length (store mem begin bytes) ≡ length mem = length-store mem begin bytes in
    let front : take begin mem ≡ take begin (contents b) =
      sym (take-take begin b.len mem (omega (arith, h, more))) in
    let tail : bytes ≡ drop end (contents b) =
      sym (drop-take end b.len n mem (omega (arith, more))) in
    let copy =
      memcpy_lem mem begin end n (omega (arith, size, inside, more))
        (omega (arith, size, inside, h, more)) free in
    (
      patched b (store mem begin bytes) (begin + n),
      remove-memcpy b begin end v h more
          ∙ ap (λ r. r >>= λ mem'. ok (alib_ok, patched b mem' (begin + n))) copy,
      patched-IsValid b (store mem begin bytes) (begin + n) v kept (omega (arith, inside, h, more)),
      contents-patched b (store mem begin bytes) (begin + n) kept
          ∙ take-store_end mem bytes begin (begin + n) (omega (arith, many, size, inside, h, more))
              (omega (arith, many))
          ∙ ap₂ (◌++◌) front tail,
    )

-- BinaryBuffer_remove() with its bounds in order, inside a buffer that is not empty, whose bytes from `end`
-- on are one at most, or no more than are removed: those bytes move up, but a single one is dropped as
-- well, and the buffer stays valid. Otherwise it calls memcpy() on stretches that overlap, which is
-- undefined.
pub remove_lem :
    (b : BinaryBuffer) (begin end : ℕ)
    → IsValid b
    → 0 < b.len
    → begin ≤ end
    → end ≤ b.len
    → (((b.len ≤ end + 1) ⊎ (b.len - end ≤ end - begin))
        × ((b' : BinaryBuffer) × (remove b begin end ≡ ok (alib_ok, b'))
            × IsValid b'
            × (contents b'
                ≡ take begin (contents b)
                  ++ (if ltb (end + 1) b.len then drop end (contents b) else []))))
      ⊎ ((end + 1 < b.len) × (end - begin < b.len - end) × (remove b begin end ≡ fault))
remove_lem b begin end v p h k = elim (le_cases b.len (end + 1)) [
  | inl last ↦
      let few : ltb (end + 1) b.len ≡ false = ground arith in
      let (run, v', front) = remove-end b begin end v p h k last in
      inl (
        inl last,
        (
          record b { len = begin },
          run,
          v',
          rw few (front ∙ sym (append-nil (take begin (contents b)))),
        ),
      )
  | inr more ↦
      let many : ltb (end + 1) b.len ≡ true = ground arith in
      elim (le_cases (b.len - end) (end - begin)) [
        | inl fits ↦
            let (b', run, v', bytes) = remove-moves b begin end v h more fits in
            inl (inr fits, (b', run, v', rw many bytes))
        | inr over ↦
            let overlap : apart begin end (b.len - end) ≡ false = ground arith in
            inr (
              more,
              over,
              remove-memcpy b begin end v h more
                  ∙ ap (λ r. r >>= λ mem. ok (alib_ok, patched b mem (begin + (b.len - end))))
                      (memcpy-fault (memory b.buff) begin end (b.len - end) overlap),
            )
      ]
]

module _ (room : ℕ → Bool) (junk : ℕ) where
  -- BinaryBuffer_append() puts the data behind the bytes in use, and a valid buffer stays valid, where
  -- the new length is a size_t. If the memory that this needs cannot be allocated, it reports
  -- ALIB_MEM_ERR and leaves NULL in `buff`.
  pub append_lem :
      (b : BinaryBuffer) (src : List ℕ)
      → IsValid b
      → b.len + length src < 2 ^ 64
      → ((b' : BinaryBuffer) × (append room junk b (some src) (length src) ≡ ok (alib_ok, b'))
          × IsValid b'
          × (contents b' ≡ contents b ++ src))
        ⊎ ((k : ℕ) × (room k ≡ false) × (append room junk b (some src) (length src) ≡ ok (lost b)))
  unfolding append
  append_lem b src v h =
      let n = length src in
      let sum : add_size b.len n ≡ b.len + n = omega arith in
      let fits : ltb ulong_max (b.len + n) ≡ false = ground arith in
      elim (ensure_lem room junk b (b.len + n) (put_bytes src b.len n (b.len + n)) v (omega arith)
        h) [
          | inr (k, full, run) ↦ inr (k, full, rw (sum, fits) run)
          | inl (b₁, run, v₁, above, e, bytes) ↦
              let (size, inside, h₁, h₂, h₃, h₄) = v₁ in
              let mem = memory b₁.buff in
              let start : b.len ≡ b₁.len = sym e in
              let room' : b.len + n ≤ length mem = omega (arith, size, above) in
              let kept : length (store mem b.len src) ≡ length mem = length-store mem b.len src in
              inl (
                patched b₁ (store mem b.len src) (b.len + n),
                rw (sum, fits) (run ∙ put_bytes_lem b₁ src b.len (b.len + n) room'),
                patched-IsValid b₁ (store mem b.len src) (b.len + n) v₁ kept above,
                ap (take (b.len + n)) (memory-rewritten b₁.buff (store mem b.len src) kept)
                    ∙ take-store_end mem src b.len (b.len + n) room' refl
                    ∙ ap (λ k. take k mem ++ src) start
                    ∙ ap (λ front. front ++ src) bytes,
              )
        ]

put_bytes_part :
    (src : List ℕ) (n at new_len : ℕ)
    → n ≤ length src
    → (b : BinaryBuffer) → put_bytes src at n new_len b ≡ put_bytes (take n src) at n new_len b
unfolding put_bytes
put_bytes_part src n at new_len h b =
    let size : length (take n src) ≡ n = omega (arith, length-take n src) in
    let whole : take n (take n src) ≡ take n src = take-take n n src (omega arith) in
    rw (read-ok src 0 n (omega arith), read-ok (take n src) 0 n (omega (arith, size)), whole) refl

-- BinaryBuffer_append() of the first bytes of an array
pub append_part :
    (room : ℕ → Bool) (junk : ℕ) (b : BinaryBuffer) (src : List ℕ) (n : ℕ)
    → n ≤ length src
    → append room junk b (some src) n ≡ append room junk b (some (take n src)) n
unfolding append
append_part room junk b src n h =
    let new_len : ℕ = add_size b.len n in
    let same : put_bytes src b.len n new_len ≡ put_bytes (take n src) b.len n new_len =
      fun_ext (put_bytes_part src n b.len new_len h) in
    ap
      (λ next.
        if ltb ulong_max new_len
        then ok (alib_internal_max_reached, b)
        else ensure room junk b new_len next)
      same
