-- ===== src/BinaryBuffer/Growth.antt =====
-- calculate_expansion() and BinaryBuffer_expand_to_target(): how the buffer grows.
use alib_c.Common.{
  ℕ, zero, suc, ◌+◌, ◌-◌, ◌^◌, ◌≤◌, ◌<◌, ◌≡◌, refl, sym, ap, ◌∙◌, inl, inr, Bool-cases, Bool, true,
  false, none, some, List, ◌++◌, ◌⊎◌, min, arith, length, length-append, length-take,
  length-replicate, take, replicate, take-append_le, take-take, take-take-min, take_of_length-le,
  ltb, ltb→lt, ltb→le, ◌==◌, if◌then◌else◌, alib_ok, alib_mem_err,
}
use alib_c.Common.Run.{Run, ok}
use alib_c.BinaryBuffer.{
  BinaryBuffer, memory, Result, ulong_max, next_size, grow_to, realloc, resized, hard_resize,
  resize, resize_to, expand_to_target, ensure, or_return,
}

-- A step makes the size larger, unless it has reached the last size.
next_size-lt :
    (max size : ℕ) → 0 < max → max < 2 ^ 64 → size < ulong_max → size < next_size max size
unfolding next_size
next_size-lt max size h k l = ground arith

next_size-bounded : (max size : ℕ) → size < 2 ^ 64 → next_size max size < 2 ^ 64
unfolding next_size
next_size-bounded max size h = ground arith

-- BinaryBuffer_expand_to_target() leaves its loop after at most `target` rounds, whatever the size it
-- starts from, where `target` is a size_t and `max_expand` is one other than 0. The size it finds reaches
-- the target, is no smaller than the one it started from, and is a size_t.
pub grow_to-some :
    (fuel max size target : ℕ)
    → 0 < max
    → max < 2 ^ 64
    → size < 2 ^ 64
    → target < 2 ^ 64
    → target ≤ size + fuel
    → (n : ℕ) × (grow_to fuel max size target ≡ some n) × (target ≤ n) × (size ≤ n) × (n < 2 ^ 64)
unfolding grow_to
grow_to-some zero max size target h k l t f =
    let stop : ltb size target ≡ false = ground arith in
    (size, rw stop refl, omega arith, omega arith, l)
grow_to-some (suc fuel) max size target h k l t f = elim (Bool-cases (ltb size target)) [
  | inr stop ↦ (size, rw stop refl, ltb→le size target stop, omega arith, l)
  | inl more ↦
      let less : size < target = ltb→lt size target more in
      let grows : size < next_size max size = next_size-lt max size h k (omega (arith, less)) in
      let (n, found, enough, above, small) =
        grow_to-some fuel max (next_size max size) target h k (next_size-bounded max size l) t
          (omega (arith, grows)) in
      (n, rw more found, enough, omega (arith, above, grows), small)
]

-- Each field holds a size_t, the memory is as long as `capacity` says, and the bytes in use lie in it.
abbrev pub IsValid : BinaryBuffer → Type 0
IsValid b =
    (length (memory b.buff) ≡ b.capacity)
    × (b.len ≤ b.capacity)
    × (b.capacity < 2 ^ 64)
    × (b.min_cap < 2 ^ 64)
    × (0 < b.max_expand)
    × (b.max_expand < 2 ^ 64)

-- The bytes in use.
abbrev pub contents : BinaryBuffer → List ℕ
contents b = take b.len (memory b.buff)

-- What a failed allocation leaves.
abbrev pub lost : BinaryBuffer → Result
lost b = (alib_mem_err, record b { buff = none })

length-realloc :
    (mem : List ℕ) (n junk : ℕ) → length (take n mem ++ replicate (n - length mem) junk) ≡ n
length-realloc mem n junk = omega (
  arith,
  length-append (take n mem) (replicate (n - length mem) junk),
  length-take n mem,
  length-replicate (n - length mem) junk,
)

take-realloc :
    (mem : List ℕ) (n k junk : ℕ)
    → k ≤ length mem
    → take (min n k) (take n mem ++ replicate (n - length mem) junk) ≡ take n (take k mem)
take-realloc mem n k junk h =
    take-append_le (min n k) (take n mem) _ (omega (arith, length-take n mem))
    ∙ take-take (min n k) n mem (omega arith)
    ∙ sym (take-take-min n k mem)

module _ (room : ℕ → Bool) (junk : ℕ) where
  resized_lem :
      (b : BinaryBuffer) (n : ℕ)
      → IsValid b
      → n < 2 ^ 64
      → room n ≡ true
      → (b' : BinaryBuffer) × (resized b n (realloc room junk b.buff n) ≡ (alib_ok, b'))
        × IsValid b'
        × (b'.capacity ≡ n)
        × (b'.len ≡ min n b.len)
        × (contents b' ≡ take n (contents b))
  unfolding resized realloc
  resized_lem b n (size, inside, h₁, h₂, h₃, h₄) k r =
      let mem = memory b.buff in
      let mem' : List ℕ = take n mem ++ replicate (n - length mem) junk in
      let cut : (if ltb n b.len then n else b.len) ≡ min n b.len = ground arith in
      (
        record b { buff = some mem'; capacity = n; len = min n b.len },
        rw (r, cut) refl,
        (length-realloc mem n junk, omega arith, k, h₂, h₃, h₄),
        refl,
        refl,
        take-realloc mem n b.len junk (omega (arith, size, inside)),
      )

  -- BinaryBuffer_hard_resize() gives the buffer the capacity asked for and keeps its bytes up to there.
  -- Where the memory cannot be allocated, it reports that and leaves NULL in `buff`.
  pub hard_resize_lem :
      (b : BinaryBuffer) (n : ℕ)
      → IsValid b
      → n < 2 ^ 64
      → ((b' : BinaryBuffer) × (hard_resize room junk b n ≡ (alib_ok, b'))
          × IsValid b'
          × (b'.capacity ≡ n)
          × (b'.len ≡ min n b.len)
          × (contents b' ≡ take n (contents b)))
        ⊎ ((room n ≡ false) × (hard_resize room junk b n ≡ lost b))
  unfolding hard_resize resized realloc
  hard_resize_lem b n v k = elim (Bool-cases (b.capacity == n)) [
    | inl same ↦
        let (size, inside, _, _, _, _) = v in
        let e : b.capacity ≡ n = ground arith in
        let short : length (contents b) ≤ n =
          omega (arith, length-take b.len (memory b.buff), inside, e) in
        inl (
          b,
          rw same refl,
          v,
          e,
          omega (arith, inside, e),
          sym (take_of_length-le n (contents b) short),
        )
    | inr other ↦ elim (Bool-cases (n == 0)) [
      | inl zero' ↦
          let (_, _, _, h₂, h₃, h₄) = v in
          let e : n ≡ 0 = ground arith in
          inl (
            record b { buff = none; capacity = 0; len = 0 },
            rw (other, zero') refl,
            (refl, omega arith, omega arith, h₂, h₃, h₄),
            omega (arith, e),
            omega (arith, e),
            ap (λ m. take m (contents b)) (sym e),
          )
      | inr some' ↦ elim (Bool-cases (room n)) [
        | inl r ↦
            let (b', run, v', c, l, e) = resized_lem b n v k r in
            inl (b', rw (other, some') run, v', c, l, e)
        | inr full ↦ inr (full, rw (other, some', full) refl)
      ]
    ]
  ]

  resize_lem :
      (b : BinaryBuffer) (n : ℕ)
      → IsValid b
      → b.len ≤ n
      → n < 2 ^ 64
      → ((b' : BinaryBuffer) × (resize room junk b n ≡ (alib_ok, b'))
          × IsValid b'
          × (n ≤ b'.capacity)
          × (b'.len ≡ b.len)
          × (contents b' ≡ contents b))
        ⊎ ((k : ℕ) × (room k ≡ false) × (resize room junk b n ≡ lost b))
  unfolding resize
  resize_lem b n v k l =
      let m : ℕ = if ltb n b.min_cap then b.min_cap else n in
      let (size, inside, h₁, h₂, h₃, h₄) = v in
      let above : n ≤ m = ground arith in
      let small : m < 2 ^ 64 = ground arith in
      let short : length (contents b) ≤ m =
        omega (arith, length-take b.len (memory b.buff), above) in
      elim (hard_resize_lem b m v small) [
        | inl (b', run, v', c, e, bytes) ↦ inl (
          b',
          run,
          v',
          omega (arith, above, c),
          omega (arith, above, e),
          bytes ∙ take_of_length-le m (contents b) short,
        )
        | inr (full, run) ↦ inr (m, full, run)
      ]

  -- Making room keeps the bytes, and goes on with enough of it unless an allocation fails, which leaves
  -- NULL in `buff`.
  pub ensure_lem :
      (b : BinaryBuffer) (n : ℕ) (next : BinaryBuffer → Run Result)
      → IsValid b
      → b.len ≤ n
      → n < 2 ^ 64
      → ((b' : BinaryBuffer) × (ensure room junk b n next ≡ next b')
          × IsValid b'
          × (n ≤ b'.capacity)
          × (b'.len ≡ b.len)
          × (contents b' ≡ contents b))
        ⊎ ((k : ℕ) × (room k ≡ false) × (ensure room junk b n next ≡ ok (lost b)))
  unfolding ensure expand_to_target resize_to or_return
  ensure_lem b n next v k l = elim (Bool-cases (ltb b.capacity n)) [
    | inr fits ↦ inl (b, rw fits refl, v, ltb→le b.capacity n fits, refl, refl)
    | inl more ↦
        let (size, inside, h₁, h₂, h₃, h₄) = v in
        let (m, found, enough, above, small) =
          grow_to-some n b.max_expand b.capacity n h₃ h₄ h₁ l (omega arith) in
        elim (resize_lem b m v (omega (arith, inside, above)) small) [
          | inl (b', run, v', c, e, bytes) ↦
              inl (b', rw (more, found, run) refl, v', omega (arith, enough, c), e, bytes)
          | inr (k', full, run) ↦ inr (k', full, rw (more, found, run) refl)
        ]
  ]
