-- ===== src/BinaryBuffer/Life/Making.antt =====
-- What newBinaryBuffer_ex() makes.
use alib_c.Common.{
  ℕ, ◌+◌, ◌-◌, ◌^◌, ◌≤◌, ◌<◌, ◌≡◌, refl, sym, ap, ◌∙◌, inl, inr, Bool-cases, Bool, true, some, List,
  [], arith, length, length-append, length-replicate, take-nil, length-store, store, take, drop,
  take_of_length-le, replicate, ltb, ◌==◌, if◌then◌else◌,
}
use alib_c.Common.Run.{ok, read-ok, write-ok}
use alib_c.BinaryBuffer.{BinaryBuffer, memory, ulong_max, realloc}
use alib_c.BinaryBuffer.Growth.{IsValid, contents}
use alib_c.BinaryBuffer.Splice.{patched, patched-IsValid, contents-patched, take-store_end}
use alib_c.BinaryBuffer.Life.{fill_new, fresh, allocate, new_ex}

module _ (room : ℕ → Bool) (junk : ℕ) where
  fresh-len : (n cap min_cap max_expand : ℕ) → (fresh room junk n cap min_cap max_expand).len ≡ n
  unfolding fresh
  fresh-len n cap min_cap max_expand = refl

  fresh-capacity :
      (n cap min_cap max_expand : ℕ) → (fresh room junk n cap min_cap max_expand).capacity ≡ cap
  unfolding fresh
  fresh-capacity n cap min_cap max_expand = refl

  fresh-IsValid :
      (n cap min_cap max_expand : ℕ)
      → n ≤ cap
      → cap < 2 ^ 64
      → min_cap < 2 ^ 64
      → max_expand < 2 ^ 64
      → room cap ≡ true
      → IsValid (fresh room junk n cap min_cap max_expand)
  unfolding fresh realloc
  fresh-IsValid n cap min_cap max_expand h₁ h₂ h₃ h₄ r =
      let positive : 0 < (if max_expand == 0 then ulong_max else max_expand) = ground arith in
      let bounded : (if max_expand == 0 then ulong_max else max_expand) < 2 ^ 64 = ground arith in
      (
        elim (Bool-cases (cap == 0)) [
          | inl zero' ↦ let e : cap ≡ 0 = ground arith in rw zero' (sym e)
          | inr some' ↦
              rw (some', r)
                (omega (
                  arith,
                  length-append (take cap []) (replicate (cap - 0) junk),
                  ap length (take-nil {A = ℕ} cap),
                  length-replicate (cap - 0) junk,
                ))
        ],
        h₁,
        h₂,
        h₃,
        positive,
        bounded,
      )

  fill_new_lem :
      (b : BinaryBuffer) (src : List ℕ)
      → IsValid b
      → b.len ≡ length src
      → (b' : BinaryBuffer) × (fill_new b (some src) (length src) ≡ ok (some b'))
        × IsValid b'
        × (contents b' ≡ src)
        × (b'.capacity ≡ b.capacity)
  unfolding fill_new
  fill_new_lem b src v e = elim (Bool-cases (length src == 0)) [
    | inl zero' ↦
        let none' : length src ≡ 0 = ground arith in
        let empty : src ≡ [] = sym (take_of_length-le 0 src (omega (arith, none'))) in
        (b, rw zero' refl, v, ap (λ m. take m (memory b.buff)) (e ∙ none') ∙ sym empty, refl)
    | inr some' ↦
        let n = length src in
        let mem = memory b.buff in
        let (size, inside, _, _, _, _) = v in
        let kept : length (store mem 0 src) ≡ length mem = length-store mem 0 src in
        let whole : take n (drop 0 src) ≡ src = take_of_length-le n src (omega arith) in
        let fits : 0 + length src ≤ length mem = omega (arith, size, inside, e) in
        (
          patched b (store mem 0 src) b.len,
          rw (some', read-ok src 0 n (omega arith), whole, write-ok mem 0 src fits) refl,
          patched-IsValid b (store mem 0 src) b.len v kept inside,
          contents-patched b (store mem 0 src) b.len kept
              ∙ take-store_end mem src 0 b.len fits (omega (arith, e)),
          refl,
        )
  ]

  allocate_lem :
      (src : List ℕ) (cap min_cap max_expand : ℕ)
      → length src ≤ cap
      → cap < 2 ^ 64
      → min_cap < 2 ^ 64
      → max_expand < 2 ^ 64
      → room cap ≡ true
      → (b : BinaryBuffer) × (allocate room junk true (some src) (length src) cap min_cap max_expand
          ≡ ok (some b))
        × IsValid b
        × (contents b ≡ src)
        × (b.capacity ≡ cap)
  unfolding allocate
  allocate_lem src cap min_cap max_expand h₁ h₂ h₃ h₄ r =
      let b = fresh room junk (length src) cap min_cap max_expand in
      let v : IsValid b = fresh-IsValid (length src) cap min_cap max_expand h₁ h₂ h₃ h₄ r in
      let (b', run, v', bytes, e) =
        fill_new_lem b src v (fresh-len (length src) cap min_cap max_expand) in
      (
        b',
        rw r (elim (Bool-cases (cap == 0)) [ inl zero' ↦ rw zero' run | inr some' ↦ rw some' run ]),
        v',
        bytes,
        e ∙ fresh-capacity (length src) cap min_cap max_expand,
      )

  -- newBinaryBuffer_ex() makes a valid buffer that holds the data it is given, with no less room than was
  -- asked for, where the sizes are size_t and memory can be allocated.
  pub new_ex-contents :
      (src : List ℕ) (start min_cap max_expand : ℕ)
      → length src < 2 ^ 64
      → start < 2 ^ 64
      → min_cap < 2 ^ 64
      → max_expand < 2 ^ 64
      → ((k : ℕ) → room k ≡ true)
      → (b : BinaryBuffer) × (new_ex room junk true (some src) (length src) start min_cap max_expand
          ≡ ok (some b))
        × IsValid b
        × (contents b ≡ src)
        × (start ≤ b.capacity)
        × (min_cap ≤ b.capacity)
  unfolding new_ex
  new_ex-contents src start min_cap max_expand h₁ h₂ h₃ h₄ memory' =
      let start₁ : ℕ = if ltb start (length src) then length src else start in
      let cap : ℕ = if ltb start₁ min_cap then min_cap else start₁ in
      let long : length src ≤ cap = ground arith in
      let start' : start ≤ cap = ground arith in
      let min' : min_cap ≤ cap = ground arith in
      let small : cap < 2 ^ 64 = ground arith in
      let (b, run, v, bytes, e) =
        allocate_lem src cap min_cap max_expand long small h₃ h₄ (memory' cap) in
      (b, run, v, bytes, omega (arith, start', e), omega (arith, min', e))
