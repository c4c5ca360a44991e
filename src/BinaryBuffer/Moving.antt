-- ===== src/BinaryBuffer/Moving.antt =====
-- What BinaryBuffer_insert() and _replace() do to the bytes in use.
use alib_c.Common.{
  ℕ, zero, suc, ◌+◌, ◌-◌, ◌^◌, ◌≤◌, ◌<◌, ◌≡◌, refl, sym, ap, ap₂, ◌∙◌, inl, inr, ◌⊎◌, Bool-cases,
  Bool, true, false, ◌||◌, le_cases, some, List, [], ◌∷◌, ◌++◌, arith, length, length-append,
  length-take, length-drop, length-store, store, take, drop, take-append_ge, take-take,
  take-append-take-drop, drop-take, ltb, ◌==◌, if◌then◌else◌, add_size, sub_size, alib_ok,
}
use alib_c.Common.Run.{Run, ok, fault}
use alib_c.AlibString.{apart, memcpy_safe}
use alib_c.AlibString.Copies.{memcpy_back_lem, memcpy_safe_lem}
use alib_c.BinaryBuffer.{
  BinaryBuffer, memory, rewritten, Result, ulong_max, put_bytes, ensure, insert_bytes, insert,
  replace_bytes, replace,
}
use alib_c.BinaryBuffer.Splice.{
  take-append-drop, store_lem, take-pieces, memory-rewritten, patched, patched-IsValid,
  put_bytes_lem, store-store, contents-patched,
}
use alib_c.BinaryBuffer.Growth.{IsValid, contents, lost, ensure_lem}

take_one : (xs : List ℕ) (n : ℕ) → n < length xs → (x : ℕ) × (take 1 (drop n xs) ≡ x ∷ [])
take_one [] n h = absurd (omega arith)
take_one (x ∷ xs) zero h = (x, refl)
take_one (x ∷ xs) (suc n) h = take_one xs n (omega arith)

-- New bytes in front of bytes that have been moved to where the new ones end.
put_bytes-moved :
    (b : BinaryBuffer) (src ws : List ℕ) (i n k len' : ℕ)
    → IsValid b
    → n ≡ i + length src
    → k ≡ n + length ws
    → k ≤ b.capacity
    → len' ≤ b.capacity
    → (b' : BinaryBuffer) × (put_bytes src i
          (length src)
          len'
          (record b { buff = rewritten b.buff (store (memory b.buff) n ws) })
        ≡ ok (alib_ok, b'))
      × IsValid b'
      × (contents b' ≡ take len' (take i (memory b.buff) ++ src ++ ws ++ drop k (memory b.buff)))
put_bytes-moved b src ws i n k len' v e f h l =
    let (size, inside, h₁, h₂, h₃, h₄) = v in
    let mem = memory b.buff in
    let mem₁ : List ℕ = store mem n ws in
    let kept₁ : length mem₁ ≡ length mem = length-store mem n ws in
    let b₁ : BinaryBuffer = record b { buff = rewritten b.buff mem₁ } in
    let back : memory b₁.buff ≡ mem₁ = memory-rewritten b.buff mem₁ kept₁ in
    let long : length (memory b₁.buff) ≡ b.capacity = ap length back ∙ kept₁ ∙ size in
    let v₁ : IsValid b₁ = (long, inside, h₁, h₂, h₃, h₄) in
    let mem₂ : List ℕ = store (memory b₁.buff) i src in
    let kept₂ : length mem₂ ≡ length (memory b₁.buff) = length-store (memory b₁.buff) i src in
    (
      patched b₁ mem₂ len',
      put_bytes_lem b₁ src i len' (omega (arith, long, e, f, h)),
      patched-IsValid b₁ mem₂ len' v₁ kept₂ l,
      contents-patched b₁ mem₂ len' kept₂
          ∙ ap (λ xs. take len' (store xs i src)) back
          ∙ ap (take len') (store-store mem src ws i n k e f (omega (arith, size, h))),
    )

-- A stretch of the bytes in use is one of the memory.
take-contents :
    (b : BinaryBuffer) (i : ℕ) → i ≤ b.len → take i (memory b.buff) ≡ take i (contents b)
take-contents b i h = sym (take-take i b.len (memory b.buff) h)

take-drop-contents :
    (b : BinaryBuffer) (i m : ℕ)
    → i + m ≤ b.len
    → take m (drop i (memory b.buff)) ≡ take m (drop i (contents b))
take-drop-contents b i m h = sym (
    ap (take m) (drop-take i b.len (b.len - i) (memory b.buff) (omega arith))
    ∙ take-take m (b.len - i) (drop i (memory b.buff)) (omega arith))

length-stretch :
    (b : BinaryBuffer) (i m : ℕ)
    → IsValid b
    → i + m ≤ b.len
    → length (take m (drop i (memory b.buff))) ≡ m
length-stretch b i m (size, inside, _, _, _, _) h =
    omega
      (arith, length-take m (drop i (memory b.buff)), length-drop i (memory b.buff), size, inside)

-- insert_bytes on a buffer with room
insert_bytes_lem :
    (b : BinaryBuffer) (index : ℕ) (src : List ℕ)
    → IsValid b
    → index < b.len
    → b.len + length src ≤ b.capacity
    → (b' : BinaryBuffer) × (x : ℕ) × (insert_bytes index src (length src) (b.len + length src) b
        ≡ ok (alib_ok, b'))
      × IsValid b'
      × (contents b'
          ≡ take index (contents b)
            ++ src
            ++ take (b.len - (index + 1)) (drop index (contents b))
            ++ x ∷ [])
unfolding insert_bytes
insert_bytes_lem b index src v h room =
    let (size, inside, h₁, h₂, h₃, h₄) = v in
    let n = length src in
    let m : ℕ = b.len - (index + 1) in
    let k : ℕ = index + n + m in
    let mem = memory b.buff in
    let moved = take m (drop index mem) in
    let count : sub_size b.len (index + 1) ≡ m = omega (arith, inside, h₁) in
    let many : length moved ≡ m = length-stretch b index m v (omega arith) in
    let (x, last) = take_one mem k (omega (arith, size, room)) in
    let (b', run, v', bytes) =
      put_bytes-moved b src moved index (index + n) k (b.len + n) v refl (omega (arith, many))
        (omega (arith, room)) room in
    let mem₁ : List ℕ = store mem (index + n) moved in
    let start : insert_bytes index src n (b.len + n) b
        ≡ put_bytes src index n (b.len + n) (record b { buff = rewritten b.buff mem₁ }) =
      rw (count, memcpy_back_lem mem (index + n) index m (omega arith) (omega (arith, size, room)))
        refl in
    let front = take index mem ++ src ++ moved in
    let long : length front ≡ k = omega (
      arith,
      length-append (take index mem ++ src) moved,
      length-append (take index mem) src,
      length-take index mem,
      size,
      inside,
      many,
    ) in
    (
      b',
      x,
      start ∙ run,
      v',
      bytes
          ∙ take-append_ge (b.len + n) 1 front (drop k mem) (omega (arith, long))
          ∙ ap (◌++◌ front) last
          ∙ ap₂ (λ xs ys. xs ++ src ++ ys ++ x ∷ []) (take-contents b index (omega arith))
              (take-drop-contents b index m (omega arith)),
    )

module _ (room : ℕ → Bool) (junk : ℕ) where
  -- BinaryBuffer_insert() in front of a byte in use puts the data at `index` and the bytes from there on
  -- behind it, but for the last one: in its place is some byte that the memory held. It succeeds, with a
  -- valid buffer, where the new length is a size_t, unless the memory that this needs cannot be
  -- allocated.
  pub insert_lem :
      (b : BinaryBuffer) (index : ℕ) (src : List ℕ)
      → IsValid b
      → index < b.len
      → b.len + length src < 2 ^ 64
      → ((b' : BinaryBuffer) × (x : ℕ) × (insert room junk b index (some src) (length src)
            ≡ ok (alib_ok, b'))
          × IsValid b'
          × (contents b'
              ≡ take index (contents b)
                ++ src
                ++ take (b.len - (index + 1)) (drop index (contents b))
                ++ x ∷ []))
        ⊎ ((k : ℕ) × (room k ≡ false)
            × (insert room junk b index (some src) (length src) ≡ ok (lost b)))
  unfolding insert
  insert_lem b index src v h l =
      let n = length src in
      let sum : add_size b.len n ≡ b.len + n = omega arith in
      let inside : ltb b.len index ≡ false = ground arith in
      let fits : ltb ulong_max (b.len + n) ≡ false = ground arith in
      let next : BinaryBuffer → Run Result = insert_bytes index src n (b.len + n) in
      let start : insert room junk b index (some src) n ≡ ensure room junk b (b.len + n) next =
        rw (sum, inside, fits) refl in
      elim (ensure_lem room junk b (b.len + n) next v (omega arith) l) [
        | inr (k, full, run) ↦ inr (k, full, start ∙ run)
        | inl (b₁, run, v₁, above, e, bytes) ↦
            let (b', x, run', v', bytes') =
              insert_bytes_lem b₁ index src v₁ (omega (arith, e, h)) (omega (arith, e, above)) in
            inl (
              b',
              x,
              start ∙ run ∙ ap (λ j. insert_bytes index src n (j + n) b₁) (sym e) ∙ run',
              v',
              bytes'
                  ∙ ap₂
                      (λ xs j.
                        take index xs ++ src ++ take (j - (index + 1)) (drop index xs) ++ x ∷ [])
                      bytes e,
            )
      ]

store_self : (xs : List ℕ) (i m : ℕ) → i + m ≤ length xs → store xs i (take m (drop i xs)) ≡ xs
store_self xs i m h =
    let size : length (take m (drop i xs)) ≡ m =
      omega (arith, length-take m (drop i xs), length-drop i xs) in
    store_lem (take m (drop i xs)) xs i (omega (arith, size))
    ∙ ap₂ (λ front k. front ++ drop (i + k) xs) (take-append-take-drop i (i + m) m xs refl) size
    ∙ take-append-drop (i + m) xs

-- The bytes behind those that are replaced move back, or up by no less than there are of them.
abbrev pub Movable : BinaryBuffer → ℕ → ℕ → ℕ → Type 0
Movable b index old_len n = (old_len ≤ n) ⊎ (b.len - (index + old_len) ≤ old_len - n)

Movable-apart :
    (b : BinaryBuffer) (index old_len n : ℕ)
    → Movable b index old_len n
    → (old_len == n) ≡ false
    → (ltb (index + old_len) (index + n)
        || apart (index + n) (index + old_len) (b.len - (index + old_len)))
      ≡ true
Movable-apart b index old_len n (inl longer) other = ground arith
Movable-apart b index old_len n (inr few) other =
    let e : apart (index + n) (index + old_len) (b.len - (index + old_len)) ≡ true = ground arith in
    elim (Bool-cases (ltb (index + old_len) (index + n))) [
      | inl up ↦ rw up refl
      | inr down ↦ rw (down, e) refl
    ]

-- Bytes that have to stay where they are count as moved there.
moved_tail :
    (b : BinaryBuffer) (index old_len n : ℕ)
    → IsValid b
    → index + old_len ≤ b.len
    → b.len + n ≤ b.capacity + old_len
    → Movable b index old_len n
    → (if old_len == n
        then ok (memory b.buff)
        else memcpy_safe
            (memory b.buff)
            (index + n)
            (index + old_len)
            (sub_size (sub_size b.len index) old_len))
      ≡ ok (
          store
            (memory b.buff)
            (index + n)
            (take (b.len - (index + old_len)) (drop (index + old_len) (memory b.buff))))
moved_tail b index old_len n (size, inside, h₁, h₂, h₃, h₄) h room movable =
    let mem = memory b.buff in
    let m : ℕ = b.len - (index + old_len) in
    elim (Bool-cases (old_len == n)) [
      | inl same ↦
          let e : index + n ≡ index + old_len = ground arith in
          rw same (
            ap ok (
              sym (
                ap (λ j. store mem j (take m (drop (index + old_len) mem))) e
                ∙ store_self mem (index + old_len) m (omega (arith, size, inside)))))
      | inr other ↦
          let count : sub_size (sub_size b.len index) old_len ≡ m = omega (arith, inside, h₁) in
          let free = Movable-apart b index old_len n movable other in
          rw (other, count)
            (memcpy_safe_lem mem (index + n) (index + old_len) m (omega (arith, size, inside))
                (omega (arith, size, room))
              ∙ rw free refl)
    ]

-- The end of BinaryBuffer_replace() where the bytes to replace are in use and the new length fits.
replace_bytes_lem :
    (b : BinaryBuffer) (index old_len : ℕ) (src : List ℕ)
    → IsValid b
    → index + old_len ≤ b.len
    → b.len + length src ≤ b.capacity + old_len
    → Movable b index old_len (length src)
    → (b' : BinaryBuffer) × (replace_bytes b index old_len src (length src) ≡ ok (alib_ok, b'))
      × IsValid b'
      × (contents b' ≡ take index (contents b) ++ src ++ drop (index + old_len) (contents b))
unfolding replace_bytes
replace_bytes_lem b index old_len src v h room movable =
    let (size, inside, h₁, h₂, h₃, h₄) = v in
    let n = length src in
    let m : ℕ = b.len - (index + old_len) in
    let k : ℕ = index + n + m in
    let mem = memory b.buff in
    let moved = take m (drop (index + old_len) mem) in
    let mem₁ : List ℕ = store mem (index + n) moved in
    let many : length moved ≡ m = length-stretch b (index + old_len) m v (omega arith) in
    let (b', run, v', bytes) =
      put_bytes-moved b src moved index (index + n) k k v refl (omega (arith, many))
        (omega (arith, room)) (omega (arith, room)) in
    let len' : add_size b.len (sub_size n old_len) ≡ k = omega (arith, inside, h₁, room) in
    let long : length (take index mem ++ src) ≡ index + n =
      omega (arith, length-append (take index mem) src, length-take index mem, size, inside) in
    (
      b',
      rw (moved_tail b index old_len n v h room movable, len') refl ∙ run,
      v',
      bytes
          ∙ take-pieces k (take index mem ++ src) moved (drop k mem) (omega (arith, many, long))
          ∙ ap₂ (λ xs ys. xs ++ src ++ ys) (take-contents b index (omega arith))
              (sym (drop-take (index + old_len) b.len m mem (omega arith))),
    )

-- Otherwise they move up by less than there are of them, and overlap where they came from.
replace_bytes-fault :
    (b : BinaryBuffer) (index old_len : ℕ) (src : List ℕ)
    → IsValid b
    → index + old_len ≤ b.len
    → length src < old_len
    → old_len - length src < b.len - (index + old_len)
    → replace_bytes b index old_len src (length src) ≡ fault
unfolding replace_bytes
replace_bytes-fault b index old_len src (size, inside, h₁, h₂, h₃, h₄) h shorter more =
    let n = length src in
    let m : ℕ = b.len - (index + old_len) in
    let other : (old_len == n) ≡ false = ground arith in
    let count : sub_size (sub_size b.len index) old_len ≡ m = omega (arith, inside, h₁, h) in
    let down : ltb (index + old_len) (index + n) ≡ false = ground arith in
    let overlap : apart (index + n) (index + old_len) m ≡ false = ground arith in
    let copy : memcpy_safe (memory b.buff) (index + n) (index + old_len) m ≡ fault =
      memcpy_safe_lem (memory b.buff) (index + n) (index + old_len) m
        (omega (arith, size, inside, h)) (omega (arith, size, inside, h, shorter))
      ∙ rw (down, overlap) refl in
    rw (other, count, copy) refl

-- BinaryBuffer_replace() where the buffer has the room already. When the data are no shorter than the bytes
-- they replace, or the bytes behind are no more than the difference, it puts the data in their place, keeps
-- the bytes in front and behind, and the buffer stays valid. Otherwise it calls memcpy() on stretches that
-- overlap, which is undefined.
pub replace_lem :
    (room : ℕ → Bool) (junk : ℕ) (b : BinaryBuffer) (index old_len : ℕ) (src : List ℕ)
    → IsValid b
    → index + old_len ≤ b.len
    → b.len + length src ≤ b.capacity + old_len
    → b.len + length src < 2 ^ 64
    → (Movable b index old_len (length src)
        × ((b' : BinaryBuffer) × (replace room junk b index old_len src (length src)
              ≡ ok (alib_ok, b'))
            × IsValid b'
            × (contents b'
                ≡ take index (contents b) ++ src ++ drop (index + old_len) (contents b))))
      ⊎ ((length src < old_len)
          × (old_len - length src < b.len - (index + old_len))
          × (replace room junk b index old_len src (length src) ≡ fault))
unfolding replace
replace_lem room junk b index old_len src v h fits small =
    let n = length src in
    let sum : sub_size (add_size b.len n) old_len ≡ b.len + n - old_len = omega arith in
    let inside : ltb b.len index ≡ false = ground arith in
    let room' : ltb b.capacity (b.len + n - old_len) ≡ false = ground arith in
    let start : replace room junk b index old_len src n ≡ replace_bytes b index old_len src n =
      rw (sum, inside, room') refl in
    let moves : Movable b index old_len n
        → (b' : BinaryBuffer) × (replace room junk b index old_len src n ≡ ok (alib_ok, b'))
          × IsValid b'
          × (contents b' ≡ take index (contents b) ++ src ++ drop (index + old_len) (contents b)) =
      λ movable.
        let (b', run, v', bytes) = replace_bytes_lem b index old_len src v h fits movable in
        (b', start ∙ run, v', bytes) in
    elim (le_cases old_len n) [
      | inl longer ↦ inl (inl longer, moves (inl longer))
      | inr shorter ↦ elim (le_cases (b.len - (index + old_len)) (old_len - n)) [
        | inl few ↦ inl (inr few, moves (inr few))
        | inr more ↦
            inr (shorter, more, start ∙ replace_bytes-fault b index old_len src v h shorter more)
      ]
    ]
