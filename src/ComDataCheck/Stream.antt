-- ===== src/ComDataCheck/Stream.antt =====
-- ComDataCheck_append() on an input object, against the bytes that it has been given so far.
use alib_c.Common.{
  ℕ, ◌+◌, ◌-◌, ◌^◌, ◌≤◌, ◌<◌, ◌≡◌, refl, sym, ap, ap₂, ◌∙◌, inl, inr, le_cases, Bool-cases, Bool,
  true, false, some, List, [], ◌++◌, arith, length, length-append, length-take, length-drop, take,
  drop, drop-take, ltb, leb, ◌==◌, add_size, sub_size, size_of_int32, size_of_int32_small, alib_ok,
}
use mathlib.Core.Path.{subst}
use alib_c.Common.Run.{ok}
use alib_c.BinaryBuffer.{BinaryBuffer, memory, append as append_bytes, remove as remove_bytes}
use alib_c.BinaryBuffer.Growth.{IsValid, contents}
use alib_c.BinaryBuffer.Edits.{append_part, remove-end}
use alib_c.ComDataCheck.Header.{Received, progress, len-contents, put, append_start, append-Parsed}
use alib_c.ComDataCheck.{
  ComDataCheck, cdc_waiting, cdc_data_remaining, ntohl, filled, check_input, check, fill, hold,
  append_input, append,
}

module _ (room : ℕ → Bool) (junk : ℕ) (memory' : (k : ℕ) → room k ≡ true) where
  check_lem :
      (c : ComDataCheck)
      → (c.input == 0) ≡ false
      → c.data_len < 2 ^ 31
      → c.buff.len ≤ c.data_len
      → check room junk c ≡ ok (progress (4 + c.buff.len) c.data_len, c)
  unfolding check check_input
  check_lem c input small h =
      let n = c.data_len in
      let whole : size_of_int32 n ≡ n = size_of_int32_small n small in
      elim (Bool-cases (ltb c.buff.len n)) [
        | inl less ↦
            let less' : ltb (4 + c.buff.len) (4 + n) ≡ true = ground arith in
            rw (input, whole, less, less') refl
        | inr more ↦
            let same : (c.buff.len == n) ≡ true = ground arith in
            let more' : ltb (4 + c.buff.len) (4 + n) ≡ false = ground arith in
            rw (input, whole, more, same, more') refl
      ]

  fill_step :
      (c : ComDataCheck) (z : List ℕ) (b : BinaryBuffer)
      → append_bytes room junk c.buff (some z) (length z) ≡ ok (alib_ok, b)
      → fill room junk c z (length z) ≡ check room junk (record c { buff = b })
  unfolding fill filled
  fill_step c z b run = rw run refl

  fill_lem :
      (c : ComDataCheck) (z : List ℕ)
      → (c.input == 0) ≡ false
      → IsValid c.buff
      → c.data_len < 2 ^ 31
      → c.buff.len + length z ≤ c.data_len
      → (b : BinaryBuffer) × (fill room junk c z (length z)
          ≡ ok (progress (4 + (c.buff.len + length z)) c.data_len, record c { buff = b }))
        × IsValid b
        × (contents b ≡ contents c.buff ++ z)
  unfolding fill filled
  fill_lem c z input v small h =
      let (b, run, v', bytes) = put room junk memory' c.buff z v (omega (arith, small, h)) in
      let long : b.len ≡ c.buff.len + length z =
        len-contents b (contents c.buff ++ z) v' bytes
        ∙ omega (
          arith,
          length-append (contents c.buff) z,
          len-contents c.buff (contents c.buff) v refl,
        ) in
      let c' : ComDataCheck = record c { buff = b } in
      let start : fill room junk c z (length z) ≡ check room junk c' = rw run refl in
      (
        b,
        start
            ∙ check_lem c' input small (omega (arith, long, h))
            ∙ ap (λ n. ok (progress (4 + n) c.data_len, c')) long,
        v',
        bytes,
      )

  hold_lem :
      (c : ComDataCheck) (x : List ℕ)
      → IsValid c.buff
      → c.buff.len + length x < 2 ^ 64
      → (b : BinaryBuffer) × (hold room junk c x (length x)
          ≡ ok (cdc_waiting, record c { buff = b }))
        × IsValid b
        × (contents b ≡ contents c.buff ++ x)
  unfolding hold filled
  hold_lem c x v h =
      let (b, run, v', bytes) = put room junk memory' c.buff x v h in (b, rw run refl, v', bytes)

  append_few :
      (c : ComDataCheck) (s x : List ℕ)
      → (c.input == 0) ≡ false
      → c.unread_buff.len ≡ 0
      → IsValid c.buff
      → c.data_len ≡ 0
      → contents c.buff ≡ s
      → 0 < length x
      → length s + length x ≤ 4
      → (b : BinaryBuffer) × (append room junk c (some x) (length x)
          ≡ ok (cdc_waiting, record c { buff = b }))
        × (c.data_len ≡ 0)
        × IsValid b
        × (contents b ≡ s ++ x)
  unfolding append_input
  append_few c s x input unread v l bytes h few =
      let held : c.buff.len ≡ length s = len-contents c.buff s v bytes in
      let new : (c.data_len == 0) ≡ true = ground arith in
      let count : ltb 4 (add_size (length x) c.buff.len) ≡ false = ground arith in
      let (b, run, v', bytes') = hold_lem c x v (omega (arith, held, few)) in
      let start : append room junk c (some x) (length x) ≡ hold room junk c x (length x) =
        append_start room junk memory' c x input unread h ∙ rw (new, count) refl in
      (b, start ∙ run, l, v', bytes' ∙ ap (λ y. y ++ x) bytes)

  -- As long as an input object is given no more than one packet, whose data are not empty and shorter than
  -- 2^31 bytes, ComDataCheck_append() takes in the new bytes, in whatever pieces they come. It reports
  -- CDC_COMPLETE when the packet is whole and CDC_WAITING before, where memory can be allocated.
  pub append-Received :
      (c : ComDataCheck) (s x : List ℕ) (len : ℕ)
      → Received s c
      → 0 < length x
      → 0 < len
      → len < 2 ^ 31
      → (4 < length s + length x → ntohl (s ++ x) ≡ len)
      → length s + length x ≤ 4 + len
      → (c' : ComDataCheck) × (append room junk c (some x) (length x)
          ≡ ok (progress (length s + length x) len, c'))
        × Received (s ++ x) c'
  append-Received c s x len r h p small header fits =
      let size : length (s ++ x) ≡ length s + length x = length-append s x in
      elim (le_cases (length s + length x) 4) [
        | inl few ↦
            let (input, unread, v, l, bytes) = r in
            let short : leb (length s) 4 ≡ true = ground arith in
            let bytes' : contents c.buff ≡ s = bytes ∙ rw short refl in
            let (b, run, l', v', e) =
              append_few c s x input unread v (l ∙ rw short refl) bytes' h few in
            let few' : leb (length (s ++ x)) 4 ≡ true = ground arith in
            let more : ltb (length s + length x) (4 + len) ≡ true = ground arith in
            (record c { buff = b }, run ∙ rw more refl, (input, unread, v', rw few' l', rw few' e))
        | inr long ↦
            let (_, unread, _, _, _) = r in
            let (c₀, z, run, input, same, v, l, bytes) =
              append-Parsed room junk memory' c s x len r h p long (header long)
                (omega (arith, fits, small)) in
            let held : c₀.buff.len + length z ≡ length s + length x - 4 =
              ap (λ n. n + length z) (len-contents c₀.buff (contents c₀.buff) v refl)
              ∙ sym (length-append (contents c₀.buff) z)
              ∙ ap length bytes
              ∙ length-drop 4 (s ++ x)
              ∙ ap (λ n. n - 4) size in
            let (b, run', v', bytes') =
              fill_lem c₀ z input v (omega (arith, l, small)) (omega (arith, held, l, fits)) in
            let many : leb (length (s ++ x)) 4 ≡ false = ground arith in
            let sum : 4 + (c₀.buff.len + length z) ≡ length s + length x =
              omega (arith, held, long) in
            (
              record c₀ { buff = b },
              run ∙ run' ∙ ap₂ (λ n m. ok (progress n m, record c₀ { buff = b })) sum l,
              (
                input,
                ap (λ u. u.len) same ∙ unread,
                v',
                rw many (l ∙ sym (header long)),
                rw many (bytes' ∙ bytes),
              ),
            )
      ]

  -- ComDataCheck_check() on more bytes than the packet has
  check_surplus_step :
      (c : ComDataCheck) (u b : BinaryBuffer)
      → (c.input == 0) ≡ false
      → c.data_len < 2 ^ 31
      → c.data_len < c.buff.len
      → append_bytes room junk c.unread_buff
          (some (drop c.data_len (memory c.buff.buff)))
          (sub_size c.buff.len c.data_len)
        ≡ ok (alib_ok, u)
      → remove_bytes c.buff c.data_len c.buff.len ≡ ok (alib_ok, b)
      → check room junk c ≡ ok (cdc_data_remaining, record c { buff = b; unread_buff = u })
  unfolding check check_input
  check_surplus_step c u b input small h run run' =
      let whole : size_of_int32 c.data_len ≡ c.data_len = size_of_int32_small c.data_len small in
      let less : ltb c.buff.len c.data_len ≡ false = ground arith in
      let same : (c.buff.len == c.data_len) ≡ false = ground arith in
      rw (input, whole, less, same, run, run') refl

  check_surplus :
      (c : ComDataCheck)
      → (c.input == 0) ≡ false
      → IsValid c.buff
      → IsValid c.unread_buff
      → c.unread_buff.len ≡ 0
      → c.data_len < 2 ^ 31
      → c.data_len < c.buff.len
      → (u : BinaryBuffer) × (b : BinaryBuffer) × (check room junk c
          ≡ ok (cdc_data_remaining, record c { buff = b; unread_buff = u }))
        × IsValid b
        × IsValid u
        × (contents b ≡ take c.data_len (contents c.buff))
        × (contents u ≡ drop c.data_len (contents c.buff))
  check_surplus c input v vu unread small h =
      let (size, inside, cap, _, _, _) = v in
      let n = c.data_len in
      let m : ℕ = c.buff.len - n in
      let mem = memory c.buff.buff in
      let rest = drop n (contents c.buff) in
      let rest' : take m (drop n mem) ≡ rest = sym (drop-take n c.buff.len m mem (omega arith)) in
      let long : length rest ≡ m =
        omega (arith, length-drop n (contents c.buff), length-take c.buff.len mem, size, inside) in
      let (u, run, vu', bytes) =
        put room junk memory' c.unread_buff rest vu (omega (arith, long, unread, inside, cap, h)) in
      let count : sub_size c.buff.len n ≡ m = omega (arith, inside, cap, h) in
      let run₁ : append_bytes room junk c.unread_buff (some (drop n mem)) (sub_size c.buff.len n)
          ≡ ok (alib_ok, u) =
        ap (append_bytes room junk c.unread_buff (some (drop n mem))) count
        ∙ append_part room junk c.unread_buff (drop n mem) m
            (omega (arith, length-drop n mem, size, inside))
        ∙ ap₂ (λ xs k. append_bytes room junk c.unread_buff (some xs) k) rest' (sym long)
        ∙ run in
      let (run₂, v', front) =
        remove-end c.buff n c.buff.len v (omega (arith, h)) (omega (arith, h)) (omega arith)
          (omega arith) in
      let b : BinaryBuffer = record c.buff { len = n } in
      let empty : contents c.unread_buff ≡ [] =
        ap (λ k. take k (memory c.unread_buff.buff)) unread in
      (
        u,
        b,
        check_surplus_step c u b input small h run₁ run₂,
        v',
        vu',
        front,
        bytes ∙ ap (λ xs. xs ++ rest) empty,
      )

  fill_surplus :
      (c : ComDataCheck) (z w : List ℕ) (len : ℕ)
      → (c.input == 0) ≡ false
      → IsValid c.buff
      → IsValid c.unread_buff
      → c.unread_buff.len ≡ 0
      → c.data_len ≡ len
      → len < 2 ^ 31
      → contents c.buff ++ z ≡ w
      → len < length w
      → length w < 2 ^ 63
      → (c' : ComDataCheck) × (fill room junk c z (length z) ≡ ok (cdc_data_remaining, c'))
        × (c'.data_len ≡ len)
        × IsValid c'.buff
        × IsValid c'.unread_buff
        × (contents c'.buff ≡ take len w)
        × (contents c'.unread_buff ≡ drop len w)
  fill_surplus c z w len input v vu unread l small bytes h fits =
      let sum : c.buff.len + length z ≡ length w =
        ap (λ n. n + length z) (len-contents c.buff (contents c.buff) v refl)
        ∙ sym (length-append (contents c.buff) z)
        ∙ ap length bytes in
      let (b, run, v₁, bytes₁) = put room junk memory' c.buff z v (omega (arith, sum, fits)) in
      let bytes' : contents b ≡ w = bytes₁ ∙ bytes in
      let long : b.len ≡ length w = len-contents b w v₁ bytes' in
      let (u, b', run₂, v₂, vu', e, e') =
        check_surplus (record c { buff = b }) input v₁ vu unread (omega (arith, l, small))
          (omega (arith, l, long, h)) in
      (
        record c { buff = b'; unread_buff = u },
        fill_step c z b run ∙ run₂,
        l,
        v₂,
        vu',
        e ∙ ap₂ take l bytes',
        e' ∙ ap₂ drop l bytes',
      )

  -- When an input object is given more than the packet, ComDataCheck_append() reports CDC_DATA_REMAINING:
  -- the packet's data are in the buffer, and what is behind the packet waits in the other one. The data
  -- are not empty and shorter than 2^31 bytes, and memory can be allocated.
  pub append-surplus :
      (c : ComDataCheck) (s x : List ℕ) (len : ℕ)
      → Received s c
      → IsValid c.unread_buff
      → 0 < length x
      → 0 < len
      → len < 2 ^ 31
      → ntohl (s ++ x) ≡ len
      → 4 + len < length s + length x
      → length s + length x < 2 ^ 63
      → (c' : ComDataCheck) × (append room junk c (some x) (length x) ≡ ok (cdc_data_remaining, c'))
        × (c'.data_len ≡ len)
        × IsValid c'.buff
        × IsValid c'.unread_buff
        × (contents c'.buff ≡ take len (drop 4 (s ++ x)))
        × (contents c'.unread_buff ≡ drop len (drop 4 (s ++ x)))
  append-surplus c s x len r vu h p small header surplus fits =
      let (_, unread, _, _, _) = r in
      let (c₀, z, run, input, same, v, l, bytes) =
        append-Parsed room junk memory' c s x len r h p (omega arith) header fits in
      let (c', run', l', v', vu', e, e') =
        fill_surplus c₀ z (drop 4 (s ++ x)) len input v (subst IsValid (sym same) vu)
          (ap (λ u. u.len) same ∙ unread) l small bytes
          (omega (arith, length-drop 4 (s ++ x), length-append s x, surplus))
          (omega (arith, length-drop 4 (s ++ x), length-append s x, fits)) in
      (c', run ∙ run', l', v', vu', e, e')
