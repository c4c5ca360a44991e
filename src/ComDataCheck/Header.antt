-- ===== src/ComDataCheck/Header.antt =====
-- How ComDataCheck_append() on an input object finds the header among the bytes that it is given.
use alib_c.Common.{
  ℕ, ◌+◌, ◌-◌, ◌^◌, ◌≤◌, ◌<◌, ◌≡◌, refl, sym, ap, ◌∙◌, inl, inr, Bool-cases, Bool, true, false,
  some, List, [], ◌∷◌, ◌++◌, append_assoc, arith, length, length-append, length-take, length-drop,
  take, drop, drop-append_le, drop-append_ge, ltb, leb, leb→le, ◌==◌, if◌then◌else◌, add_size,
  sub_size, ℤ, alib_ok,
}
use alib_c.Common.Run.{Run, ok, read-ok}
use alib_c.BinaryBuffer.{BinaryBuffer, memory, append as append_bytes, clear_no_resize}
use alib_c.BinaryBuffer.Growth.{IsValid, contents}
use alib_c.BinaryBuffer.Edits.{append_lem, append_part}
use alib_c.BinaryBuffer.Splice.{take-append-drop}
use alib_c.ComDataCheck.{
  ComDataCheck, Status, cdc_complete, cdc_waiting, ntohl, through_char, filled, fill, parse_held,
  with_header, append_input, append_read, append,
}

-- The object has taken in the bytes `s` of a packet: a header that is not followed by other bytes yet
-- lies in the buffer, else its length is known and the buffer holds the bytes behind it. Nothing waits.
abbrev pub Received : List ℕ → ComDataCheck → Type 0
Received s c =
    ((c.input == 0) ≡ false)
    × (c.unread_buff.len ≡ 0)
    × IsValid c.buff
    × (c.data_len ≡ (if leb (length s) 4 then 0 else ntohl s))
    × (contents c.buff ≡ (if leb (length s) 4 then s else drop 4 s))

-- The status of an object that has taken in `n` bytes of a packet with `len` bytes of data
abbrev pub progress : ℕ → ℕ → ℤ
progress n len = if ltb n (4 + len) then cdc_waiting else cdc_complete

pub ntohl-append : (s r : List ℕ) → 4 ≤ length s → ntohl (s ++ r) ≡ ntohl s
unfolding ntohl
ntohl-append [] r h = absurd (omega arith)
ntohl-append (a ∷ []) r h = absurd (omega arith)
ntohl-append (a ∷ b ∷ []) r h = absurd (omega arith)
ntohl-append (a ∷ b ∷ c ∷ []) r h = absurd (omega arith)
ntohl-append (a ∷ b ∷ c ∷ d ∷ s) r h = refl

pub len-contents : (b : BinaryBuffer) (s : List ℕ) → IsValid b → contents b ≡ s → b.len ≡ length s
len-contents b s (size, inside, _, _, _, _) e =
    omega (arith, ap length e, length-take b.len (memory b.buff), size, inside)

module _ (room : ℕ → Bool) (junk : ℕ) (memory' : (k : ℕ) → room k ≡ true) where
  pub put :
      (b : BinaryBuffer) (src : List ℕ)
      → IsValid b
      → b.len + length src < 2 ^ 64
      → (b' : BinaryBuffer) × (append_bytes room junk b (some src) (length src) ≡ ok (alib_ok, b'))
        × IsValid b'
        × (contents b' ≡ contents b ++ src)
  put b src v h = elim (append_lem room junk b src v h) [
    | inl r ↦ r
    | inr (k, full, _) ↦ let there : room k ≡ true = memory' k in cc
  ]

  -- ComDataCheck_append() goes on to add the bytes `z`, behind the header, to the object `c₀`.
  abbrev pub Parsed : ComDataCheck → List ℕ → ℕ → Run Status → Type 0
  Parsed c t len run =
      (c₀ : ComDataCheck) × (z : List ℕ) × (run ≡ fill room junk c₀ z (length z))
      × ((c₀.input == 0) ≡ false)
      × (c₀.unread_buff ≡ c.unread_buff)
      × IsValid c₀.buff
      × (c₀.data_len ≡ len)
      × (contents c₀.buff ++ z ≡ drop 4 t)

  parse_held_lem :
      (c : ComDataCheck) (x : List ℕ) (diff : ℕ)
      → IsValid c.buff
      → c.buff.len ≡ 4
      → diff ≤ length x
      → length x < 2 ^ 63
      → parse_held room junk x (length x) diff c
        ≡ fill room junk
            (record c { data_len = ntohl (contents c.buff); buff = record c.buff { len = 0 } })
            (drop diff x)
            (length (drop diff x))
  unfolding parse_held clear_no_resize
  parse_held_lem c x diff v e h small =
      let (size, inside, _, _, _, _) = v in
      let header : take 4 (memory c.buff.buff) ≡ contents c.buff =
        ap (λ n. take n (memory c.buff.buff)) (sym e) in
      let count : sub_size (length x) diff ≡ length (drop diff x) =
        omega (arith, length-drop diff x) in
      rw (read-ok (memory c.buff.buff) 0 4 (omega (arith, size, inside, e)), header, count) refl

  with_header_step :
      (c : ComDataCheck) (x : List ℕ) (d : ℕ) (b : BinaryBuffer)
      → (c.buff.len == 0) ≡ false
      → through_char (sub_size 4 c.buff.len) ≡ d
      → append_bytes room junk c.buff (some x) d ≡ ok (alib_ok, b)
      → with_header room junk c x (length x)
        ≡ parse_held room junk x (length x) d (record c { buff = b })
  unfolding with_header filled
  with_header_step c x d b some' diff run = rw (some', diff, run) refl

  -- The header in one piece
  with_header-Parsed_new :
      (c : ComDataCheck) (x : List ℕ)
      → (c.input == 0) ≡ false
      → IsValid c.buff
      → c.buff.len ≡ 0
      → 4 < length x
      → length x < 2 ^ 63
      → Parsed c x (ntohl x) (with_header room junk c x (length x))
  unfolding with_header
  with_header-Parsed_new c x input v e h small =
      let none' : (c.buff.len == 0) ≡ true = ground arith in
      let header : ntohl (take 4 x) ≡ ntohl x =
        sym (ntohl-append (take 4 x) (drop 4 x) (omega (arith, length-take 4 x)))
        ∙ ap ntohl (take-append-drop 4 x) in
      let count : sub_size (length x) 4 ≡ length (drop 4 x) = omega (arith, length-drop 4 x) in
      let empty : contents c.buff ≡ [] = ap (λ n. take n (memory c.buff.buff)) e in
      (
        record c { data_len = ntohl x },
        drop 4 x,
        rw (none', read-ok x 0 4 (omega arith), header, count) refl,
        input,
        refl,
        v,
        refl,
        ap (λ s. s ++ drop 4 x) empty,
      )

  -- The rest of the header
  with_header-Parsed_held :
      (c : ComDataCheck) (s x : List ℕ)
      → (c.input == 0) ≡ false
      → IsValid c.buff
      → contents c.buff ≡ s
      → 0 < length s
      → length s ≤ 4
      → 4 < length s + length x
      → length x < 2 ^ 63
      → Parsed c (s ++ x) (ntohl (s ++ x)) (with_header room junk c x (length x))
  unfolding through_char
  with_header-Parsed_held c s x input v e h₁ h₂ h small =
      let len' : c.buff.len ≡ length s = len-contents c.buff s v e in
      let some' : (c.buff.len == 0) ≡ false = ground arith in
      let d : ℕ = 4 - length s in
      let diff : through_char (sub_size 4 c.buff.len) ≡ d = ground arith in
      let size : length (take d x) ≡ d = omega (arith, length-take d x) in
      let (b, run, v', bytes) = put c.buff (take d x) v (omega (arith, size, len')) in
      let part : append_bytes room junk c.buff (some x) d ≡ ok (alib_ok, b) =
        append_part room junk c.buff x d (omega arith)
        ∙ ap (append_bytes room junk c.buff (some (take d x))) (sym size)
        ∙ run in
      let header : contents b ≡ s ++ take d x = bytes ∙ ap (λ y. y ++ take d x) e in
      let (size', inside, h₃, h₄, h₅, h₆) = v' in
      let whole : (s ++ take d x) ++ drop d x ≡ s ++ x =
        append_assoc s (take d x) (drop d x) ∙ ap (◌++◌ s) (take-append-drop d x) in
      let four : length (s ++ take d x) ≡ 4 = omega (arith, length-append s (take d x), size) in
      let same : ntohl (contents b) ≡ ntohl (s ++ x) =
        ap ntohl header
        ∙ sym (ntohl-append (s ++ take d x) (drop d x) (omega (arith, four)))
        ∙ ap ntohl whole in
      (
        record c { data_len = ntohl (contents b); buff = record b { len = 0 } },
        drop d x,
        with_header_step c x d b some' diff part
            ∙ parse_held_lem (record c { buff = b }) x d v'
                (len-contents b (s ++ take d x) v' header ∙ four) (omega arith) small,
        input,
        refl,
        (size', omega arith, h₃, h₄, h₅, h₆),
        same,
        sym (drop-append_ge 4 d s x (omega arith)),
      )

  with_header-Parsed :
      (c : ComDataCheck) (s x : List ℕ)
      → (c.input == 0) ≡ false
      → IsValid c.buff
      → contents c.buff ≡ s
      → length s ≤ 4
      → 4 < length s + length x
      → length x < 2 ^ 63
      → Parsed c (s ++ x) (ntohl (s ++ x)) (with_header room junk c x (length x))
  with_header-Parsed c [] x input v e short long small =
      with_header-Parsed_new c x input v (len-contents c.buff [] v e) (omega arith) small
  with_header-Parsed c (a ∷ s) x input v e short long small =
      with_header-Parsed_held c (a ∷ s) x input v e (omega arith) short long small

  pub append_start :
      (c : ComDataCheck) (x : List ℕ)
      → (c.input == 0) ≡ false
      → c.unread_buff.len ≡ 0
      → 0 < length x
      → append room junk c (some x) (length x) ≡ append_input room junk c x (length x)
  unfolding append append_read
  append_start c x input unread h =
      let some' : (length x == 0) ≡ false = ground arith in
      let none' : (c.unread_buff.len == 0) ≡ true = ground arith in rw (none', some', input) refl

  -- Once more than four bytes are there, what is behind them goes into the buffer.
  pub append-Parsed :
      (c : ComDataCheck) (s x : List ℕ) (len : ℕ)
      → Received s c
      → 0 < length x
      → 0 < len
      → 4 < length s + length x
      → ntohl (s ++ x) ≡ len
      → length s + length x < 2 ^ 63
      → Parsed c (s ++ x) len (append room junk c (some x) (length x))
  unfolding append_input
  append-Parsed c s x len (input, unread, v, l, bytes) h p long header small =
      elim (Bool-cases (leb (length s) 4)) [
        | inl few ↦
            let short : length s ≤ 4 = leb→le (length s) 4 few in
            let new : (c.data_len == 0) ≡ true =
              let e : c.data_len ≡ 0 = l ∙ rw few refl in ground arith in
            let bytes' : contents c.buff ≡ s = bytes ∙ rw few refl in
            let held : c.buff.len ≡ length s = len-contents c.buff s v bytes' in
            let count : ltb 4 (add_size (length x) c.buff.len) ≡ true = ground arith in
            let (c₀, z, run, i, u, v₀, l₀, b₀) =
              with_header-Parsed c s x input v bytes' short long (omega (arith, small)) in
            let start : append room junk c (some x) (length x)
                ≡ with_header room junk c x (length x) =
              append_start c x input unread h ∙ rw (new, count) refl in
            (c₀, z, start ∙ run, i, u, v₀, l₀ ∙ header, b₀)
        | inr many ↦
            let more : 4 < length s = ground arith in
            let same : c.data_len ≡ len =
              l ∙ rw many (sym (ntohl-append s x (omega (arith, more)))) ∙ header in
            let known : (c.data_len == 0) ≡ false = ground arith in
            let start : append room junk c (some x) (length x) ≡ fill room junk c x (length x) =
              append_start c x input unread h ∙ rw known refl in
            let bytes' : contents c.buff ≡ drop 4 s = bytes ∙ rw many refl in
            (
              c,
              x,
              start,
              input,
              refl,
              v,
              same,
              ap (λ y. y ++ x) bytes' ∙ sym (drop-append_le 4 s x (omega (arith, more))),
            )
      ]
