-- ===== src/ComDataCheck/Recv.antt =====
-- ComDataCheck_recv() on a connection that delivers a packet in pieces, and ComDataCheck_send() at its
-- other end.
use alib_c.Common.{
  ℕ, ◌+◌, ◌%◌, ◌^◌, ◌≤◌, ◌<◌, ◌≡◌, refl, sym, ap, ◌∙◌, inl, inr, le_cases, Bool, true, false, some,
  List, [], ◌∷◌, ◌++◌, append-nil, append_assoc, map, arith, length, length-append, length-take,
  drop, drop-append_ge, ltb, leb, ◌==◌, ℤ, alib_ok,
}
use mathlib.Core.List.{flatten}
use mathlib.Core.Path.{subst}
use alib_c.Common.Run.{Run, ok, fault, read-ok}
use alib_c.BinaryBuffer.{memory}
use alib_c.BinaryBuffer.Growth.{IsValid, contents}
use alib_c.ComDataCheck.{
  ComDataCheck, cdc_complete, cdc_waiting, ntohl, htonl, got, Received as Reading, append,
  recv_from, recv, while_waiting, send, bad_socket,
}
use alib_c.ComDataCheck.Header.{Received, progress, ntohl-append}
use alib_c.ComDataCheck.Stream.{append-Received}

abbrev pub Pieces : List (List ℕ) → Type 0
Pieces [] = Unit {0}
Pieces (x ∷ xs) = (0 < length x) × Pieces xs

flatten-nil : (xs : List (List ℕ)) → Pieces xs → length (flatten xs) ≡ 0 → flatten xs ≡ []
unfolding flatten
flatten-nil [] p e = refl
flatten-nil (x ∷ xs) (p, ps) e = absurd (omega (arith, length-append x (flatten xs)))

module _ (room : ℕ → Bool) (junk : ℕ) (memory' : (k : ℕ) → room k ≡ true) where
  recv_from_waiting :
      (c c' : ComDataCheck) (x : List ℕ) (received : List Reading) (rval : ℤ) (n len : ℕ)
      → 0 < length x
      → append room junk c (some x) (length x) ≡ ok (progress n len, c')
      → n < 4 + len
      → recv_from room junk rval (got x ∷ received) c ≡ recv_from room junk cdc_waiting received c'
  unfolding recv_from while_waiting
  recv_from_waiting c c' x received rval n len h run less =
      let some' : (length x == 0) ≡ false = ground arith in
      let less' : ltb n (4 + len) ≡ true = ground arith in rw (some', run, less') refl

  recv_from_complete :
      (c c' : ComDataCheck) (x : List ℕ) (received : List Reading) (rval : ℤ) (n len : ℕ)
      → 0 < length x
      → append room junk c (some x) (length x) ≡ ok (progress n len, c')
      → 4 + len ≤ n
      → recv_from room junk rval (got x ∷ received) c ≡ ok (cdc_complete, c')
  unfolding recv_from while_waiting
  recv_from_complete c c' x received rval n len h run more =
      let some' : (length x == 0) ≡ false = ground arith in
      let more' : ltb n (4 + len) ≡ false = ground arith in rw (some', run, more') refl

  recv_from-Received :
      (xs : List (List ℕ)) (c : ComDataCheck) (s : List ℕ) (len : ℕ) (rval : ℤ)
      (more : List Reading)
      → Pieces xs
      → Received s c
      → 0 < len
      → len < 2 ^ 31
      → length s < 4 + len
      → ntohl (s ++ flatten xs) ≡ len
      → length s + length (flatten xs) ≡ 4 + len
      → (c' : ComDataCheck) × (recv_from room junk rval (map got xs ++ more) c
          ≡ ok (cdc_complete, c'))
        × Received (s ++ flatten xs) c'
  unfolding flatten
  recv_from-Received [] c s len rval more ps r p small less header total = absurd (omega arith)
  recv_from-Received (x ∷ xs) c s len rval more (h, ps) r p small less header total =
      let rest = flatten xs in
      let size : length (x ++ rest) ≡ length x + length rest = length-append x rest in
      let size' : length (s ++ x) ≡ length s + length x = length-append s x in
      let whole : (s ++ x) ++ rest ≡ s ++ (x ++ rest) = append_assoc s x rest in
      let header' : ntohl ((s ++ x) ++ rest) ≡ len = ap ntohl whole ∙ header in
      let known : 4 < length s + length x → ntohl (s ++ x) ≡ len =
        λ long. sym (ntohl-append (s ++ x) rest (omega (arith, size', long))) ∙ header' in
      let (c', run, r') =
        append-Received room junk memory' c s x len r h p small known
          (omega (arith, size, total)) in
      elim (le_cases (4 + len) (length s + length x)) [
        | inl all ↦
            let last : s ++ x ≡ s ++ (x ++ []) = ap (◌++◌ s) (sym (append-nil x)) in
            let none' : rest ≡ [] = flatten-nil xs ps (omega (arith, size, total, all)) in
            (
              c',
              recv_from_complete c c' x (map got xs ++ more) rval (length s + length x) len h run
                  all,
              subst (λ t. Received t c') (ap (λ y. s ++ (x ++ y)) (sym none'))
                  (subst (λ t. Received t c') last r'),
            )
        | inr few ↦
            let (c₂, run₂, r₂) =
              recv_from-Received xs c' (s ++ x) len cdc_waiting more ps r' p small
                (omega (arith, size', few)) header' (omega (arith, size, size', total)) in
            (
              c₂,
              recv_from_waiting c c' x (map got xs ++ more) rval (length s + length x) len h run few
                  ∙ run₂,
              subst (λ t. Received t c₂) whole r₂,
            )
      ]

  -- Where memory can be allocated, ComDataCheck_recv() from a positive socket on an input object that has taken in nothing takes
  -- in the packet with the data `body`, in whatever pieces it comes, and leaves the rest of the connection
  -- alone. The data are not empty and shorter than 2^31 bytes, and no piece is empty.
  pub recv_lem :
      (c : ComDataCheck) (header body : List ℕ) (xs : List (List ℕ)) (sock rval : ℤ)
      (more : List Reading)
      → bad_socket sock ≡ false
      → Received [] c
      → length header ≡ 4
      → ntohl header ≡ length body
      → 0 < length body
      → length body < 2 ^ 31
      → Pieces xs
      → flatten xs ≡ header ++ body
      → (c' : ComDataCheck) × (recv room junk sock rval (map got xs ++ more) c
          ≡ ok (cdc_complete, c'))
        × (contents c'.buff ≡ body)
        × (c'.data_len ≡ length body)
  unfolding recv
  recv_lem c header body xs sock rval more live r four len p small ps whole =
      let (input, _, _, _, _) = r in
      let known : ntohl (flatten xs) ≡ length body =
        ap ntohl whole ∙ ntohl-append header body (omega (arith, four)) ∙ len in
      let size : length (flatten xs) ≡ 4 + length body =
        ap length whole ∙ omega (arith, length-append header body, four) in
      let (c', run, (_, _, _, l, bytes)) =
        recv_from-Received xs c [] (length body) rval more ps r p small (omega arith) known
          (omega (arith, size)) in
      let many : leb (length (flatten xs)) 4 ≡ false = ground arith in
      let behind : drop 4 (flatten xs) ≡ body =
        ap (drop 4) whole ∙ drop-append_ge 4 0 header body (omega (arith, four)) in
      (c', rw (live, input) run, bytes ∙ rw many behind, l ∙ rw many known)

ntohl-htonl : (n : ℕ) → n < 2 ^ 32 → ntohl (htonl n) ≡ n
unfolding ntohl htonl
ntohl-htonl n h = omega arith

length-htonl : (n : ℕ) → length (htonl n) ≡ 4
unfolding htonl
length-htonl n = refl

-- Where send() takes all that it is given and the socket is positive, ComDataCheck_send() hands it the length of the bytes in use, as
-- ntohl() reads it, and the bytes.
pub send-all :
    (c : ComDataCheck) (sock : ℤ)
    → bad_socket sock ≡ false
    → IsValid c.buff
    → send length sock c ≡ ok (alib_ok, htonl (c.buff.len % 2 ^ 32) ∷ contents c.buff ∷ [])
unfolding send
send-all c sock live (size, inside, _, _, _, _) =
    let four : (length (htonl (c.buff.len % 2 ^ 32)) == 4) ≡ true =
      ap (λ n. n == 4) (length-htonl (c.buff.len % 2 ^ 32)) in
    let long : (length (contents c.buff) == c.buff.len) ≡ true =
      let e : length (contents c.buff) ≡ c.buff.len =
        omega (arith, length-take c.buff.len (memory c.buff.buff), size, inside) in
      ground arith in
    rw (live, four, read-ok (memory c.buff.buff) 0 c.buff.len (omega (arith, size, inside)), long)
      refl

-- What a run handed to send()
abbrev handed : Run (ℤ × List (List ℕ)) → List (List ℕ)
handed (ok r) = r.1
handed fault = []

-- What ComDataCheck_send() hands over is what ComDataCheck_recv() at the other end takes for one packet,
-- in whatever pieces it is delivered, none of them empty: the receiver then holds the sender's bytes and
-- reports CDC_COMPLETE. Both sockets are positive, the sender holds at least one byte and fewer than 2^31, send() takes
-- all that it is given, memory can be allocated, and the receiver has taken in nothing before.
pub send-recv :
    (room : ℕ → Bool) (junk : ℕ) (c₁ c₂ : ComDataCheck) (sent xs : List (List ℕ))
    (sock₁ sock₂ rval : ℤ)
    → ((k : ℕ) → room k ≡ true)
    → bad_socket sock₁ ≡ false
    → bad_socket sock₂ ≡ false
    → IsValid c₁.buff
    → 0 < c₁.buff.len
    → c₁.buff.len < 2 ^ 31
    → send length sock₁ c₁ ≡ ok (alib_ok, sent)
    → Received [] c₂
    → Pieces xs
    → flatten xs ≡ flatten sent
    → (c' : ComDataCheck) × (recv room junk sock₂ rval (map got xs) c₂ ≡ ok (cdc_complete, c'))
      × (contents c'.buff ≡ contents c₁.buff)
unfolding flatten
send-recv room junk c₁ c₂ sent xs sock₁ sock₂ rval memory' live₁ live₂ v p small run r ps whole =
    let n = c₁.buff.len in
    let bytes = contents c₁.buff in
    let (size, inside, _, _, _, _) = v in
    let header = htonl (n % 2 ^ 32) in
    let long : length bytes ≡ n =
      omega (arith, length-take n (memory c₁.buff.buff), size, inside) in
    let same : sent ≡ header ∷ bytes ∷ [] = ap handed (sym run ∙ send-all c₁ sock₁ live₁ v) in
    let whole' : flatten xs ≡ header ++ bytes =
      whole ∙ ap flatten same ∙ ap (◌++◌ header) (append-nil bytes) in
    let len' : ntohl header ≡ length bytes =
      ntohl-htonl (n % 2 ^ 32) (omega arith) ∙ omega (arith, small, long) in
    let (c', run', bytes', _) =
      recv_lem room junk memory' c₂ header bytes xs sock₂ rval [] live₂ r
        (length-htonl (n % 2 ^ 32)) len' (omega (arith, long, p)) (omega (arith, long, small)) ps
        whole' in
    (
      c',
      ap (λ more. recv room junk sock₂ rval more c₂) (sym (append-nil (map got xs))) ∙ run',
      bytes',
    )
