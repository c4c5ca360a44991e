-- ===== src/AlibString/Text/Copying.antt =====
-- What strncpy_fast() of source/alib_string.c copies.
use alib_c.Common.{
  ℕ, zero, suc, ◌+◌, ◌≤◌, ◌<◌, ◌≡◌, refl, ap, ◌-◌, List, [], ◌∷◌, ◌++◌, arith, length, take, drop,
}
use alib_c.Common.Run.{ok}
use alib_c.AlibString.Text.{fast_from, strncpy_fast}
use alib_c.AlibString.Text.Searching.{NoNul}

module _ (rest : List ℕ) where
  fast-whole :
      (t to : List ℕ) (m n : ℕ)
      → NoNul t
      → length t < length to
      → m ≡ length t + suc n
      → fast_from to (t ++ 0 ∷ rest) m ≡ ok (t ++ 0 ∷ drop (suc (length t)) to, n)
  unfolding fast_from
  fast-whole t [] m n h room e = absurd (omega (arith, room))
  fast-whole t (d ∷ to) zero n h room e = absurd (omega (arith, e))
  fast-whole [] (d ∷ to) (suc m) n h room e =
      let e' : m ≡ n = omega (arith, e) in ap (λ left. ok (0 ∷ to, left)) e'
  fast-whole (c ∷ t) (d ∷ to) (suc m) n (h, hs) room e =
      rw (h, fast-whole t to m n hs (omega (arith, room)) (omega (arith, e))) refl

  fast-part :
      (t to : List ℕ) (n : ℕ)
      → NoNul t
      → n ≤ length t
      → n ≤ length to
      → fast_from to (t ++ 0 ∷ rest) n ≡ ok (take n t ++ drop n to, 0)
  unfolding fast_from
  fast-part [] to zero h short room = refl
  fast-part (c ∷ t) to zero h short room = refl
  fast-part [] to (suc n) h short room = absurd (omega (arith, short))
  fast-part (c ∷ t) [] (suc n) h short room = absurd (omega (arith, room))
  fast-part (c ∷ t) (d ∷ to) (suc n) (h, hs) short room =
      rw (h, fast-part t to n hs (omega (arith, short)) (omega (arith, room))) refl

  -- strncpy_fast() of a string of the characters `t`: with a count `n` above its length, and room for the NUL,
  -- it copies the string with one NUL and leaves the rest of the destination alone; with a count `k` up to
  -- the length it copies `k` characters and no NUL. What `coppied_count` points to is the count both times.
  pub strncpy_fast_lem :
      (t to : List ℕ) (n k : ℕ)
      → NoNul t
      → length t < length to
      → length t < n
      → k ≤ length t
      → (strncpy_fast to (t ++ 0 ∷ rest) n ≡ ok (t ++ 0 ∷ drop (suc (length t)) to, n))
        × (strncpy_fast to (t ++ 0 ∷ rest) k ≡ ok (take k t ++ drop k to, k))
  unfolding strncpy_fast
  strncpy_fast_lem t to n k h room long short = (
    rw (fast-whole t to n (n - suc (length t)) h room (omega (arith, long))) refl,
    rw (fast-part t to k h short (omega (arith, room, short))) refl,
  )
