-- ===== src/AlibString/Text/Searching.antt =====
-- What find_last_char(), str_to_lower() and strn_to_lower() of source/alib_string.c do to a string.
use alib_c.Common.{
  ℕ, zero, suc, ◌+◌, ◌≤◌, ◌<◌, ◌-◌, ◌≡◌, ◌≢◌, refl, ap, ◌∙◌, Bool-cases, inl, inr, true, false,
  none, some, List, [], ◌∷◌, ◌++◌, map, arith, length, get_elem?, take, drop, ◌==◌,
}
use alib_c.Common.{get_elem?-lt, lt_of_get_elem?}
use alib_c.Common.Run.{Run, ok, fault}
use alib_c.AlibTypes.{strlen}
use alib_c.AlibTypes.Parsing.{strlen-end}
use alib_c.AlibString.Text.{
  byte_at, last_from, find_last_char_count, find_last_char, changed, changed_n, str_to_lower,
  strn_to_lower,
}

-- The byte does not stand at any of the places behind `k`, up to `n`.
abbrev pub NotBehind : List ℕ → ℕ → ℕ → ℕ → Type 0
NotBehind s c k n = (i : ℕ) → k < i → i ≤ n → get_elem? s i ≢ some c

module _ (s : List ℕ) (c : ℕ) where
  differs : (x i : ℕ) → get_elem? s i ≡ some x → get_elem? s i ≢ some c → (x == c) ≡ false
  differs x i read' other = elim (Bool-cases (x == c)) [
    | inl e ↦ let same : x ≡ c = ground (arith, e) in absurd (other (read' ∙ ap some same))
    | inr e ↦ e
  ]

  byte-here : (i : ℕ) {x : ℕ} → get_elem? s i ≡ some x → byte_at s i ≡ ok x
  byte-here i e = ap (λ o. elim o as (λ _. Run ℕ) [ none ↦ fault | some x ↦ ok x ]) e

  last-down :
      (n k d : ℕ) → n ≡ k + d → n < length s → NotBehind s c k n → last_from s c n ≡ last_from s c k
  unfolding last_from
  last-down n k zero e h not' = ap (last_from s c) (omega (arith, e))
  last-down zero k (suc d) e h not' = absurd (omega (arith, e))
  last-down (suc n) k (suc d) e h not' =
      let (x, read') = get_elem?-lt s (suc n) h in
      let other = differs x (suc n) read' (not' (suc n) (omega (arith, e)) (omega arith)) in
      rw (byte-here (suc n) read', other)
        (last-down n k d (omega (arith, e)) (omega (arith, h))
          (λ i lo hi. not' i lo (omega (arith, hi))))

  last-here : (k : ℕ) → get_elem? s k ≡ some c → last_from s c k ≡ ok (some k)
  unfolding last_from
  last-here zero found =
      let same : (c == c) ≡ true = ground arith in rw (byte-here 0 found, same) refl
  last-here (suc k) found =
      let same : (c == c) ≡ true = ground arith in rw (byte-here (suc k) found, same) refl

  last-nowhere : (get_elem? s 0 ≢ some c) → 0 < length s → last_from s c 0 ≡ fault
  unfolding last_from
  last-nowhere not' h =
      let (x, read') = get_elem?-lt s 0 h in rw (byte-here 0 read', differs x 0 read' not') refl

  -- find_last_char() of a string with `n` characters finds the last place of the character.
  pub find_last_char_lem :
      (n k : ℕ)
      → strlen s ≡ ok n
      → k ≤ n
      → get_elem? s k ≡ some c
      → NotBehind s c k n
      → find_last_char (some s) c ≡ ok (some k)
  unfolding find_last_char find_last_char_count
  find_last_char_lem n k len h found not' =
      let inside : n < length s = lt_of_get_elem? s n (strlen-end s n len) in
      rw len (last-down n k (n - k) (omega (arith, h)) inside not' ∙ last-here k found)

  -- Where the character does not stand, find_last_char() reads the byte in front of the string, which is a
  -- fault: it never gives NULL.
  pub find_last_char-fault :
      (n : ℕ)
      → strlen s ≡ ok n
      → ((i : ℕ) → i ≤ n → get_elem? s i ≢ some c)
      → find_last_char (some s) c ≡ fault
  unfolding find_last_char find_last_char_count
  find_last_char-fault n len not' =
      let inside : n < length s = lt_of_get_elem? s n (strlen-end s n len) in
      let down = last-down n 0 n (omega arith) inside (λ i lo hi. not' i hi) in
      rw len (down ∙ last-nowhere (not' 0 (omega arith)) (omega (arith, inside)))

-- No character is a NUL.
abbrev pub NoNul : List ℕ → Type 0
NoNul [] = Unit {0}
NoNul (c ∷ cs) = ((c == 0) ≡ false) × NoNul cs

module _ (change : ℕ → ℕ) (rest : List ℕ) where
  changed_lem :
      (t : List ℕ) → NoNul t → changed change (t ++ 0 ∷ rest) ≡ ok (map change t ++ 0 ∷ rest)
  unfolding changed
  changed_lem [] h = refl
  changed_lem (c ∷ cs) (h, hs) = rw (h, changed_lem cs hs) refl

  changed_n_lem :
      (t : List ℕ) (n : ℕ)
      → NoNul t
      → changed_n change (t ++ 0 ∷ rest) n ≡ ok (map change (take n t) ++ drop n t ++ 0 ∷ rest)
  unfolding changed_n
  changed_n_lem [] zero h = refl
  changed_n_lem [] (suc n) h = refl
  changed_n_lem (c ∷ cs) zero h = refl
  changed_n_lem (c ∷ cs) (suc n) (h, hs) = rw (h, changed_n_lem cs n hs) refl

-- On a string of the characters `t`, str_to_lower() changes each of them and nothing behind the NUL, and
-- strn_to_lower() changes the first `n` of them only.
pub to_lower_lem :
    (tolower toupper : ℕ → ℕ) (t rest : List ℕ) (n : ℕ)
    → NoNul t
    → (str_to_lower tolower toupper (some (t ++ 0 ∷ rest)) ≡ ok (some (map tolower t ++ 0 ∷ rest)))
      × (strn_to_lower tolower toupper (some (t ++ 0 ∷ rest)) n
          ≡ ok (some (map tolower (take n t) ++ drop n t ++ 0 ∷ rest)))
unfolding str_to_lower strn_to_lower
to_lower_lem tolower toupper t rest n h =
    (rw (changed_lem tolower rest t h) refl, rw (changed_n_lem tolower rest t n h) refl)
