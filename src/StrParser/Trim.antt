-- ===== src/StrParser/Trim.antt =====
-- What StrParser_trim() trims.
use alib_c.Common.{
  ℕ, zero, suc, ◌+◌, ◌-◌, ◌≤◌, ◌<◌, ◌≡◌, refl, ap, ◌∙◌, ◌⊎◌, inl, inr, Bool, true, false,
  Bool-cases, some, List, [], ◌∷◌, arith, length, take, get_elem?, get_elem?-lt, ltb, ◌==◌,
  if◌then◌else◌,
}
use mathlib.Core.Path.{subst}
use alib_c.Common.Run.{ok, fault, ◌>>=◌}
use alib_c.StrParser.{scan, goes_on, trim_front, back_at, trim_back}

-- Whether a character is one of those to trim.
abbrev pub among : ℕ → List ℕ → Bool
among c [] = false
among c (x ∷ xs) = if x == c then true else among c xs

-- How many characters at the front are to be trimmed.
abbrev pub leading : List ℕ → List ℕ → ℕ
leading set [] = 0
leading set (c ∷ cs) = if among c set then suc (leading set cs) else 0

scan-among :
    (n : ℕ) (chars : List ℕ) (c : ℕ)
    → n < length chars
    → (k : ℕ) × (scan n chars c ≡ ok k) × (ltb k n ≡ among c (take n chars))
unfolding scan
scan-among n [] c h = absurd (omega arith)
scan-among zero (x ∷ xs) c h = (0, refl, refl)
scan-among (suc n) (x ∷ xs) c h = elim (Bool-cases (x == c)) [
  | inl e ↦ (0, rw e, rw e (ground arith))
  | inr e ↦
      let (k, runs, same) = scan-among n xs c (omega arith) in
      (k + 1, rw (e, runs), rw e (shifted k n ∙ same))
]
  where
    shifted : (k n : ℕ) → ltb (k + 1) (suc n) ≡ ltb k n
    shifted k n = ground arith

-- With at least one character in memory behind the `count` characters to trim, the loops go on at
-- exactly these characters.
goes_on-among :
    (chars : List ℕ) (count c : ℕ)
    → count < length chars
    → goes_on chars count c ≡ ok (among c (take count chars))
unfolding goes_on
goes_on-among chars count c h =
    let (k, runs, same) = scan-among count chars c h in rw runs (ap ok same)

-- Where memory goes on behind the `count` characters to trim, the first loop of StrParser_trim() skips
-- exactly the characters at the front that are among them.
pub trim_front-leading :
    (chars : List ℕ) (count n : ℕ) (xs : List ℕ)
    → count < length chars
    → n ≤ length xs
    → trim_front chars count n xs ≡ ok (leading (take count chars) (take n xs))
unfolding trim_front
trim_front-leading chars count zero xs h k = refl
trim_front-leading chars count (suc n) [] h k = absurd (omega arith)
trim_front-leading chars count (suc n) (c ∷ xs) h k =
    elim (Bool-cases (among c (take count chars))) [
      | inl e ↦
          let rest = trim_front-leading chars count n xs h (omega arith) in
          let next : leading (take count chars) (take n xs) + 1
              ≡ suc (leading (take count chars) (take n xs)) =
            omega arith in
          rw (goes_on-among chars count c h, e, rest) (ap ok next)
      | inr e ↦ rw (goes_on-among chars count c h, e)
    ]

-- The character in front of `e` is among those to trim, or not.
abbrev pub Stops : List ℕ → ℕ → List ℕ → ℕ → Bool → Type 0
Stops chars count mem e hit =
    (c : ℕ) × (get_elem? mem (e - 1) ≡ some c) × (among c (take count chars) ≡ hit)

scan-over : (chars : List ℕ) (c : ℕ) → among c chars ≡ false → scan (length chars) chars c ≡ fault
unfolding scan
scan-over [] c h = refl
scan-over (x ∷ xs) c h = elim (Bool-cases (x == c)) [
  | inl e ↦ ground arith
  | inr e ↦
      let later : among c xs ≡ false = ground arith in
      rw e (ap (λ m. m >>= (λ k. ok (k + 1))) (scan-over xs c later))
]

-- With an array of exactly `count` characters to trim, as StrParser_trim_whitespaces() passes it,
-- the first loop of StrParser_trim() reads behind that array at a string that does not begin with
-- one of them.
pub trim_front_overread :
    (chars : List ℕ) (n c : ℕ) (xs : List ℕ)
    → among c chars ≡ false
    → trim_front chars (length chars) (suc n) (c ∷ xs) ≡ fault
unfolding trim_front goes_on
trim_front_overread chars n c xs h = rw (scan-over chars c h)

module _ (chars : List ℕ) (count : ℕ) (mem : List ℕ) where
  passed_more :
      (e k : ℕ)
      → Stops chars count mem e true
      → ((i : ℕ) → i < k → Stops chars count mem (e - 1 - i) true)
      → (j : ℕ) → j < suc k
      → Stops chars count mem (e - j) true
  passed_more e k here passed zero h = subst (λ i. Stops chars count mem i true) (omega arith) here
  passed_more e k here passed (suc j) h =
      let same : e - 1 - j ≡ e - suc j = omega arith in
      subst (λ i. Stops chars count mem i true) same (passed j (omega arith))

  last_more :
      (n e k : ℕ)
      → (k ≡ n) ⊎ Stops chars count mem (e - 1 - k) false
      → (suc k ≡ suc n) ⊎ Stops chars count mem (e - suc k) false
  last_more n e k (inl all) = inl (ap suc all)
  last_more n e k (inr stops) =
      let same : e - 1 - k ≡ e - suc k = omega arith in
      inr (subst (λ i. Stops chars count mem i false) same stops)

-- Where memory goes on behind the characters to trim, the second loop of StrParser_trim() stops at most
-- `n` characters in front of where it starts; all that it passes are among those to trim, and unless it
-- went all the way the one in front of where it stops is not.
pub trim_back-among :
    (chars : List ℕ) (count : ℕ) (mem : List ℕ) (n e : ℕ)
    → count < length chars
    → n ≤ e
    → e ≤ length mem
    → (k : ℕ) × (trim_back chars count mem n e ≡ ok (e - k))
      × (k ≤ n)
      × ((j : ℕ) → j < k → Stops chars count mem (e - j) true)
      × ((k ≡ n) ⊎ Stops chars count mem (e - k) false)
unfolding trim_back back_at
trim_back-among chars count mem zero e h k m =
    (0, ap ok (omega arith), omega arith, λ j i. absurd (omega arith), inl refl)
trim_back-among chars count mem (suc n) e h k m =
    let (c, here) = get_elem?-lt mem (e - 1) (omega arith) in
    let step = goes_on-among chars count c h in
    let stays : e ≡ e - 0 = omega arith in
    elim (Bool-cases (among c (take count chars))) [
      | inl hit ↦
          let (j, runs, inside, passed, last) =
            trim_back-among chars count mem n (e - 1) h (omega arith) (omega arith) in
          let shift : e - 1 - j ≡ e - suc j = omega arith in
          (
            suc j,
            rw (here, step, hit) (runs ∙ ap ok shift),
            omega (arith, inside),
            passed_more chars count mem e j (c, here, hit) passed,
            last_more chars count mem n e j last,
          )
      | inr miss ↦ (
        0,
        rw (here, step, miss) (ap ok stays),
        omega arith,
        λ j i. absurd (omega arith),
        inr (subst (λ i. Stops chars count mem i false) stays (c, here, miss)),
      )
    ]
