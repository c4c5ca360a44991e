-- ===== src/StrParser/Whole.antt =====
-- StrParser_trim() as a whole.
use alib_c.Common.{
  ℕ, zero, suc, ◌+◌, ◌-◌, ◌≤◌, ◌<◌, ◌≡◌, refl, sym, ap, ◌∙◌, ◌⊎◌, inl, inr, Bool, true, false,
  Bool-cases, some, List, [], ◌∷◌, arith, length, length-drop, take, drop, get_elem?, ◌==◌,
  if◌then◌else◌, alib_ok,
}
use alib_c.Common.Run.{ok}
use alib_c.StrParser.{StrParser, trim_it, trim_between, trim}
use alib_c.StrParser.Trim.{among, leading, Stops, trim_front-leading, trim_back-among}

-- Whether all characters are to be trimmed.
abbrev pub all_among : List ℕ → List ℕ → Bool
all_among set [] = true
all_among set (c ∷ cs) = if among c set then all_among set cs else false

leading-le : (set cs : List ℕ) → leading set cs ≤ length cs
leading-le set [] = omega arith
leading-le set (c ∷ cs) = elim (Bool-cases (among c set)) [
  | inl e ↦ rw e (omega (arith, leading-le set cs))
  | inr e ↦ rw e (omega arith)
]

take_next :
    (mem : List ℕ) (i k : ℕ) {c : ℕ}
    → get_elem? mem i ≡ some c
    → take (suc k) (drop i mem) ≡ c ∷ take k (drop (suc i) mem)
take_next [] i k e = cc
take_next (x ∷ mem) zero k {c} e = let same : x ≡ c = cc in ap (λ y. y ∷ take k mem) same
take_next (x ∷ mem) (suc i) k e = take_next mem i k e

module _ (chars : List ℕ) (count : ℕ) (mem : List ℕ) where
  all_back :
      (e k : ℕ)
      → k ≤ e
      → ((j : ℕ) → j < k → Stops chars count mem (e - j) true)
      → all_among (take count chars) (take k (drop (e - k) mem)) ≡ true
  all_back e zero h passed = refl
  all_back e (suc k) h passed =
      let (c, here, hit) = passed k (omega arith) in
      let place : e - k - 1 ≡ e - suc k = omega arith in
      let next : suc (e - suc k) ≡ e - k = omega arith in
      let front : take (suc k) (drop (e - suc k) mem) ≡ c ∷ take k (drop (e - k) mem) =
        take_next mem (e - suc k) k (ap (get_elem? mem) (sym place) ∙ here)
        ∙ ap (λ i. c ∷ take k (drop i mem)) next in
      rw (front, hit) (all_back e k (omega arith) (λ j i. passed j (omega arith)))

-- Where memory goes on behind the characters to trim, of which there is at least one, StrParser_trim()
-- of a string that lies inside its memory returns ALIB_OK; it moves the start of the string over all
-- characters at the front that are to be trimmed, and the end back over characters that are all to be
-- trimmed, until the last one is not, or only one is left.
pub trim_lem :
    (mem chars : List ℕ) (p : StrParser) (count b e : ℕ)
    → p.str.begin ≡ some b
    → p.str.end ≡ some e
    → b ≤ e
    → e ≤ length mem
    → 0 < count
    → count < length chars
    → let set = take count chars in
      let start : ℕ = b + leading set (take (e - b) (drop b mem)) in
      (j : ℕ) × (trim mem p chars count ≡ ok (alib_ok, trim_it p start (e - j)))
      × (all_among set (take j (drop (e - j) mem)) ≡ true)
      × ((j ≡ e - start - 1) ⊎ Stops chars count mem (e - j) false)
unfolding trim trim_between
trim_lem mem chars p count b e pb pe h k some_chars more =
    let set = take count chars in
    let s : List ℕ = take (e - b) (drop b mem) in
    let start : ℕ = b + leading set s in
    let front =
      trim_front-leading chars count (e - b) (drop b mem) more (omega (arith, length-drop b mem)) in
    let (j, back, inside, passed, last) =
      trim_back-among chars count mem (e - start - 1) e more (omega arith) k in
    let counted : (count == 0) ≡ false = ground arith in
    (
      j,
      rw (counted, pb, pe, front, back),
      all_back chars count mem e j (omega (arith, inside)) passed,
      last,
    )
