-- ===== src/AlibMath.antt =====
-- source/alib_math.c: isPrime(). The remainder of a negative number is 0 where that of its magnitude is.
use alib_c.Common.{
  ℕ, zero, suc, ◌+◌, ◌-◌, ◌/◌, ◌%◌, ◌≤◌, ◌<◌, ◌≡◌, ◌≢◌, inl, inr, Bool, true, false, Bool-cases,
  arith, ◌==◌, if◌then◌else◌, ℤ, pos, negsuc, le_cases,
}

abbrev pub magnitude : ℤ → ℕ
magnitude (pos n) = n
magnitude (negsuc n) = suc n

-- `for(i = 2; i < halfX; ++i) if(x % i == 0) return 0; return 1;` with `n` rounds left
unfoldable pub no_divisor_from : ℕ → ℕ → ℕ → Bool
no_divisor_from zero i x = true
no_divisor_from (suc n) i x =
    let rest = no_divisor_from n (i + 1) x in if x % i == 0 then false else rest

unfoldable pub is_prime : ℤ → Bool
is_prime x = let half = magnitude x / 2 + 1 in no_divisor_from (half - 2) 2 (magnitude x)

no_divisor_from-true : (n i x d : ℕ) → no_divisor_from n i x ≡ true → i ≤ d → d < i + n → x % d ≢ 0
unfolding no_divisor_from
no_divisor_from-true zero i x d e h k = absurd (omega arith)
no_divisor_from-true (suc n) i x d e h k = elim (Bool-cases (x % i == 0)) [
  | inl hit ↦ ground arith
  | inr miss ↦ elim (le_cases (i + 1) d) [
    | inl more ↦ no_divisor_from-true n (i + 1) x d (ground arith) more (omega arith)
    | inr here ↦ let same : d ≡ i = omega arith in λ z. absurd (ground (arith, same))
  ]
]

no_divisor_from-false :
    (n i x : ℕ) → no_divisor_from n i x ≡ false → (d : ℕ) × (i ≤ d) × (d < i + n) × (x % d ≡ 0)
unfolding no_divisor_from
no_divisor_from-false zero i x e = cc
no_divisor_from-false (suc n) i x e = elim (Bool-cases (x % i == 0)) [
  | inl hit ↦ (i, omega arith, omega arith, ground arith)
  | inr miss ↦
      let (d, h, k, z) = no_divisor_from-false n (i + 1) x (ground arith) in
      (d, omega arith, omega arith, z)
]

-- Where isPrime() returns 0, some number from 2 up to half the magnitude divides the argument.
pub is_prime-false :
    (x : ℤ) → is_prime x ≡ false → (d : ℕ) × (2 ≤ d) × (d ≤ magnitude x / 2) × (magnitude x % d ≡ 0)
unfolding is_prime
is_prime-false x e =
    let (d, h, k, z) = no_divisor_from-false (magnitude x / 2 + 1 - 2) 2 (magnitude x) e in
    (d, h, omega arith, z)

-- Where isPrime() returns 1, no number from 2 up to half the magnitude divides the argument.
pub is_prime-true :
    (x : ℤ) (d : ℕ) → is_prime x ≡ true → 2 ≤ d → d ≤ magnitude x / 2 → magnitude x % d ≢ 0
unfolding is_prime
is_prime-true x d e h k =
    no_divisor_from-true (magnitude x / 2 + 1 - 2) 2 (magnitude x) d e h (omega arith)
