-- ===== src/Common/Lists.antt =====
-- C arrays as lists, indexed by native numbers.
use Prim.Native.Nat.{ℕ, zero, suc, ◌+◌, ◌-◌, ◌≤◌, ◌<◌, min}
use mathlib.Core.Path.{◌≡◌, refl, sym, ap, ◌∙◌}
use mathlib.Core.Logic.{◌≢◌}
use mathlib.Core.List.{List, [], ◌∷◌, ◌++◌}
use mathlib.Core.Option.{Option, none, some}
use native.Mathlib.Omega.{arith}

module _ {ℓ} {A : Type ℓ} where
  abbrev pub length : List A → ℕ
  length [] = 0
  length (x ∷ xs) = suc (length xs)

  abbrev pub get_elem? : List A → ℕ → Option A
  get_elem? [] i = none
  get_elem? (x ∷ xs) zero = some x
  get_elem? (x ∷ xs) (suc i) = get_elem? xs i

  -- A write out of bounds changes nothing; the callers rule it out.
  abbrev pub set : List A → ℕ → A → List A
  set [] i v = []
  set (x ∷ xs) zero v = v ∷ xs
  set (x ∷ xs) (suc i) v = x ∷ set xs i v

  abbrev pub take : ℕ → List A → List A
  take zero xs = []
  take (suc n) [] = []
  take (suc n) (x ∷ xs) = x ∷ take n xs

  abbrev pub drop : ℕ → List A → List A
  drop zero xs = xs
  drop (suc n) [] = []
  drop (suc n) (x ∷ xs) = drop n xs

  abbrev pub replicate : ℕ → A → List A
  replicate zero a = []
  replicate (suc n) a = a ∷ replicate n a

  -- The elements `vs` written one after the other from index `i` on.
  abbrev pub store : List A → ℕ → List A → List A
  store xs i [] = xs
  store xs i (v ∷ vs) = store (set xs i v) (suc i) vs

  pub length-append : (xs ys : List A) → length (xs ++ ys) ≡ length xs + length ys
  length-append [] ys = omega arith
  length-append (x ∷ xs) ys = omega (arith, length-append xs ys)

  pub length-set : (xs : List A) (i : ℕ) (v : A) → length (set xs i v) ≡ length xs
  length-set [] i v = refl
  length-set (x ∷ xs) zero v = refl
  length-set (x ∷ xs) (suc i) v = ap suc (length-set xs i v)

  pub length-take : (n : ℕ) (xs : List A) → length (take n xs) ≡ min n (length xs)
  length-take zero xs = omega arith
  length-take (suc n) [] = omega arith
  length-take (suc n) (x ∷ xs) = omega (arith, length-take n xs)

  pub length-drop : (n : ℕ) (xs : List A) → length (drop n xs) ≡ length xs - n
  length-drop zero xs = omega arith
  length-drop (suc n) [] = omega arith
  length-drop (suc n) (x ∷ xs) = omega (arith, length-drop n xs)

  pub length-replicate : (n : ℕ) (a : A) → length (replicate n a) ≡ n
  length-replicate zero a = refl
  length-replicate (suc n) a = ap suc (length-replicate n a)

  pub get_elem?-set_self :
      (xs : List A) (i : ℕ) (v : A) → i < length xs → get_elem? (set xs i v) i ≡ some v
  get_elem?-set_self [] i v h = absurd (omega arith)
  get_elem?-set_self (x ∷ xs) zero v h = refl
  get_elem?-set_self (x ∷ xs) (suc i) v h = get_elem?-set_self xs i v (omega arith)

  pub get_elem?-set_ne :
      (xs : List A) (i j : ℕ) (v : A) → i ≢ j → get_elem? (set xs i v) j ≡ get_elem? xs j
  get_elem?-set_ne [] i j v ne = refl
  get_elem?-set_ne (x ∷ xs) zero zero v ne = absurd (ne refl)
  get_elem?-set_ne (x ∷ xs) zero (suc j) v ne = refl
  get_elem?-set_ne (x ∷ xs) (suc i) zero v ne = refl
  get_elem?-set_ne (x ∷ xs) (suc i) (suc j) v ne = get_elem?-set_ne xs i j v (λ e. ne (ap suc e))

module _ {ℓ} {A : Type ℓ} where
  pub length-store : (xs : List A) (i : ℕ) (vs : List A) → length (store xs i vs) ≡ length xs
  length-store xs i [] = refl
  length-store xs i (v ∷ vs) = length-store (set xs i v) (suc i) vs ∙ length-set xs i v

  pub take-append_le : (n : ℕ) (xs ys : List A) → n ≤ length xs → take n (xs ++ ys) ≡ take n xs
  take-append_le zero xs ys h = refl
  take-append_le (suc n) [] ys h = absurd (omega arith)
  take-append_le (suc n) (x ∷ xs) ys h = ap (◌∷◌ x) (take-append_le n xs ys (omega arith))

  pub take-append_ge :
      (n k : ℕ) (xs ys : List A) → n ≡ length xs + k → take n (xs ++ ys) ≡ xs ++ take k ys
  take-append_ge n k [] ys e = ap (λ m. take m ys) (omega arith)
  take-append_ge zero k (x ∷ xs) ys e = absurd (omega arith)
  take-append_ge (suc n) k (x ∷ xs) ys e = ap (◌∷◌ x) (take-append_ge n k xs ys (omega arith))

  pub drop-append_le :
      (n : ℕ) (xs ys : List A) → n ≤ length xs → drop n (xs ++ ys) ≡ drop n xs ++ ys
  drop-append_le zero xs ys h = refl
  drop-append_le (suc n) [] ys h = absurd (omega arith)
  drop-append_le (suc n) (x ∷ xs) ys h = drop-append_le n xs ys (omega arith)

  pub drop-append_ge :
      (n k : ℕ) (xs ys : List A) → n ≡ length xs + k → drop n (xs ++ ys) ≡ drop k ys
  drop-append_ge n k [] ys e = ap (λ m. drop m ys) (omega arith)
  drop-append_ge zero k (x ∷ xs) ys e = absurd (omega arith)
  drop-append_ge (suc n) k (x ∷ xs) ys e = drop-append_ge n k xs ys (omega arith)

  pub take-nil : (n : ℕ) → take {A = A} n [] ≡ []
  take-nil zero = refl
  take-nil (suc n) = refl

  pub take_of_length-le : (n : ℕ) (xs : List A) → length xs ≤ n → take n xs ≡ xs
  take_of_length-le n [] short = take-nil n
  take_of_length-le (suc n) (x ∷ xs) short = ap (◌∷◌ x) (take_of_length-le n xs (omega arith))
  take_of_length-le zero (x ∷ xs) short = absurd (omega arith)

  pub take-take : (m n : ℕ) (xs : List A) → m ≤ n → take m (take n xs) ≡ take m xs
  take-take zero n xs h = refl
  take-take (suc m) zero xs h = absurd (omega arith)
  take-take (suc m) (suc n) [] h = refl
  take-take (suc m) (suc n) (x ∷ xs) h = ap (◌∷◌ x) (take-take m n xs (omega arith))

  pub take-take-min : (m n : ℕ) (xs : List A) → take m (take n xs) ≡ take (min m n) xs
  take-take-min zero n xs = let e : 0 ≡ min zero n = omega arith in ap (λ k. take k xs) e
  take-take-min (suc m) zero xs =
      let e : 0 ≡ min (suc m) zero = omega arith in ap (λ k. take k xs) e
  take-take-min (suc m) (suc n) [] = sym (take-nil (min (suc m) (suc n)))
  take-take-min (suc m) (suc n) (x ∷ xs) =
      let e : suc (min m n) ≡ min (suc m) (suc n) = omega arith in
      ap (◌∷◌ x) (take-take-min m n xs) ∙ ap (λ k. take k (x ∷ xs)) e

  pub drop_of_length-le : (n : ℕ) (xs : List A) → length xs ≤ n → drop n xs ≡ []
  drop_of_length-le zero [] h = refl
  drop_of_length-le zero (x ∷ xs) h = absurd (omega arith)
  drop_of_length-le (suc n) [] h = refl
  drop_of_length-le (suc n) (x ∷ xs) h = drop_of_length-le n xs (omega arith)

  pub drop-take : (m n k : ℕ) (xs : List A) → n ≡ m + k → drop m (take n xs) ≡ take k (drop m xs)
  drop-take zero n k xs e = ap (λ i. take i xs) (omega arith)
  drop-take (suc m) zero k xs e = absurd (omega arith)
  drop-take (suc m) (suc n) zero [] e = refl
  drop-take (suc m) (suc n) (suc k) [] e = refl
  drop-take (suc m) (suc n) k (x ∷ xs) e = drop-take m n k xs (omega arith)

  pub drop-drop : (m n k : ℕ) (xs : List A) → k ≡ n + m → drop m (drop n xs) ≡ drop k xs
  drop-drop m zero k xs e = ap (λ i. drop i xs) (omega arith)
  drop-drop m (suc n) zero xs e = absurd (omega arith)
  drop-drop zero (suc n) (suc k) [] e = refl
  drop-drop (suc m) (suc n) (suc k) [] e = refl
  drop-drop m (suc n) (suc k) (x ∷ xs) e = drop-drop m n k xs (omega arith)

  -- A write at or behind the cut.
  pub drop-set_ge :
      (b i k : ℕ) (xs : List A) (v : A) → i ≡ b + k → drop b (set xs i v) ≡ set (drop b xs) k v
  drop-set_ge zero i k xs v e = ap (λ j. set xs j v) (omega arith)
  drop-set_ge (suc b) i k [] v e = refl
  drop-set_ge (suc b) zero k (x ∷ xs) v e = absurd (omega arith)
  drop-set_ge (suc b) (suc i) k (x ∷ xs) v e = drop-set_ge b i k xs v (omega arith)

  -- A write in front of the cut.
  pub drop-set_lt : (b i : ℕ) (xs : List A) (v : A) → i < b → drop b (set xs i v) ≡ drop b xs
  drop-set_lt zero i xs v h = absurd (omega arith)
  drop-set_lt (suc b) i [] v h = refl
  drop-set_lt (suc b) zero (x ∷ xs) v h = refl
  drop-set_lt (suc b) (suc i) (x ∷ xs) v h = drop-set_lt b i xs v (omega arith)

  -- Writing just behind a prefix extends it.
  pub take-set_self :
      (i : ℕ) (xs : List A) (v : A)
      → i < length xs
      → take (suc i) (set xs i v) ≡ take i xs ++ v ∷ []
  take-set_self i [] v h = absurd (omega arith)
  take-set_self zero (x ∷ xs) v h = refl
  take-set_self (suc i) (x ∷ xs) v h = ap (◌∷◌ x) (take-set_self i xs v (omega arith))

  pub get_elem?-take-drop :
      (xs ys : List A) (b n : ℕ)
      → b < length xs
      → get_elem? (take (suc n) (drop b xs ++ ys)) 0 ≡ get_elem? xs b
  get_elem?-take-drop [] ys b n h = absurd (omega arith)
  get_elem?-take-drop (x ∷ xs) ys zero n h = refl
  get_elem?-take-drop (x ∷ xs) ys (suc b) n h = get_elem?-take-drop xs ys b n (omega arith)

  -- A stretch taken in two pieces.
  pub take-append-take-drop :
      (m n k : ℕ) (xs : List A) → n ≡ m + k → take m xs ++ take k (drop m xs) ≡ take n xs
  take-append-take-drop zero n k xs e = ap (λ i. take i xs) (omega arith)
  take-append-take-drop (suc m) zero k xs e = absurd (omega arith)
  take-append-take-drop (suc m) (suc n) k [] e = take-nil k
  take-append-take-drop (suc m) (suc n) k (x ∷ xs) e =
      ap (◌∷◌ x) (take-append-take-drop m n k xs (omega arith))

  pub lt_of_get_elem? : (xs : List A) (i : ℕ) {x : A} → get_elem? xs i ≡ some x → i < length xs
  lt_of_get_elem? [] i h = cc
  lt_of_get_elem? (y ∷ xs) zero h = omega arith
  lt_of_get_elem? (y ∷ xs) (suc i) h = omega (arith, lt_of_get_elem? xs i h)

  pub get_elem?-lt : (xs : List A) (i : ℕ) → i < length xs → (x : A) × (get_elem? xs i ≡ some x)
  get_elem?-lt [] i h = absurd (omega arith)
  get_elem?-lt (x ∷ xs) zero h = (x, refl)
  get_elem?-lt (x ∷ xs) (suc i) h = get_elem?-lt xs i (omega arith)

  pub get_elem?-append_length :
      (xs : List A) (y : A) (ys : List A) → get_elem? (xs ++ y ∷ ys) (length xs) ≡ some y
  get_elem?-append_length [] y ys = refl
  get_elem?-append_length (x ∷ xs) y ys = get_elem?-append_length xs y ys

  pub set-append_length :
      (xs : List A) (y : A) (ys : List A) (v : A) → set (xs ++ y ∷ ys) (length xs) v ≡ xs ++ v ∷ ys
  set-append_length [] y ys v = refl
  set-append_length (x ∷ xs) y ys v = ap (◌∷◌ x) (set-append_length xs y ys v)

  get_elem?-replicate : (n i : ℕ) (a : A) → i < n → get_elem? (replicate n a) i ≡ some a
  get_elem?-replicate zero i a h = absurd (omega arith)
  get_elem?-replicate (suc n) zero a h = refl
  get_elem?-replicate (suc n) (suc i) a h = get_elem?-replicate n i a (omega arith)

  pub get_elem?-append_replicate :
      (xs : List A) (n i : ℕ) (a : A)
      → i < n
      → get_elem? (xs ++ replicate n a) (length xs + i) ≡ some a
  get_elem?-append_replicate [] n i a h =
      let same : 0 + i ≡ i = omega arith in
      ap (get_elem? (replicate n a)) same ∙ get_elem?-replicate n i a h
  get_elem?-append_replicate (x ∷ xs) n i a h =
      let step : suc (length xs) + i ≡ suc (length xs + i) = omega arith in
      ap (get_elem? (x ∷ xs ++ replicate n a)) step ∙ get_elem?-append_replicate xs n i a h

  pub replicate-append : (m n : ℕ) (a : A) → replicate m a ++ replicate n a ≡ replicate (m + n) a
  replicate-append zero n a = ap (λ k. replicate k a) (omega arith)
  replicate-append (suc m) n a =
      let step : suc (m + n) ≡ suc m + n = omega arith in
      ap (◌∷◌ a) (replicate-append m n a) ∙ ap (λ k. replicate k a) step
