-- ===== src/AlibTypes/Parsing.antt =====
-- What is_int(), is_double() and get_string_type() accept.
use alib_c.Common.{
  ℕ, suc, ◌+◌, ◌<◌, ◌≡◌, refl, sym, ap, ◌∙◌, inl, inr, ◌⊎◌, Bool-cases, Bool, true, false, not,
  ◌||◌, some, List, [], ◌∷◌, ◌++◌, arith, length, get_elem?, ltb, ◌==◌, if◌then◌else◌,
}
use mathlib.Core.Path.{fun_ext}
use alib_c.Common.Run.{Run, ok, fault, ◌>>=◌}
use alib_c.AlibTypes.{
  is_whitespace, is_other, skip, int_from, is_int, double_from, is_double, strlen, true_string,
  false_string, matches, is_bool_n, is_bool, type_int, type_string, get_string_type,
}

double_from-int_from :
    (found dot_found : Bool) (s : List ℕ) → double_from found dot_found s ≡ int_from found s
unfolding double_from int_from
double_from-int_from found dot_found [] = refl
double_from-int_from found dot_found (c ∷ s) =
    let dot : Bool = if not dot_found then dot_found || c == 46 else dot_found in
    rw (double_from-int_from true dot s) refl

-- is_double() accepts exactly the strings that is_int() accepts, so no string with a dot in its number.
pub is_double-is_int : (str : List ℕ) → is_double str ≡ is_int str
unfolding is_double is_int
is_double-is_int str = ap (λ f. skip str >>= f) (fun_ext (double_from-int_from false false))

abbrev pub AllOf : (ℕ → Bool) → List ℕ → Type 0
AllOf p [] = Unit {0}
AllOf p (c ∷ s) = (p c ≡ true) × AllOf p s

abbrev pub is_digit : ℕ → Bool
is_digit c = not (is_other c)

abbrev pub is_stop : ℕ → Bool
is_stop c = c == 0 || is_whitespace c

-- White spaces, then at least one digit, then the end of the string or a white space.
abbrev pub Integer : List ℕ → Type 0
Integer str =
    (ws : List ℕ) × (ds : List ℕ) × (c : ℕ) × (rest : List ℕ) × (str ≡ ws ++ (ds ++ c ∷ rest))
    × AllOf is_whitespace ws
    × AllOf is_digit ds
    × (0 < length ds)
    × (is_stop c ≡ true)

digit-stop : (c : ℕ) → is_digit c ≡ true → is_stop c ≡ false
unfolding is_other is_whitespace
digit-stop c d = ground arith

digit-whitespace : (c : ℕ) → is_digit c ≡ true → is_whitespace c ≡ false
unfolding is_other is_whitespace
digit-whitespace c d = ground arith

digit-other : (c : ℕ) → is_digit c ≡ true → is_other c ≡ false
unfolding is_other
digit-other c d = ground arith

int_from-digits :
    (found : Bool) (ds : List ℕ) (c : ℕ) (rest : List ℕ)
    → AllOf is_digit ds
    → is_stop c ≡ true
    → (found ≡ true) ⊎ (0 < length ds)
    → int_from found (ds ++ c ∷ rest) ≡ ok true
unfolding int_from
int_from-digits found [] c rest ds stop (inl yes') = rw (stop, yes') refl
int_from-digits found [] c rest ds stop (inr some') = absurd (omega arith)
int_from-digits found (d ∷ ds) c rest (digit, digits) stop some' =
    rw (digit-stop d digit, digit-other d digit)
      (int_from-digits true ds c rest digits stop (inl refl))

skip-digit :
    (ws : List ℕ) (d : ℕ) (rest : List ℕ)
    → AllOf is_whitespace ws
    → is_whitespace d ≡ false
    → skip (ws ++ d ∷ rest) ≡ ok (d ∷ rest)
unfolding skip
skip-digit [] d rest all other = rw other refl
skip-digit (w ∷ ws) d rest (white, all) other = rw white (skip-digit ws d rest all other)

-- is_int() accepts every string that is white spaces, then at least one digit, and then ends or goes on
-- with a white space.
pub Integer-is_int : (str : List ℕ) → Integer str → is_int str ≡ ok true
unfolding is_int
Integer-is_int str (ws, [], c, rest, e, white, digits, some', stop) = absurd (omega arith)
Integer-is_int str (ws, d ∷ ds, c, rest, e, white, (digit, digits), some', stop) = rw e (
    rw (skip-digit ws d (ds ++ c ∷ rest) white (digit-whitespace d digit))
      (int_from-digits false (d ∷ ds) c rest (digit, digits) stop (inr some')))

abbrev value_of {ℓ} : {A : Type ℓ} → A → Run A → A
value_of a (ok b) = b
value_of a fault = a

abbrev first_white : List ℕ → Bool
first_white [] = false
first_white (c ∷ s) = is_whitespace c

int_from-true :
    (found : Bool) (s : List ℕ)
    → int_from found s ≡ ok true
    → (ds : List ℕ) × (c : ℕ) × (rest : List ℕ) × (s ≡ ds ++ c ∷ rest)
      × AllOf is_digit ds
      × ((found ≡ true) ⊎ (0 < length ds))
      × (is_stop c ≡ true)
unfolding int_from
int_from-true found [] run = cc
int_from-true found (c ∷ s) run = elim (Bool-cases (is_stop c)) [
  | inl stop ↦
      let here : ok found ≡ ok true = rw stop at run in
      ([], c, s, refl, tt, inl (ap (value_of true) here), stop)
  | inr go ↦ elim (Bool-cases (is_other c)) [
    | inl other ↦ let here : ok false ≡ ok true = rw (go, other) at run in cc
    | inr digit ↦
        let more : int_from true s ≡ ok true = rw (go, digit) at run in
        let (ds, d, rest, e, all, _, stop) = int_from-true true s more in
        (c ∷ ds, d, rest, ap (◌∷◌ c) e, (ap not digit, all), inr (omega arith), stop)
  ]
]

skip-ok :
    (s t : List ℕ)
    → skip s ≡ ok t
    → (ws : List ℕ) × (s ≡ ws ++ t) × AllOf is_whitespace ws × (first_white t ≡ false)
unfolding skip
skip-ok [] t run = cc
skip-ok (c ∷ s) t run = elim (Bool-cases (is_whitespace c)) [
  | inl white ↦
      let more : skip s ≡ ok t = rw white at run in
      let (ws, e, all, other) = skip-ok s t more in (c ∷ ws, ap (◌∷◌ c) e, (white, all), other)
  | inr other ↦
      let here : ok (c ∷ s) ≡ ok t = rw other at run in
      let same : c ∷ s ≡ t = ap (value_of t) here in
      ([], same, tt, ap first_white (sym same) ∙ other)
]

bind-ok :
    {A B : Type 0} (r : Run A) (f : A → Run B) (b : B)
    → (r >>= f) ≡ ok b
    → (a : A) × (r ≡ ok a) × (f a ≡ ok b)
bind-ok (ok a) f b run = (a, refl, run)
bind-ok fault f b run = cc

-- is_int() accepts only strings that are white spaces, then at least one digit, and then end or go on with
-- a white space.
pub is_int-Integer : (str : List ℕ) → is_int str ≡ ok true → Integer str
unfolding is_int
is_int-Integer str run =
    let (s, skipped, found) = bind-ok (skip str) (int_from false) true run in
    let (ws, e, white, _) = skip-ok str s skipped in
    let (ds, c, rest, e', digits, some', stop) = int_from-true false s found in
    (
      ws,
      ds,
      c,
      rest,
      e ∙ ap (◌++◌ ws) e',
      white,
      digits,
      elim some' [ inl no' ↦ cc | inr long ↦ long ],
      stop,
    )

pub strlen-end : (s : List ℕ) (n : ℕ) → strlen s ≡ ok n → get_elem? s n ≡ some 0
unfolding strlen
strlen-end [] n run = cc
strlen-end (c ∷ s) n run = elim (Bool-cases (c == 0)) [
  | inl here ↦
      let e : ok 0 ≡ ok n = rw here at run in
      let e' : 0 ≡ n = ap (value_of 0) e in
      let zero' : c ≡ 0 = ground arith in ap (get_elem? (c ∷ s)) (sym e') ∙ ap some zero'
  | inr more ↦
      let run' : (strlen s >>= λ m. ok (m + 1)) ≡ ok n = rw more at run in
      let (m, found, e) = bind-ok (strlen s) (λ m. ok (m + 1)) n run' in
      let e' : suc m ≡ n = (let step : suc m ≡ m + 1 = omega arith in step ∙ ap (value_of 0) e) in
      ap (get_elem? (c ∷ s)) (sym e') ∙ strlen-end s m found
]

module _ (same : List ℕ → List ℕ → ℕ → Bool) where
  matches-end :
      (s word : List ℕ) (n m : ℕ) → get_elem? s n ≡ some 0 → matches same s n word m ≡ ok false
  unfolding matches is_whitespace
  matches-end s word n m e = elim (Bool-cases (same s word m)) [
    | inl equal ↦ rw (equal, e) refl
    | inr other ↦ rw other refl
  ]

  -- is_bool() accepts no string that starts with a character that is no white space: it looks for a white
  -- space where the string has its NUL.
  pub is_bool-false :
      (c : ℕ) (s : List ℕ) (n : ℕ)
      → is_whitespace c ≡ false
      → strlen (c ∷ s) ≡ ok n
      → is_bool same (c ∷ s) ≡ ok false
  unfolding is_bool is_bool_n skip
  is_bool-false c s n other len =
      let end : get_elem? (c ∷ s) n ≡ some 0 = strlen-end (c ∷ s) n len in
      elim (Bool-cases (ltb n 4)) [
        | inl short ↦ rw (len, other, short) refl
        | inr long ↦
            rw
              (
                len,
                other,
                long,
                matches-end (c ∷ s) true_string n 4 end,
                matches-end (c ∷ s) false_string n 5 end,
              )
              refl
      ]

  -- get_string_type() of a string that starts with a character that is no white space is the type of an
  -- integer if is_int() accepts it, and otherwise that of a string: never a double or a boolean.
  pub get_string_type_lem :
      (c : ℕ) (s : List ℕ) (n : ℕ) (i : Bool)
      → is_whitespace c ≡ false
      → strlen (c ∷ s) ≡ ok n
      → is_int (c ∷ s) ≡ ok i
      → get_string_type same (c ∷ s) ≡ ok (if i then type_int else type_string)
  unfolding get_string_type
  get_string_type_lem c s n true other len int = rw int refl
  get_string_type_lem c s n false other len int =
      rw (int, is_double-is_int (c ∷ s), int, is_bool-false c s n other len) refl
