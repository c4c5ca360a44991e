-- ===== src/StrParser/Tests.antt =====
-- The theorems on source/StrParser.c at concrete strings.
use alib_c.Common.{
  false, true, ℕ, ◌≡◌, refl, none, some, List, [], ◌∷◌, arith, ◌-◌, ◌⊎◌, take, drop, alib_ok,
}
use alib_c.Common.Run.{ok}
use alib_c.StrParser.{
  StrParser, trim, trim_between, trim_front, trim_back, back_at, trim_it, reset_it, before, behind,
  goes_on, scan, strlen,
}
use alib_c.StrParser.Trim.{Stops}
use alib_c.StrParser.Whole.{all_among, trim_lem}

-- " ab "
abbrev text : List ℕ
text = 32 ∷ 97 ∷ 98 ∷ 32 ∷ 0 ∷ []

abbrev whole : StrParser
whole = record {
  str = record { begin = some 0; end = some 4 };
  it = record { begin = none; end = some 0 };
}

-- A space that ends in a null character is trimmed at both ends.
trim-text :
    trim text whole (32 ∷ 0 ∷ []) 0
    ≡ ok (
      alib_ok,
      record {
        str = record { begin = some 1; end = some 3 };
        it = record { begin = none; end = some 1 };
      },
    )
unfolding trim trim_between trim_front trim_back back_at trim_it reset_it before behind goes_on scan
    strlen
trim-text = refl

trim_lem_example :
    (j : ℕ) × (trim text whole (32 ∷ 0 ∷ []) 1 ≡ ok (alib_ok, trim_it whole 1 (4 - j)))
    × (all_among (32 ∷ []) (take j (drop (4 - j) text)) ≡ true)
    × ((j ≡ 2) ⊎ Stops (32 ∷ 0 ∷ []) 1 text (4 - j) false)
trim_lem_example =
    trim_lem text (32 ∷ 0 ∷ []) whole 1 0 4 refl refl (omega arith) (omega arith) (omega arith)
      (omega arith)
