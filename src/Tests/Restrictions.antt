-- ===== src/Tests/Restrictions.antt =====
-- Restrictions on a platform whose type double holds whole numbers.
use disir_c.Prelude.{none, ◌<◌, ◌≡◌, refl, List, [], ◌∷◌, arith}
use disir_c.Prelude.Int.{ℤ, pos, leb_ℤ, eqb_ℤ}
use disir_c.Value.{integer}
use disir_c.Version.{Version, version}
use disir_c.Version.Order.{rank}
use disir_c.Restriction.{Doubles, Restriction, RestrictionType, inc_entry_min, exc_value_range}
use disir_c.Restriction.Exclusive.{Question}
use disir_c.Restriction.Entries.{Element, matches, no_matches}
use disir_c.Restriction.Closest.{minimum-older}

abbrev pub doubles : Doubles
doubles = record {
  Double = ℤ;
  leb_double = leb_ℤ;
  eqb_double = eqb_ℤ;
  of_integer = λ n. n;
  to_int = λ n. n;
}

abbrev pub entry : RestrictionType → Version → ℤ → ℤ → Restriction doubles
entry kind v low high = record {
  re_type = kind;
  re_introduced = v;
  re_deprecated = version 0 0;
  re_value_string = none;
  re_value_min = low;
  re_value_max = high;
  re_value_numeric = low;
}

abbrev question : ℤ → Question doubles
question n = record {
  config_version = version 1 5;
  value_type = integer;
  integer_value = n;
  float_value = pos 0;
  string_value = none;
  unset = pos 0;
}

abbrev ranges : List (Restriction doubles)
ranges =
    entry exc_value_range (version 1 0) (pos 1) (pos 9)
    ∷ entry exc_value_range (version 2 0) (pos 20) (pos 30)
    ∷ []

abbrev element : Element
element = record {
  element_introduced = none;
  element_deprecated = version 0 0;
  version = version 2 4;
}

abbrev minima : List (Restriction doubles)
minima =
    entry inc_entry_min (version 1 0) (pos 3) (pos 0)
    ∷ entry inc_entry_min (version 2 1) (pos 2) (pos 0)
    ∷ []

minimum-older_example :
    (rank (version 1 0) < rank (version 2 1))
    × ((matches doubles (version 2 4) minima no_matches).min ≡ pos 3)
minimum-older_example =
    minimum-older doubles (entry inc_entry_min (version 1 0) (pos 3) (pos 0))
      (entry inc_entry_min (version 2 1) (pos 2) (pos 0)) 0 1 1 1 refl refl refl refl (omega arith)
      (omega arith) (omega arith)

abbrev near_minima : List (Restriction doubles)
near_minima =
    entry inc_entry_min (version 2 1) (pos 3) (pos 0)
    ∷ entry inc_entry_min (version 2 3) (pos 2) (pos 0)
    ∷ []
