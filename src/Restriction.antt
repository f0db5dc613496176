-- ===== src/Restriction.antt =====
-- Restrictions on sections and keyvals: lib/context_restriction.c, struct disir_restriction of
-- lib/include/restriction.h. A queue of restrictions is the list that it represents (Queue).
pub mod Exclusive
pub mod Texts
pub mod Permits
pub mod Outcome
pub mod Fulfilled
pub mod Entries
pub mod Closest
pub mod Latest
pub mod Names
pub mod Edit
use disir_c.Prelude.{ℕ, Bool, true, false, not, ◌&&◌, ◌||◌, Option, List, ◌==◌}
use disir_c.Prelude.Int.{ℤ, pos, ltb_ℤ, leb_ℤ}
use disir_c.Version.{Version, version_compare}

-- enum disir_restriction_type of include/disir/disir.h
pub data RestrictionType : Type 0 where
  inc_entry_min inc_entry_max exc_value_enum exc_value_range exc_value_numeric : RestrictionType
  unknown_restriction : RestrictionType

-- What the machine provides for the type double: comparisons and conversions.
pub record Doubles : Type 1 where
  pub Double : Type 0
  pub leb_double : Double → Double → Bool
  pub eqb_double : Double → Double → Bool
  pub of_integer : ℤ → Double
  pub to_int : Double → ℤ

module _ (D : Doubles) where
  pub record Restriction : Type 0 where
    pub re_type : RestrictionType
    pub re_introduced : Version
    pub re_deprecated : Version
    pub re_value_string : Option (List ℕ)
    pub re_value_min : D.Double
    pub re_value_max : D.Double
    pub re_value_numeric : D.Double

abbrev pub is_inclusive : RestrictionType → Bool
is_inclusive inc_entry_min = true
is_inclusive inc_entry_max = true
is_inclusive _ = false

-- A version that is set: one of its components is not zero.
abbrev pub is_set : Version → Bool
is_set v = not (v.sv_major == 0) || not (v.sv_minor == 0)
