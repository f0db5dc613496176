-- ===== src/Compare/Queues.antt =====
-- compare_documentation_queues, compare_default_queues and compare_restriction_queue of
-- lib/compare.c. They always return DISIR_STATUS_OK; the list is what they add to the report.
use disir_c.Prelude.{
  Bool, false, not, ◌||◌, Option, none, some, List, [], ◌∷◌, ◌++◌, ℕ, ◌==◌, if◌then◌else◌,
}
use disir_c.Prelude.Int.{pos, eqb_ℤ}
use disir_c.Value.{Platform, Value, value_compare}
use disir_c.Version.{Version, version_compare}
use disir_c.Restriction.{
  Doubles, RestrictionType, inc_entry_min, inc_entry_max, exc_value_enum, exc_value_range,
  exc_value_numeric, unknown_restriction,
}
use disir_c.Restriction.Exclusive.{same_text}
use disir_c.Compare.{
  Difference, missing_documentation, missing_default, missing_restriction, documentation_version,
  default_version, documentation_text, default_value, restriction_values, restriction_introduced,
  restriction_deprecated, different_restriction, lhs, rhs, Documentation, DefaultEntry,
  RestrictionEntry,
}

-- `dc_version_compare (…) != 0`
abbrev pub versions_differ : Version → Version → Bool
versions_differ v w = not (eqb_ℤ (version_compare v w) (pos 0))

abbrev pub restriction_number : RestrictionType → ℕ
restriction_number inc_entry_min = 1
restriction_number inc_entry_max = 2
restriction_number exc_value_enum = 3
restriction_number exc_value_range = 4
restriction_number exc_value_numeric = 5
restriction_number unknown_restriction = 6

-- Two strings differ only where there are two.
abbrev pub texts_differ : Option (List ℕ) → Option (List ℕ) → Bool
texts_differ none t = false
texts_differ (some s) none = false
texts_differ (some s) (some t) = not (same_text s t)

module _ (P : Platform) where
  abbrev pub values_differ : Value P → Value P → Bool
  values_differ v w = not (eqb_ℤ (value_compare P v w) (pos 0))

module _ (P : Platform) (D : Doubles) where
  unfoldable pub compare_documentation_queues :
      List (Documentation P D) → List (Documentation P D) → List Difference
  compare_documentation_queues [] [] = []
  compare_documentation_queues (d ∷ ds) [] = missing_documentation rhs ∷ []
  compare_documentation_queues [] (e ∷ es) = missing_documentation lhs ∷ []
  compare_documentation_queues (d ∷ ds) (e ∷ es) =
      if versions_differ d.dd_introduced e.dd_introduced
      then documentation_version d.dd_introduced e.dd_introduced ∷ []
      else if values_differ P d.dd_value e.dd_value
      then documentation_text ∷ []
      else compare_documentation_queues ds es

  unfoldable pub compare_default_queues :
      List (DefaultEntry P D) → List (DefaultEntry P D) → List Difference
  compare_default_queues [] [] = []
  compare_default_queues (d ∷ ds) [] = missing_default rhs ∷ []
  compare_default_queues [] (e ∷ es) = missing_default lhs ∷ []
  compare_default_queues (d ∷ ds) (e ∷ es) =
      if versions_differ d.de_introduced e.de_introduced
      then default_version d.de_introduced e.de_introduced ∷ []
      else if values_differ P d.de_value e.de_value
      then default_value ∷ []
      else compare_default_queues ds es

  abbrev pub numbers_differ : RestrictionEntry P D → RestrictionEntry P D → Bool
  numbers_differ r s =
      not (D.eqb_double r.re_value_numeric s.re_value_numeric)
      || (not (D.eqb_double r.re_value_min s.re_value_min)
          || (not (D.eqb_double r.re_value_max s.re_value_max)
              || texts_differ r.re_value_string s.re_value_string))

  -- The entries behind the first are not looked at.
  unfoldable pub compare_restriction_queue :
      List (RestrictionEntry P D) → List (RestrictionEntry P D) → List Difference
  compare_restriction_queue [] [] = []
  compare_restriction_queue (r ∷ rs) [] = missing_restriction rhs ∷ []
  compare_restriction_queue [] (s ∷ ss) = missing_restriction lhs ∷ []
  compare_restriction_queue (r ∷ rs) (s ∷ ss) =
      if versions_differ r.re_introduced s.re_introduced
      then restriction_introduced r.re_introduced s.re_introduced ∷ []
      else if versions_differ r.re_deprecated s.re_deprecated
      then restriction_deprecated r.re_deprecated s.re_deprecated ∷ []
      else if not (restriction_number r.re_type == restriction_number s.re_type)
      then different_restriction r.re_type s.re_type ∷ []
      else compare_documentation_queues r.re_documentation_queue s.re_documentation_queue
        ++ (if numbers_differ r s then restriction_values ∷ [] else [])
