-- ===== src/Validate/Values.antt =====
-- validate_config_keyval of lib/validate.c, and the checks that it shares with sections.
use disir_c.Prelude.{
  ℕ, ◌+◌, Bool, true, not, ◌&&◌, Option, none, some, List, [], ◌∷◌, ◌==◌, if◌then◌else◌,
}
use disir_c.Prelude.Int.{ℤ, pos, leb_ℤ, eqb_ℤ}
use disir_c.Status.{
  Status, ok, internal_error, mold_missing, restriction_violated, wrong_value_type, is_ok,
}
use disir_c.Value.{string, integer, float, boolean, enum, unknown, type_number}
use disir_c.Version.{Version}
use disir_c.Restriction.{Doubles}
use disir_c.Restriction.Entries.{Element, entries_maximum}
use disir_c.Restriction.Exclusive.{Question, exclusive_value_check, same_text}
use disir_c.Validate.{Flags, MoldElement, Keyval}

-- How many of the names are `name`: the size of what dc_find_elements collects.
abbrev pub occurrences : List ℕ → List (List ℕ) → ℕ
occurrences name [] = 0
occurrences name (other ∷ names) = (if same_text other name then 1 else 0) + occurrences name names

-- What a child reads of its parent: whether it is finalized, and the names of its elements.
pub record Parent : Type 0 where
  pub finalized : Bool
  pub names : List (List ℕ)

module _ (D : Doubles) where
  -- The element as dx_restriction_entries_value sees it at a version.
  abbrev pub at_version : Version → MoldElement D → Element
  at_version v m = record {
    element_introduced = m.introduced;
    element_deprecated = m.deprecated;
    version = v;
  }

  -- validate_finalized_parent_constructing_child_violating_max_restriction
  abbrev pub validate_room : Version → Parent → Flags → MoldElement D → List ℕ → Status
  validate_room v parent f m name =
      let max : ℤ = entries_maximum D (at_version v m) m.restrictions in
      if f.finalized
      then ok
      else if not parent.finalized
      then ok
      else if not (eqb_ℤ max (pos 0)) && leb_ℤ max (pos (occurrences name parent.names))
      then restriction_violated
      else ok

  -- What dx_restriction_exclusive_value_check is asked: its three arguments, and what it reads of the
  -- context. `unset` is what an unset variable of type double holds.
  abbrev pub asked : Version → D.Double → Keyval D → ℤ → D.Double → Option (List ℕ) → Question D
  asked v unset k n x text = record {
    config_version = v;
    value_type = k.value_type;
    integer_value = n;
    float_value = x;
    string_value = text;
    unset = unset;
  }

  -- The call for each type, with 0 and NULL for the values that the type does not have.
  abbrev pub question : Version → D.Double → Keyval D → Question D
  question v unset k = elim k.value_type [
    | integer ↦ asked v unset k k.dv_integer (D.of_integer (pos 0)) none
    | float ↦ asked v unset k (pos 0) k.dv_float none
    | _ ↦ asked v unset k (pos 0) (D.of_integer (pos 0)) k.dv_string
  ]

  -- `none` is a fault.
  abbrev pub validate_exclusive_restrictions :
      Version → D.Double → Keyval D → MoldElement D → Option Status
  validate_exclusive_restrictions v unset k m = elim k.value_type [
    | integer ↦ exclusive_value_check D true (question v unset k) m.restrictions
    | float ↦ exclusive_value_check D true (question v unset k) m.restrictions
    | enum ↦ exclusive_value_check D true (question v unset k) m.restrictions
    | string ↦ some ok
    | boolean ↦ some ok
    | unknown ↦ some internal_error
  ]

  -- The part of validate_config_keyval behind the search for the mold equivalent.
  abbrev pub validate_against :
      Version → D.Double → Parent → Flags → Keyval D → MoldElement D → Option Status
  validate_against v unset parent f k m =
      let room : Status = validate_room v parent f m k.kv_name in
      if not (is_ok room)
      then some room
      else if not (type_number m.value_type == type_number k.value_type)
      then some wrong_value_type
      else validate_exclusive_restrictions v unset k m

  -- validate_config_keyval
  abbrev pub validate_config_keyval : Version → D.Double → Parent → Flags → Keyval D → Option Status
  validate_config_keyval v unset parent f k = elim k.kv_mold_equiv [
    | none ↦ some mold_missing
    | some m ↦ validate_against v unset parent f k m
  ]
