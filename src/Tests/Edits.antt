-- ===== src/Tests/Edits.antt =====
-- A restriction of an integer keyval in construction.
use disir_c.Prelude.{◌≡◌, ◌↔◌, refl, true, false, none, some, [], ◌∷◌, inl}
use disir_c.Prelude.Int.{ℤ, pos}
use disir_c.Context.{restriction_type}
use disir_c.Status.{ok}
use disir_c.Value.{integer}
use disir_c.Restriction.{exc_value_enum, exc_value_range, unknown_restriction}
use disir_c.Restriction.Names.{string_to_enum, enum_string, string_to_enum_iff}
use disir_c.Restriction.Edit.{
  RestrictionContext, keyval_parent, set_restriction_type, restriction_set_range,
  restriction_get_range,
}
use disir_c.Restriction.Edit.Suits.{
  Suits, retype, edits, IsSuited, edits-IsSuited, set_restriction_type-Suits,
}
use disir_c.Tests.Restrictions.{doubles}

abbrev fresh : RestrictionContext doubles
fresh = record {
  cx_type = restriction_type;
  destroyed = false;
  finalized = false;
  parent = keyval_parent integer;
  re_type = unknown_restriction;
  re_value_string = none;
  re_value_min = pos 0;
  re_value_max = pos 0;
  re_value_numeric = pos 0;
}

abbrev whole : ℤ → ℤ
whole n = n

string_to_enum_iff_example :
    (string_to_enum (82 ∷ 65 ∷ 78 ∷ 71 ∷ 69 ∷ []) ≡ exc_value_range)
    ↔ (82 ∷ 65 ∷ 78 ∷ 71 ∷ 69 ∷ [] ≡ enum_string exc_value_range)
string_to_enum_iff_example =
    string_to_enum_iff (82 ∷ 65 ∷ 78 ∷ 71 ∷ 69 ∷ []) exc_value_range (λ e. cc)

edits-IsSuited_example :
    IsSuited doubles whole
      (edits doubles whole (retype exc_value_enum ∷ retype exc_value_range ∷ []) fresh)
edits-IsSuited_example =
    edits-IsSuited doubles whole (retype exc_value_enum ∷ retype exc_value_range ∷ []) fresh
      (inl refl)

set_restriction_type-Suits_example :
    (set_restriction_type doubles exc_value_range fresh
      ≡ (ok, record fresh { re_type = exc_value_range }))
    ↔ Suits (keyval_parent integer) exc_value_range
set_restriction_type-Suits_example =
    set_restriction_type-Suits doubles exc_value_range fresh
      (record { started = refl; building = refl })

-- A range is read back as it was set.
read_back :
    restriction_get_range doubles
      (restriction_set_range doubles whole
        (pos 1)
        (pos 9)
        (set_restriction_type doubles exc_value_range fresh).1).1
      true
    ≡ (ok, some (pos 1, pos 9))
read_back = refl
