-- ===== src/Validate/Inclusive.antt =====
-- validate_inclusive_restrictions and validate_config_section of lib/validate.c: the numbers of
-- elements that a config or a section must have.
use disir_c.Prelude.{
  ℕ, Bool, true, false, not, ◌&&◌, ◌||◌, none, some, List, [], ◌∷◌, ltb, ◌==◌, if◌then◌else◌,
}
use disir_c.Prelude.Int.{ℤ, pos, negsuc, ltb_ℤ, eqb_ℤ}
use disir_c.Status.{Status, ok, mold_missing, restriction_violated, wrong_value_type, is_ok}
use disir_c.Value.{unknown, type_number}
use disir_c.Version.{Version}
use disir_c.Restriction.{Doubles}
use disir_c.Restriction.Entries.{entries_minimum, entries_maximum}
use disir_c.Validate.{Flags, MoldElement, Section}
use disir_c.Validate.Values.{Parent, occurrences, at_version, validate_room}

module _ (D : Doubles) (v : Version) where
  -- The three tests on the number of elements of the name.
  abbrev pub is_violated : ℤ → ℤ → ℕ → Bool
  is_violated min max size =
      ltb_ℤ (pos size) min
      || ((eqb_ℤ max (negsuc 0) && ltb 0 size) || (ltb_ℤ max (pos size) && ltb_ℤ (pos 0) max))

  -- One round of the loop: whether the element of the mold finds its restrictions violated.
  abbrev pub violates : List (List ℕ) → MoldElement D → Bool
  violates names m =
      is_violated (entries_minimum D (at_version D v m) m.restrictions)
        (entries_maximum D (at_version D v m) m.restrictions) (occurrences m.name names)

  -- The loop over the elements of the mold: the variable `invalid`, which is violated from the
  -- first violation on.
  abbrev pub inclusive_from : Bool → List (List ℕ) → List (MoldElement D) → Bool
  inclusive_from invalid names [] = invalid
  inclusive_from invalid names (m ∷ ms) =
      inclusive_from (if violates names m then true else invalid) names ms

  -- The status, and the state bits of the context: INVALID is set with each violation.
  abbrev pub validate_inclusive_restrictions :
      Flags → List (List ℕ) → List (MoldElement D) → Status × Flags
  validate_inclusive_restrictions f names ms =
      if inclusive_from false names ms
      then (restriction_violated, record f { invalid = true })
      else (ok, f)

  -- Behind the check for room: a section stands for a section, and has the elements it must have.
  abbrev pub validate_section_kind :
      Flags → Section D → MoldElement D → List (List ℕ) → Status × Flags
  validate_section_kind f s m names =
      if not (type_number m.value_type == type_number unknown)
      then (wrong_value_type, f)
      else validate_inclusive_restrictions f names s.mold_elements

  -- validate_config_section; `names` are those of the section's own elements.
  abbrev pub validate_config_section : Parent → Flags → Section D → List (List ℕ) → Status × Flags
  validate_config_section parent f s names = elim s.se_mold_equiv [
    | none ↦ (mold_missing, f)
    | some m ↦
        if not (is_ok (validate_room D v parent f m s.se_name))
        then (validate_room D v parent f m s.se_name, f)
        else validate_section_kind f s m names
  ]
