-- ===== src/Restriction/Permits.antt =====
-- What the exclusive restrictions of lib/context_restriction.c permit, stated without the loop of
-- dx_restriction_exclusive_value_check.
use disir_c.Prelude.{
  ℕ, Bool, true, false, not, ◌&&◌, ◌||◌, Option, none, some, List, [], ◌∷◌, if◌then◌else◌,
}
use disir_c.Status.{Status, ok, restriction_violated}
use disir_c.Value.{ValueType, integer, float, enum}
use disir_c.Restriction.{
  Doubles, Restriction, RestrictionType, exc_value_enum, exc_value_range, exc_value_numeric,
  is_inclusive,
}
use disir_c.Restriction.Exclusive.{Question, not_yet, no_longer}
use disir_c.Restriction.Texts.{is_same}

abbrev pub any {ℓ} : {A : Type ℓ} → (A → Bool) → List A → Bool
any p [] = false
any p (x ∷ xs) = p x || any p xs

abbrev pub All {ℓ} : {A : Type ℓ} → (A → Type 0) → List A → Type 0
All P [] = Unit
All P (x ∷ xs) = P x × All P xs

abbrev pub is_present {ℓ} : {A : Type ℓ} → Option A → Bool
is_present none = false
is_present (some a) = true

-- Two texts, neither of them NULL, that are equal.
abbrev pub are_same : Option (List ℕ) → Option (List ℕ) → Bool
are_same (some s) (some t) = is_same s t
are_same _ _ = false

abbrev pub is_enum_entry : RestrictionType → Bool
is_enum_entry exc_value_enum = true
is_enum_entry _ = false

abbrev pub is_enum : ValueType → Bool
is_enum enum = true
is_enum _ = false

module _ (D : Doubles) (k : Question D) where
  -- The number that a range or a numeric restriction is about.
  abbrev pub number : D.Double
  number = elim k.value_type [
    | integer ↦ D.of_integer k.integer_value
    | float ↦ k.float_value
    | _ ↦ k.unset
  ]

  -- What an exclusive restriction permits: the numbers from its minimum to its maximum, its number, or
  -- its text.
  abbrev pub meets : Restriction D → Bool
  meets e = elim e.re_type [
    | exc_value_range ↦ D.leb_double e.re_value_min number && D.leb_double number e.re_value_max
    | exc_value_numeric ↦ D.eqb_double number e.re_value_numeric
    | exc_value_enum ↦ are_same k.string_value e.re_value_string
    | _ ↦ false
  ]

  -- A text is to be compared, and one of the two is NULL.
  abbrev pub is_unreadable : Restriction D → Bool
  is_unreadable e =
      is_enum_entry e.re_type && not (is_present k.string_value && is_present e.re_value_string)

  -- The check by what is in force, in which the versions are not looked at.
  module _ (force : Restriction D → Bool) where
    -- A restriction in force that calls strcmp with NULL.
    abbrev pub faults : Restriction D → Bool
    faults e = force e && is_unreadable e

    abbrev pub allows_by : Restriction D → Bool
    allows_by e = force e && meets e

    -- A fault; or ok, where a restriction in force permits the value, or none is in force and the value
    -- is not an enum; or else a violation.
    abbrev pub outcome : List (Restriction D) → Option Status
    outcome es =
        if any faults es
        then none
        else some (
            if any allows_by es || (not (any force es) && not (is_enum k.value_type))
            then ok
            else restriction_violated)

  -- The tests of the loop, taken together.
  abbrev pub reached : Restriction D → Bool
  reached e = not (is_inclusive e.re_type) && (not (not_yet D k e) && not (no_longer D k e))

  abbrev pub is_checked : ValueType → Bool
  is_checked integer = true
  is_checked float = true
  is_checked enum = true
  is_checked _ = false
