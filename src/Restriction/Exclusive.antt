-- ===== src/Restriction/Exclusive.antt =====
-- dx_restriction_exclusive_value_check of lib/context_restriction.c. A C string is the list of its
-- characters, NULL is `none`, and strcmp answers 0 for equal lists; a NULL that it is called with is a
-- fault. What the function writes to its message buffer and to the log is left out.
use disir_c.Prelude.{
  ℕ, ◌+◌, Bool, true, false, not, ◌&&◌, Option, none, some, List, [], ◌∷◌, ltb, ◌==◌, if◌then◌else◌,
  length,
}
use disir_c.Prelude.Int.{ℤ, pos, ltb_ℤ, leb_ℤ}
use disir_c.Status.{Status, ok, internal_error, restriction_violated}
use disir_c.Value.{ValueType, integer, float, enum}
use disir_c.Version.{Version, version_compare}
use disir_c.Restriction.{
  Doubles, Restriction, exc_value_enum, exc_value_range, exc_value_numeric, is_inclusive, is_set,
}

abbrev pub same_text : List ℕ → List ℕ → Bool
same_text [] [] = true
same_text [] (y ∷ ys) = false
same_text (x ∷ xs) [] = false
same_text (x ∷ xs) (y ∷ ys) = (x == y) && same_text xs ys

-- `strcmp (s, t) == 0`
abbrev pub strcmp_equal : Option (List ℕ) → Option (List ℕ) → Option Bool
strcmp_equal (some s) (some t) = some (same_text s t)
strcmp_equal _ _ = none

-- The counters of the loop.
pub record Tally : Type 0 where
  pub exclusive_fulfilled : Bool
  pub restriction_entries_inactive : ℕ

abbrev pub skip : Tally → Tally
skip t = record t { restriction_entries_inactive = t.restriction_entries_inactive + 1 }

-- The counters at the start.
abbrev pub no_tally : Tally
no_tally = record { exclusive_fulfilled = false; restriction_entries_inactive = 0 }

-- The flag, by the test; `none` is a fault.
abbrev pub fulfil : Option Bool → Tally → Option Tally
fulfil none t = none
fulfil (some b) t = some (if b then record t { exclusive_fulfilled = true } else t)

module _ (D : Doubles) where
  -- What the function is asked about: the version of the config, and the value of the keyval.
  -- `unset` is what the variable `value` holds for an enum, for which it is not assigned.
  pub record Question : Type 0 where
    pub config_version : Version
    pub value_type : ValueType
    pub integer_value : ℤ
    pub float_value : D.Double
    pub string_value : Option (List ℕ)
    pub unset : D.Double

  abbrev pub value_of : Question → D.Double
  value_of k = elim k.value_type [
    | integer ↦ D.of_integer k.integer_value
    | float ↦ k.float_value
    | _ ↦ k.unset
  ]

  -- The test of each kind of entry; for an unknown kind there is a warning only.
  abbrev pub is_fulfilled : Question → Restriction D → Option Bool
  is_fulfilled k e = elim e.re_type [
    | exc_value_range ↦
        some (D.leb_double e.re_value_min (value_of k) && D.leb_double (value_of k) e.re_value_max)
    | exc_value_numeric ↦ some (D.eqb_double (value_of k) e.re_value_numeric)
    | exc_value_enum ↦ strcmp_equal k.string_value e.re_value_string
    | _ ↦ some false
  ]

  -- `dc_version_compare (config_version, &entry->re_introduced) < 0`
  abbrev pub not_yet : Question → Restriction D → Bool
  not_yet k e = ltb_ℤ (version_compare k.config_version e.re_introduced) (pos 0)

  abbrev pub no_longer : Question → Restriction D → Bool
  no_longer k e =
      is_set e.re_deprecated && leb_ℤ (pos 0) (version_compare k.config_version e.re_deprecated)

  -- The body of the loop.
  abbrev pub tally_entry : Question → Restriction D → Tally → Option Tally
  tally_entry k e t =
      if is_inclusive e.re_type
      then some (skip t)
      else if not_yet k e
      then some (skip t)
      else if no_longer k e
      then some (skip t)
      else fulfil (is_fulfilled k e) t

  abbrev pub tally : Question → List (Restriction D) → Tally → Option Tally
  tally k [] t = some t
  tally k (e ∷ es) t = elim (tally_entry k e t) [ none ↦ none | some u ↦ tally k es u ]

  -- Behind the loop: the two reasons to find the value in violation.
  abbrev pub verdict : Question → ℕ → Tally → Status
  verdict k size t =
      if not t.exclusive_fulfilled && ltb t.restriction_entries_inactive size
      then restriction_violated
      else if not t.exclusive_fulfilled && (size == t.restriction_entries_inactive)
      then elim k.value_type [ enum ↦ restriction_violated | _ ↦ ok ]
      else ok

  abbrev pub check_entries : Question → List (Restriction D) → Option Status
  check_entries k es = elim (tally k es no_tally) [
    | none ↦ none
    | some t ↦ some (verdict k (length es) t)
  ]

  -- dx_restriction_exclusive_value_check; the flag says that the root context is a config.
  abbrev pub exclusive_value_check : Bool → Question → List (Restriction D) → Option Status
  exclusive_value_check false k es = some ok
  exclusive_value_check true k es = elim k.value_type [
    | integer ↦ check_entries k es
    | float ↦ check_entries k es
    | enum ↦ check_entries k es
    | _ ↦ some internal_error
  ]
