-- ===== src/Restriction/Fulfilled.antt =====
-- dx_restriction_exclusive_value_check of lib/context_restriction.c: a value passes if one of the
-- restrictions in force allows it.
use disir_c.Prelude.{
  ℕ, ◌≡◌, refl, ap, ◌∙◌, Bool, true, not, ◌&&◌, ◌||◌, none, some, List, [], ◌∷◌, ltb, leb,
  if◌then◌else◌, arith,
}
use disir_c.Prelude.Int.{ℤ, pos, ltb_ℤ, leb_ℤ}
use disir_c.Status.{ok, restriction_violated}
use disir_c.Version.{version_compare}
use disir_c.Version.Order.{rank, Fits, version_compare-order}
use disir_c.Restriction.{Doubles, Restriction, is_inclusive, is_set}
use disir_c.Restriction.Exclusive.{Question, not_yet, no_longer, exclusive_value_check}
use disir_c.Restriction.Permits.{any, All, is_enum, meets, is_unreadable, reached, is_checked}
use disir_c.Restriction.Outcome.{exclusive_value_check-outcome}

not_negative : (c : ℤ) → leb_ℤ (pos 0) c ≡ not (ltb_ℤ c (pos 0))
not_negative c = ground arith

not_before : (a b : ℕ) → not (ltb a b) ≡ leb b a
not_before a b = ground arith

module _ (D : Doubles) (k : Question D) where
  -- An exclusive restriction that is in force at the version of the config.
  abbrev pub in_force : Restriction D → Bool
  in_force e =
      not (is_inclusive e.re_type)
      && (leb (rank e.re_introduced) (rank k.config_version)
          && not (is_set e.re_deprecated && leb (rank e.re_deprecated) (rank k.config_version)))

  abbrev pub allows : Restriction D → Bool
  allows e = in_force e && meets D k e

  -- The versions of an entry fit in an int.
  pub record EntryFits (e : Restriction D) : Type 0 where
    pub introduced : Fits e.re_introduced
    pub deprecated : Fits e.re_deprecated

  module _ (fc : Fits k.config_version) where
    not_yet-rank :
        (e : Restriction D)
        → EntryFits e
        → not_yet D k e ≡ not (leb (rank e.re_introduced) (rank k.config_version))
    not_yet-rank e f =
        (version_compare-order k.config_version e.re_introduced fc f.introduced).0 ∙ ground arith

    no_longer-rank :
        (e : Restriction D)
        → EntryFits e
        → no_longer D k e
          ≡ (is_set e.re_deprecated && leb (rank e.re_deprecated) (rank k.config_version))
    no_longer-rank e f =
        ap (λ b. is_set e.re_deprecated && b)
          (not_negative (version_compare k.config_version e.re_deprecated)
            ∙ ap not (version_compare-order k.config_version e.re_deprecated fc f.deprecated).0
            ∙ not_before (rank k.config_version) (rank e.re_deprecated))

    not-not : (b : Bool) → not (not b) ≡ b
    not-not b = ground arith

    reached-in_force : (e : Restriction D) → EntryFits e → reached D k e ≡ in_force e
    reached-in_force e f =
        ap (λ b. not (is_inclusive e.re_type) && b)
          (λ i.
            ((ap not (not_yet-rank e f)
                ∙ not-not (leb (rank e.re_introduced) (rank k.config_version)))
              i)
            && not (no_longer-rank e f i))

    -- Whatever else is asked of an entry, the code's tests of the versions may be put for the order of
    -- the versions.
    any-in_force :
        (p : Restriction D → Bool) (es : List (Restriction D))
        → All EntryFits es
        → any (λ e. reached D k e && p e) es ≡ any (λ e. in_force e && p e) es
    any-in_force p [] f = refl
    any-in_force p (e ∷ es) f = λ i. (reached-in_force e f.0 i && p e) || any-in_force p es f.1 i

    any-reached :
        (es : List (Restriction D)) → All EntryFits es → any (reached D k) es ≡ any in_force es
    any-reached [] f = refl
    any-reached (e ∷ es) f = λ i. reached-in_force e f.0 i || any-reached es f.1 i

    pub exclusive_value_check-allows :
        (es : List (Restriction D))
        → is_checked D k k.value_type ≡ true
        → All EntryFits es
        → exclusive_value_check D true k es ≡ (
            if any (λ e. in_force e && is_unreadable D k e) es
            then none
            else some (
                if any allows es || (not (any in_force es) && not (is_enum k.value_type))
                then ok
                else restriction_violated))
    exclusive_value_check-allows es c f = exclusive_value_check-outcome D k es c ∙ λ i.
        if any-in_force (is_unreadable D k) es f i
        then none
        else some (
            if any-in_force (meets D k) es f i
              || (not (any-reached es f i) && not (is_enum k.value_type))
            then ok
            else restriction_violated)
