-- ===== src/Restriction/Outcome.antt =====
-- The loop of dx_restriction_exclusive_value_check, in lib/context_restriction.c, and what it comes
-- to.
use disir_c.Prelude.{
  ℕ, ◌+◌, ◌≤◌, ◌≡◌, refl, ap, ◌∙◌, Bool, true, false, not, ◌&&◌, ◌||◌, Option, none, some, List, [],
  ◌∷◌, ltb, if◌then◌else◌, length, arith, Bool-cases, inl, inr,
}
use disir_c.Status.{ok, restriction_violated}
use disir_c.Restriction.{
  Doubles, Restriction, RestrictionType, exc_value_enum, exc_value_range, exc_value_numeric,
  inc_entry_min, inc_entry_max, unknown_restriction, is_inclusive,
}
use disir_c.Restriction.Exclusive.{
  strcmp_equal, Question, Tally, skip, fulfil, is_fulfilled, not_yet, no_longer, tally_entry, tally,
  no_tally, verdict, check_entries, exclusive_value_check,
}
use disir_c.Restriction.Texts.{same_text-is_same}
use disir_c.Restriction.Permits.{
  any, is_present, are_same, is_enum, meets, is_unreadable, reached, faults, allows_by, outcome,
  is_checked,
}

-- One round of the loop, on what its tests answer.
abbrev round : Bool → Bool → Bool → Option Bool → Tally → Option Tally
round inclusive early late met t =
    if inclusive
    then some (skip t)
    else if early
    then some (skip t)
    else if late
    then some (skip t)
    else fulfil met t

-- The counters behind an entry, by whether it is in force and what its test answers.
abbrev counted : Bool → Option Bool → Tally → Option Tally
counted false met t = some (skip t)
counted true met t = fulfil met t

round-counted :
    (inclusive early late : Bool) (met : Option Bool) (t : Tally)
    → round inclusive early late met t ≡ counted (not inclusive && (not early && not late)) met t
round-counted true early late met t = refl
round-counted false true late met t = refl
round-counted false false true met t = refl
round-counted false false false met t = refl

module _ (D : Doubles) (k : Question D) where
  texts-meet :
      (s t : Option (List ℕ))
      → strcmp_equal s t
        ≡ (if not (is_present s && is_present t) then none else some (are_same s t))
  texts-meet none t = refl
  texts-meet (some s) none = refl
  texts-meet (some s) (some t) = ap some (same_text-is_same s t)

  kinds-meet :
      (e : Restriction D) (kind : RestrictionType)
      → is_fulfilled D k (record e { re_type = kind }) ≡ (
          if is_unreadable D k (record e { re_type = kind })
          then none
          else some (meets D k (record e { re_type = kind })))
  kinds-meet e inc_entry_min = refl
  kinds-meet e inc_entry_max = refl
  kinds-meet e exc_value_enum = texts-meet k.string_value e.re_value_string
  kinds-meet e exc_value_range = refl
  kinds-meet e exc_value_numeric = refl
  kinds-meet e unknown_restriction = refl

  module _ (force : Restriction D → Bool) where
    -- How many entries are not in force.
    abbrev idle : List (Restriction D) → ℕ
    idle [] = 0
    idle (e ∷ es) = (if force e then 0 else 1) + idle es

    idle-le : (es : List (Restriction D)) → idle es ≤ length es
    idle-le [] = omega arith
    idle-le (e ∷ es) = elim (Bool-cases (force e)) [
      | inl a ↦ rw a (omega (arith, idle-le es))
      | inr a ↦ rw a (omega (arith, idle-le es))
    ]

    idle-any : (es : List (Restriction D)) → ltb (idle es) (length es) ≡ any force es
    idle-any [] = refl
    idle-any (e ∷ es) = elim (Bool-cases (force e)) [
      | inl a ↦ rw a (ground (arith, idle-le es))
      | inr a ↦ rw a (ground (arith, idle-any es))
    ]

  -- The counters, by whether a fault happens, an entry allows the value, and how many are idle.
  abbrev counters : Bool → Bool → ℕ → Option Tally
  counters fault met n =
      if fault
      then none
      else some (record { exclusive_fulfilled = met; restriction_entries_inactive = n })

  counters-agree :
      (fault met met' : Bool) (n n' : ℕ)
      → met ≡ met'
      → n ≡ n'
      → counters fault met n ≡ counters fault met' n'
  counters-agree fault met met' n n' h e = λ i. counters fault (h i) (e i)

  -- The counters of the rest, behind an entry.
  counters-step :
      (force unreadable met fault others : Bool) (n : ℕ) (t : Tally)
      → (elim (counted force (if unreadable then none else some met) t) [
        | none ↦ none
        | some u ↦
            counters fault (others || u.exclusive_fulfilled) (u.restriction_entries_inactive + n)
      ])
        ≡ counters
            ((force && unreadable) || fault)
            (((force && met) || others) || t.exclusive_fulfilled)
            (t.restriction_entries_inactive + ((if force then 0 else 1) + n))
  counters-step false unreadable met fault others n t =
      counters-agree fault _ _ _ _ refl (omega arith)
  counters-step true true met fault others n t = refl
  counters-step true false true fault others n t =
      counters-agree fault _ _ _ _ (ground arith) (omega arith)
  counters-step true false false fault others n t = counters-agree fault _ _ _ _ refl (omega arith)

  tally_entry-counted :
      (e : Restriction D) (t : Tally)
      → tally_entry D k e t
        ≡ counted (reached D k e) (if is_unreadable D k e then none else some (meets D k e)) t
  tally_entry-counted e t =
      round-counted (is_inclusive e.re_type) (not_yet D k e) (no_longer D k e) (is_fulfilled D k e)
        t
      ∙ ap (λ o. counted (reached D k e) o t) (kinds-meet e e.re_type)

  tally-counters :
      (es : List (Restriction D)) (t : Tally)
      → tally D k es t
        ≡ counters
            (any (faults D k (reached D k)) es)
            (any (allows_by D k (reached D k)) es || t.exclusive_fulfilled)
            (t.restriction_entries_inactive + idle (reached D k) es)
  tally-counters [] t = counters-agree false _ _ _ _ refl (omega arith)
  tally-counters (e ∷ es) t =
      (λ i. elim (tally_entry-counted e t i) [ none ↦ none | some u ↦ tally-counters es u i ])
      ∙ counters-step (reached D k e) (is_unreadable D k e) (meets D k e)
          (any (faults D k (reached D k)) es) (any (allows_by D k (reached D k)) es)
          (idle (reached D k) es) t

  verdict-cases :
      (size n : ℕ) (met : Bool)
      → n ≤ size
      → verdict D k size (record { exclusive_fulfilled = met; restriction_entries_inactive = n })
        ≡ (if met || (not (ltb n size) && not (is_enum k.value_type))
            then ok
            else restriction_violated)
  verdict-cases size n met le = ground arith

  judged :
      (es : List (Restriction D)) (fault : Bool)
      → (elim (counters fault (any (allows_by D k (reached D k)) es) (idle (reached D k) es)) [
        | none ↦ none
        | some t ↦ some (verdict D k (length es) t)
      ])
        ≡ (if fault
            then none
            else some (
                if any (allows_by D k (reached D k)) es
                  || (not (any (reached D k) es) && not (is_enum k.value_type))
                then ok
                else restriction_violated))
  judged es true = refl
  judged es false = ap some (
      verdict-cases (length es) (idle (reached D k) es) (any (allows_by D k (reached D k)) es)
        (idle-le (reached D k) es)
      ∙ λ i.
          if any (allows_by D k (reached D k)) es
            || (not (idle-any (reached D k) es i) && not (is_enum k.value_type))
          then ok
          else restriction_violated)

  or_false : (a : Bool) → (a || false) ≡ a
  or_false a = ground arith

  -- What the loop and the verdict make of the entries, by the tests of the versions in the code.
  pub check_entries-outcome :
      (es : List (Restriction D)) → check_entries D k es ≡ outcome D k (reached D k) es
  check_entries-outcome es =
      ap (λ o. elim o [ none ↦ none | some t ↦ some (verdict D k (length es) t) ])
        (tally-counters es no_tally
          ∙ counters-agree (any (faults D k (reached D k)) es) _ _ _ _ (or_false _) (omega arith))
      ∙ judged es (any (faults D k (reached D k)) es)

  pub exclusive_value_check-outcome :
      (es : List (Restriction D))
      → is_checked D k k.value_type ≡ true
      → exclusive_value_check D true k es ≡ outcome D k (reached D k) es
  exclusive_value_check-outcome es c =
      let checked : exclusive_value_check D true k es ≡ check_entries D k es = ground arith in
      checked ∙ check_entries-outcome es
