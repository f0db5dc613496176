-- ===== src/Validate/Conforms.antt =====
-- When the validation of lib/validate.c answers OK: the conditions on a context of a config, stated
-- without statuses.
use disir_c.Prelude.{
  ℕ, zero, Bool, true, false, not, ◌&&◌, ◌||◌, Option, none, some, List, [], ◌∷◌, ◌≡◌, refl, ◌==◌,
  if◌then◌else◌, arith, ap, ◌∙◌, suc, leb, filter, length, inl, inr, Bool-cases,
}
use disir_c.Prelude.Int.{ℤ, pos, negsuc, leb_ℤ, eqb_ℤ}
use disir_c.Status.{Status, ok, restriction_violated, is_ok}
use disir_c.Value.{string, integer, float, boolean, enum, unknown, type_number}
use disir_c.Version.{Version}
use disir_c.Restriction.{Doubles, Restriction}
use disir_c.Restriction.Entries.{entries_minimum, entries_maximum}
use disir_c.Restriction.Exclusive.{Question, exclusive_value_check}
use disir_c.Restriction.Texts.{is_same, same_text-is_same}
use disir_c.Restriction.Permits.{any, faults, allows_by, reached, is_enum, is_checked}
use disir_c.Restriction.Outcome.{exclusive_value_check-outcome}
use disir_c.Validate.{Flags, MoldElement, Keyval, Section, Node, Nodes, keyval, section, end, node}
use disir_c.Validate.Settle.{settle}
use disir_c.Validate.Name.{is_name_character, validate_name}
use disir_c.Validate.Values.{
  Parent, occurrences, at_version, asked, question, validate_room, validate_exclusive_restrictions,
}
use disir_c.Validate.Inclusive.{
  is_violated, violates, inclusive_from, validate_inclusive_restrictions,
}
use disir_c.Validate.Tree.{or_else, names_of}

-- Validation has returned, and with OK.
abbrev pub passes {ℓ} : {A : Type ℓ} → Option (Status × A) → Bool
passes none = false
passes (some (s, a)) = is_ok s

abbrev pub is_word : List ℕ → Bool
is_word [] = true
is_word (c ∷ cs) = is_name_character c && is_word cs

-- A check that has answered, and with OK.
abbrev pub answers_ok : Option Status → Bool
answers_ok none = false
answers_ok (some s) = is_ok s

-- How many of the names are this one.
abbrev pub number_named : List ℕ → List (List ℕ) → ℕ
number_named name names = length (filter (λ other. is_same other name) names)

-- What a maximum permits: 0, and what is below -1, permits any number; -1 permits none.
abbrev pub is_within : ℤ → ℕ → Bool
is_within (pos zero) n = true
is_within (pos (suc m)) n = leb n (suc m)
is_within (negsuc zero) n = n == 0
is_within (negsuc (suc m)) n = true

module _ (D : Doubles) (v : Version) where
  -- An element that is being added to a finalized parent must leave the maximum unreached, unless
  -- there is none, which 0 says.
  abbrev pub has_room : Parent → Flags → MoldElement D → List ℕ → Bool
  has_room parent f m name =
      let max : ℤ = entries_maximum D (at_version D v m) m.restrictions in
      f.finalized
      || (not parent.finalized
          || (eqb_ℤ max (pos 0) || not (leb_ℤ max (pos (number_named name parent.names)))))

  -- No text that is to be compared is NULL, and a restriction in force permits the value, or none is
  -- in force and it is not an enum.
  abbrev pub is_allowed : Question D → List (Restriction D) → Bool
  is_allowed q es =
      not (any (faults D q (reached D q)) es)
      && (any (allows_by D q (reached D q)) es
          || (not (any (reached D q) es) && not (is_enum q.value_type)))

  -- The value is one that the exclusive restrictions permit; those of a string or of a Boolean
  -- are not looked at, and no value has an unknown type.
  abbrev pub is_permitted : D.Double → Keyval D → MoldElement D → Bool
  is_permitted unset k m = elim k.value_type [
    | integer ↦
        is_allowed (asked D v unset k k.dv_integer (D.of_integer (pos 0)) none) m.restrictions
    | float ↦ is_allowed (asked D v unset k (pos 0) k.dv_float none) m.restrictions
    | enum ↦
        is_allowed (asked D v unset k (pos 0) (D.of_integer (pos 0)) k.dv_string) m.restrictions
    | string ↦ true
    | boolean ↦ true
    | unknown ↦ false
  ]

  abbrev pub keyval_conforms : D.Double → Parent → Flags → Keyval D → Bool
  keyval_conforms unset parent f k = elim k.kv_mold_equiv [
    | none ↦ false
    | some m ↦
        is_word k.kv_name
        && (has_room parent f m k.kv_name
            && ((type_number m.value_type == type_number k.value_type) && is_permitted unset k m))
  ]

  -- Of each element of the mold there are as many as its minimum and its maximum ask for.
  abbrev pub is_counted : List (List ℕ) → List (MoldElement D) → Bool
  is_counted names [] = true
  is_counted names (m ∷ ms) =
      (leb_ℤ (entries_minimum D (at_version D v m) m.restrictions) (pos (number_named m.name names))
        && is_within (entries_maximum D (at_version D v m) m.restrictions)
            (number_named m.name names))
      && is_counted names ms

  abbrev pub section_conforms : Parent → Flags → Section D → List (List ℕ) → Bool
  section_conforms parent f s names = elim s.se_mold_equiv [
    | none ↦ false
    | some m ↦
        is_word s.se_name
        && (has_room parent f m s.se_name
            && ((type_number m.value_type == type_number unknown)
                && is_counted names s.mold_elements))
  ]

module _ (D : Doubles) (v : Version) (unset : D.Double) where
  unfoldable mutual
    -- A context of a config below the config itself, with all that is below it.
    pub conforms : Parent → Node D → Bool
    conforms parent (keyval f k) = not f.fatal && keyval_conforms D v unset parent f k
    conforms parent (section f s ns) =
        not f.fatal
        && (section_conforms D v parent f s (names_of D ns)
            && all_conform (record { finalized = f.finalized; names = names_of D ns }) ns)

    pub all_conform : Parent → Nodes D → Bool
    all_conform parent end = true
    all_conform parent (node n ns) = conforms parent n && all_conform parent ns

pub or_else-is_ok : (a b : Status) → is_ok (or_else a b) ≡ (is_ok a && is_ok b)
or_else-is_ok a b = ground arith

pub passes-settle : (f : Flags) (p : Bool) (s : Status) → passes (settle f p s) ≡ is_ok s
passes-settle f p s = ground arith

pub occurrences-named :
    (name : List ℕ) (names : List (List ℕ)) → occurrences name names ≡ number_named name names
occurrences-named name [] = refl
occurrences-named name (other ∷ names) = elim (Bool-cases (is_same other name)) [
  | inl e ↦ rw (same_text-is_same other name) (rw e (ground (arith, occurrences-named name names)))
  | inr e ↦ rw (same_text-is_same other name) (rw e (ground (arith, occurrences-named name names)))
]

-- The three tests of the code on a number of elements.
bounds-tested :
    (D : Doubles) (v : Version) (min max : ℤ) (n : ℕ)
    → not (is_violated D v min max n) ≡ (leb_ℤ min (pos n) && is_within max n)
bounds-tested D v min (pos zero) n = ground arith
bounds-tested D v min (pos (suc m)) n = ground arith
bounds-tested D v min (negsuc zero) n = ground arith
bounds-tested D v min (negsuc (suc m)) n = ground arith

outcome-answers :
    (fault fine : Bool)
    → answers_ok (if fault then none else some (if fine then ok else restriction_violated))
      ≡ (not fault && fine)
outcome-answers fault fine = ground arith

pub validate_name-is_ok : (name : List ℕ) → is_ok (validate_name name) ≡ is_word name
validate_name-is_ok [] = refl
validate_name-is_ok (c ∷ cs) = ground (arith, validate_name-is_ok cs)

module _ (D : Doubles) (v : Version) where
  pub validate_room-is_ok :
      (parent : Parent) (f : Flags) (m : MoldElement D) (name : List ℕ)
      → is_ok (validate_room D v parent f m name) ≡ has_room D v parent f m name
  validate_room-is_ok parent f m name = ground (arith, occurrences-named name parent.names)

  allowed-outcome :
      (q : Question D) (es : List (Restriction D))
      → is_checked D q q.value_type ≡ true
      → answers_ok (exclusive_value_check D true q es) ≡ is_allowed D v q es
  allowed-outcome q es c =
      ap answers_ok (exclusive_value_check-outcome D q es c)
      ∙ outcome-answers (any (faults D q (reached D q)) es) (
          any (allows_by D q (reached D q)) es
          || (not (any (reached D q) es) && not (is_enum q.value_type)))

  pub exclusive-is_ok :
      (unset : D.Double) (k : Keyval D) (m : MoldElement D)
      → answers_ok (validate_exclusive_restrictions D v unset k m) ≡ is_permitted D v unset k m
  exclusive-is_ok unset k m =
      elim k.value_type
        as (λ t.
          answers_ok (validate_exclusive_restrictions D v unset (record k { value_type = t }) m)
          ≡ is_permitted D v unset (record k { value_type = t }) m) [
            | integer ↦
                allowed-outcome (question D v unset (record k { value_type = integer }))
                  m.restrictions refl
            | float ↦
                allowed-outcome (question D v unset (record k { value_type = float }))
                  m.restrictions refl
            | enum ↦
                allowed-outcome (question D v unset (record k { value_type = enum })) m.restrictions
                  refl
            | string ↦ refl
            | boolean ↦ refl
            | unknown ↦ refl
          ]

  violates-counted :
      (names : List (List ℕ)) (m : MoldElement D)
      → not (violates D v names m) ≡ (
          leb_ℤ
            (entries_minimum D (at_version D v m) m.restrictions)
            (pos (number_named m.name names))
          && is_within
              (entries_maximum D (at_version D v m) m.restrictions)
              (number_named m.name names))
  violates-counted names m =
      bounds-tested D v (entries_minimum D (at_version D v m) m.restrictions)
        (entries_maximum D (at_version D v m) m.restrictions) (occurrences m.name names)
      ∙ ap
          (λ n.
            leb_ℤ (entries_minimum D (at_version D v m) m.restrictions) (pos n)
            && is_within (entries_maximum D (at_version D v m) m.restrictions) n)
          (occurrences-named m.name names)

  inclusive_from_lem :
      (b : Bool) (names : List (List ℕ)) (ms : List (MoldElement D))
      → inclusive_from D v b names ms ≡ (b || not (is_counted D v names ms))
  inclusive_from_lem b names [] = ground arith
  inclusive_from_lem b names (m ∷ ms) = ground (
    arith,
    inclusive_from_lem (if violates D v names m then true else b) names ms,
    violates-counted names m,
  )

  pub inclusive-is_ok :
      (f : Flags) (names : List (List ℕ)) (ms : List (MoldElement D))
      → is_ok (validate_inclusive_restrictions D v f names ms).0 ≡ is_counted D v names ms
  inclusive-is_ok f names ms = ground (arith, inclusive_from_lem false names ms)
