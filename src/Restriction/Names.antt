-- ===== src/Restriction/Names.antt =====
-- The names and groups of restriction types: disir_restriction_strings and the functions over it in
-- lib/context_restriction.c. A text is the list of its characters; a type is one of the enumeration.
use disir_c.Prelude.{
  ℕ, ◌≡◌, ◌≢◌, ◌↔◌, refl, ap, sym, ◌∙◌, true, List, [], ◌∷◌, if◌then◌else◌, arith, Bool-cases, inl,
  inr,
}
use disir_c.Restriction.{
  RestrictionType, inc_entry_min, inc_entry_max, exc_value_enum, exc_value_range, exc_value_numeric,
  unknown_restriction,
}
use disir_c.Restriction.Exclusive.{same_text}

-- dc_restriction_enum_string: MINIMUM_ENTRIES, MAXIMUM_ENTRIES, ENUM, RANGE, NUMERIC and UNKNOWN
abbrev pub enum_string : RestrictionType → List ℕ
enum_string inc_entry_min =
    77 ∷ 73 ∷ 78 ∷ 73 ∷ 77 ∷ 85 ∷ 77 ∷ 95 ∷ 69 ∷ 78 ∷ 84 ∷ 82 ∷ 73 ∷ 69 ∷ 83 ∷ []
enum_string inc_entry_max =
    77 ∷ 65 ∷ 88 ∷ 73 ∷ 77 ∷ 85 ∷ 77 ∷ 95 ∷ 69 ∷ 78 ∷ 84 ∷ 82 ∷ 73 ∷ 69 ∷ 83 ∷ []
enum_string exc_value_enum = 69 ∷ 78 ∷ 85 ∷ 77 ∷ []
enum_string exc_value_range = 82 ∷ 65 ∷ 78 ∷ 71 ∷ 69 ∷ []
enum_string exc_value_numeric = 78 ∷ 85 ∷ 77 ∷ 69 ∷ 82 ∷ 73 ∷ 67 ∷ []
enum_string unknown_restriction = 85 ∷ 78 ∷ 75 ∷ 78 ∷ 79 ∷ 87 ∷ 78 ∷ []

-- The types that the loop of dc_restriction_string_to_enum goes through
abbrev pub known_types : List RestrictionType
known_types =
    inc_entry_min ∷ inc_entry_max ∷ exc_value_enum ∷ exc_value_range ∷ exc_value_numeric ∷ []

abbrev pub first_named : List ℕ → List RestrictionType → RestrictionType
first_named text [] = unknown_restriction
first_named text (t ∷ ts) = if same_text text (enum_string t) then t else first_named text ts

-- dc_restriction_string_to_enum
abbrev pub string_to_enum : List ℕ → RestrictionType
string_to_enum text = first_named text known_types

-- The groups of dc_restriction_group_type
pub data Group : Type 0 where
  inclusive exclusive unknown_group : Group

-- dc_restriction_group_type
abbrev pub group_type : RestrictionType → Group
group_type inc_entry_min = inclusive
group_type inc_entry_max = inclusive
group_type exc_value_enum = exclusive
group_type exc_value_range = exclusive
group_type exc_value_numeric = exclusive
group_type unknown_restriction = unknown_group

named_same : (s t : List ℕ) → same_text s t ≡ true → s ≡ t
named_same [] [] h = refl
named_same [] (y ∷ t) h = cc
named_same (x ∷ s) [] h = cc
named_same (x ∷ s) (y ∷ t) h = ground (arith, named_same s t)

string_to_enum-enum_string : (t : RestrictionType) → string_to_enum (enum_string t) ≡ t
string_to_enum-enum_string inc_entry_min = refl
string_to_enum-enum_string inc_entry_max = refl
string_to_enum-enum_string exc_value_enum = refl
string_to_enum-enum_string exc_value_range = refl
string_to_enum-enum_string exc_value_numeric = refl
string_to_enum-enum_string unknown_restriction = refl

first_named-text :
    (text : List ℕ) (t : RestrictionType) (ts : List RestrictionType)
    → t ≢ unknown_restriction
    → first_named text ts ≡ t
    → text ≡ enum_string t
first_named-text text t [] known h = absurd (known (sym h))
first_named-text text t (u ∷ ts) known h = elim (Bool-cases (same_text text (enum_string u))) [
  | inl same ↦ named_same text (enum_string u) same ∙ ap enum_string (rw same at h)
  | inr other ↦ first_named-text text t ts known (rw other at h)
]

-- A text is read as a restriction type other than UNKNOWN exactly if it is the name of that type.
pub string_to_enum_iff :
    (text : List ℕ) (t : RestrictionType)
    → t ≢ unknown_restriction
    → (string_to_enum text ≡ t) ↔ (text ≡ enum_string t)
string_to_enum_iff text t known = (
  first_named-text text t known_types known,
  λ e. ap string_to_enum e ∙ string_to_enum-enum_string t,
)
