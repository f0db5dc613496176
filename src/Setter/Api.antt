-- ===== src/Setter/Api.antt =====
-- The setters of lib/context_value.c; a NULL context is `none`.
use disir_c.Prelude.{ℕ, Bool, not, ◌||◌, Option, none, some, List, [], ◌∷◌, ◌==◌, if◌then◌else◌}
use disir_c.Prelude.Int.{ℤ, pos}
use disir_c.Context.{config_type, keyval_type}
use disir_c.Status.{Status, invalid_argument, wrong_context, internal_error, is_ok}
use disir_c.Value.{
  Platform, string, integer, float, boolean, enum, unknown, set_integer, set_float, set_boolean,
}
use disir_c.Text.{strtol}
use disir_c.Setter.{Arithmetic, Context}
use disir_c.Setter.Checks.{is_type, full_check, value_type_of}
use disir_c.Setter.Store.{
  Answer, exclusive_check, put_number, put_string, set_restricted, set_unrestricted,
}

-- The characters 0, f and F stand for false, 1, t and T for true.
abbrev pub parsed_boolean : ℕ → Option ℕ
parsed_boolean c =
    if c == 48
    then some 0
    else if c == 49
    then some 1
    else if (c == 116) || (c == 84)
    then some 1
    else if (c == 102) || (c == 70)
    then some 0
    else none

-- `*value`; behind the characters of a text stands a zero.
abbrev pub first_character : List ℕ → ℕ
first_character [] = 0
first_character (c ∷ cs) = c

module _ (P : Platform) (A : Arithmetic P) where
  -- A call on a context that may be NULL
  abbrev pub on :
      Option (Context P A) → (Context P A → Answer P A) → Option (Status × Option (Context P A))
  on none f = some (invalid_argument, none)
  on (some c) f = elim (f c) [ none ↦ none | some (s, d) ↦ some (s, some d) ]

  -- dc_set_value_integer
  abbrev pub set_value_integer : P.Double → ℤ → Context P A → Answer P A
  set_value_integer unset n =
      set_restricted P A integer (λ c. put_number P A c (set_integer P (some c.value) n))
        (λ c. exclusive_check P A unset c n (A.of_integer (pos 0)) none)

  -- dc_set_value_float
  abbrev pub set_value_float : P.Double → P.Double → Context P A → Answer P A
  set_value_float unset x =
      set_restricted P A float (λ c. put_number P A c (set_float P (some c.value) x))
        (λ c. exclusive_check P A unset c (pos 0) x none)

  -- dc_set_value_enum; `allocated` is the answer of calloc.
  abbrev pub set_value_enum : P.Double → Option (List ℕ) → ℕ → Bool → Context P A → Answer P A
  set_value_enum unset text size allocated =
      set_restricted P A enum (λ c. put_string P A c text size allocated)
        (λ c. exclusive_check P A unset c (pos 0) (A.of_integer (pos 0)) text)

  -- dc_set_value_boolean
  abbrev pub set_value_boolean : ℕ → Context P A → Answer P A
  set_value_boolean b =
      set_unrestricted P A boolean (λ c. put_number P A c (set_boolean P (some c.value) b))

  -- dc_set_value_string
  abbrev pub set_value_string : Option (List ℕ) → ℕ → Bool → Context P A → Answer P A
  set_value_string text size allocated =
      set_unrestricted P A string (λ c. put_string P A c text size allocated)

  -- The case INTEGER of dc_set_value, by the answer of strtol
  abbrev pub set_converted : P.Double → Context P A → Option (ℤ × List ℕ) → Answer P A
  set_converted unset c none = some (invalid_argument, c)
  set_converted unset c (some (n, end)) = set_value_integer unset n c

  -- The switch of dc_set_value: an enum ends the program.
  abbrev pub set_parsed : P.Double → List ℕ → ℕ → Bool → Context P A → Answer P A
  set_parsed unset text size allocated c = elim (value_type_of P A c) [
    | string ↦ set_value_string (some text) size allocated c
    | boolean ↦ elim (parsed_boolean (first_character text)) [
      | none ↦ some (invalid_argument, c)
      | some b ↦ set_value_boolean b c
    ]
    | integer ↦ set_converted unset c (strtol text)
    | float ↦ elim (A.strtod text) [
      | none ↦ some (invalid_argument, c)
      | some x ↦ set_value_float unset x c
    ]
    | enum ↦ none
    | unknown ↦ some (internal_error, c)
  ]

  -- dc_set_value, on a text that is not NULL
  abbrev pub set_value : P.Double → List ℕ → ℕ → Bool → Context P A → Answer P A
  set_value unset text size allocated c =
      let full : Status = full_check P A c in
      if not (is_ok full)
      then some (full, c)
      else if not (is_type c.cx_type keyval_type)
      then some (wrong_context, c)
      else if not (is_type c.root_type config_type)
      then some (wrong_context, c)
      else set_parsed unset text size allocated c
