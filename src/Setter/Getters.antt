-- ===== src/Setter/Getters.antt =====
-- The getters of lib/context_value.c, on a context that is not NULL. The flag says that the output
-- pointer is not NULL; the option is what is written through it.
use disir_c.Prelude.{ℕ, Bool, true, not, ◌&&◌, Option, none, some, List, if◌then◌else◌}
use disir_c.Prelude.Int.{ℤ}
use disir_c.Context.{config_type, keyval_type, documentation_type, default_type}
use disir_c.Status.{Status, invalid_argument, wrong_context, wrong_value_type, is_ok}
use disir_c.Value.{
  Platform, string, get_integer, get_float, get_boolean, get_string, holds_string, value_stringify,
}
use disir_c.Setter.{Arithmetic, Context}
use disir_c.Setter.Checks.{is_type, same_type, full_check, type_check, get_value_input_check}

-- The getters behind get_value_input_check
abbrev pub unless_refused {ℓ} : {X : Type ℓ} → Status → Status × Option X → Status × Option X
unless_refused s answer = if is_ok s then answer else (s, none)

module _ (P : Platform) (A : Arithmetic P) where
  -- dc_get_value_integer, dc_get_value_float and dc_get_value_boolean
  abbrev pub get_value_integer : Context P A → Bool → Status × Option ℤ
  get_value_integer c output =
      unless_refused (get_value_input_check P A c) (get_integer P (some c.value) output)

  abbrev pub get_value_float : Context P A → Bool → Status × Option P.Double
  get_value_float c output =
      unless_refused (get_value_input_check P A c) (get_float P (some c.value) output)

  abbrev pub get_value_boolean : Context P A → Bool → Status × Option ℕ
  get_value_boolean c output =
      unless_refused (get_value_input_check P A c) (get_boolean P (some c.value) output)

  -- dc_get_value_enum; a number that is answered as a pointer is a fault.
  abbrev pub Text : Type 0
  Text = Status × Option (Option (List ℕ) × ℕ)

  abbrev pub read_text : Context P A → Text → Option Text
  read_text c (s, none) = some (s, none)
  read_text c (s, some t) = if c.holds_pointer then some (s, some t) else none

  abbrev pub get_value_enum : Context P A → Bool → Option Text
  get_value_enum c output =
      let s : Status = get_value_input_check P A c in
      if is_ok s then read_text c (get_string P (some c.value) output) else some (s, none)

  -- dc_get_value_string; of a documentation dc_get_value_type does not know the type.
  abbrev pub get_value_string : Context P A → Bool → Option Text
  get_value_string c output =
      let full : Status = full_check P A c in
      let kind : Status = type_check P A c keyval_type documentation_type default_type in
      if not (is_ok full)
      then some (full, none)
      else if not (is_ok kind)
      then some (kind, none)
      else if not output
      then some (invalid_argument, none)
      else if is_type c.cx_type documentation_type
      then some (wrong_context, none)
      else if not (same_type c.value.dv_type string)
      then some (wrong_value_type, none)
      else if is_type c.cx_type keyval_type && not (is_type c.root_type config_type)
      then some (wrong_context, none)
      else read_text c (get_string P (some c.value) true)

  -- dc_get_value, into the output buffer; NULL is `none`.
  abbrev pub Printed : Type 0
  Printed = Status × Option (List ℕ × Option ℕ)

  abbrev pub print_value : Context P A → List ℕ → Option Printed
  print_value c output =
      if holds_string P c.value && not c.holds_pointer
      then none
      else elim (value_stringify P c.value output) [
        | none ↦ none
        | some (s, printed, size) ↦ some (s, some (printed, size))
      ]

  abbrev pub get_value : Context P A → Option (List ℕ) → Option Printed
  get_value c none =
      let full : Status = full_check P A c in
      if not (is_ok full) then some (full, none) else some (invalid_argument, none)
  get_value c (some output) =
      let full : Status = full_check P A c in
      if not (is_ok full)
      then some (full, none)
      else if not (is_type c.cx_type keyval_type)
      then some (wrong_context, none)
      else if not (is_type c.root_type config_type)
      then some (wrong_context, none)
      else print_value c output
