-- ===== src/Setter/Obeys.antt =====
-- What a keyval that is finalized and valid promises: it has the type of its mold, and a value that the
-- restrictions of the mold permit.
use disir_c.Prelude.{
  ℕ, Bool, true, false, not, ◌&&◌, ◌||◌, ◌≡◌, Option, none, some, List, take, length,
}
use disir_c.Prelude.Int.{ℤ, pos}
use disir_c.Context.{config_type, keyval_type}
use disir_c.Status.{Status, is_ok}
use disir_c.Value.{Platform, Value, ValueType, string, integer, float, enum, bytes}
use disir_c.Value.Stored.{IsSound}
use disir_c.Version.{Version}
use disir_c.Version.Order.{Fits}
use disir_c.Restriction.{Restriction}
use disir_c.Restriction.Exclusive.{Question}
use disir_c.Restriction.Permits.{any, All, is_present, is_enum_entry}
use disir_c.Restriction.Fulfilled.{in_force, allows}
use disir_c.Setter.{Arithmetic, Context, doubles_of}
use disir_c.Setter.Store.{Answer}
use disir_c.Setter.Api.{
  set_value_integer, set_value_float, set_value_boolean, set_value_string, set_value_enum,
}

-- The calls of a setter; a text is given with its length.
pub data Call (P : Platform) : Type 0 where
  integers : ℤ → Call P
  floats : P.Double → Call P
  booleans : ℕ → Call P
  strings : List ℕ → Call P
  enums : List ℕ → Call P

abbrev pub is_number : ValueType → Bool
is_number integer = true
is_number float = true
is_number _ = false

abbrev pub is_text : ValueType → Bool
is_text string = true
is_text enum = true
is_text _ = false

module _ (P : Platform) (A : Arithmetic P) (unset : P.Double) where
  -- The setter that is called, where memory is granted
  abbrev pub set_by : Call P → Context P A → Answer P A
  set_by (integers n) = set_value_integer P A unset n
  set_by (floats x) = set_value_float P A unset x
  set_by (booleans b) = set_value_boolean P A b
  set_by (strings t) = set_value_string P A (some t) (length t) true
  set_by (enums t) = set_value_enum P A unset (some t) (length t) true

  module _ (kind : ValueType) (es : List (Restriction (doubles_of P A))) (version : Version)
      (name_size : ℕ) where
    abbrev pub typed : Value P → Value P
    typed v = record v { dv_type = kind }

    -- A keyval of a config of the version, finalized and valid, with this value of its mold's type
    abbrev pub finalized_keyval : Value P → Context P A
    finalized_keyval v = record {
      cx_type = keyval_type;
      destroyed = false;
      constructing = false;
      finalized = true;
      invalid = false;
      root_type = config_type;
      cf_version = version;
      value = typed v;
      holds_pointer = is_text kind;
      kv_name_size = name_size;
      kv_mold_equiv = some (record { value_type = kind; kv_restrictions_queue = es });
    }

    -- What its value is asked about: its number or its text, and NULL for no text
    abbrev pub question : ℤ → P.Double → Option (List ℕ) → Question (doubles_of P A)
    question n x text = record {
      config_version = version;
      value_type = kind;
      integer_value = n;
      float_value = x;
      string_value = text;
      unset = unset;
    }

    -- A restriction in force allows it; a number is permitted as well where none is in force.
    abbrev pub permits : Question (doubles_of P A) → Bool
    permits q =
        any (allows (doubles_of P A) q) es
        || (not (any (in_force (doubles_of P A) q) es) && is_number kind)

    abbrev pub permitted : Value P → Bool
    permitted v = elim kind [
      | integer ↦ permits (question v.dv_integer (A.of_integer (pos 0)) none)
      | float ↦ permits (question (pos 0) v.dv_float none)
      | enum ↦
          permits
            (question (pos 0) (A.of_integer (pos 0)) (some (take v.dv_size (bytes P v.dv_string))))
      | _ ↦ true
    ]

    -- All versions fit in an int, restrictions on texts stand with enums only, and their texts are not
    -- NULL.
    pub record IsMold : Type 0 where
      pub fits : Fits version
      pub entries : All (λ e. Fits e.re_introduced × Fits e.re_deprecated) es
      pub numbers : is_number kind ≡ true → All (λ e. is_enum_entry e.re_type ≡ false) es
      pub texts :
          All (λ e. (not (is_enum_entry e.re_type) || is_present e.re_value_string) ≡ true) es

    -- A setter leaves a sound value that is permitted, and the same keyval unless it answers ok.
    pub record Keeps (v : Value P) (answer : Answer P A) : Type 0 where
      pub status : Status
      pub value : Value P
      pub answered : answer ≡ some (status, finalized_keyval value)
      pub sound : IsSound P (typed value)
      pub permits_value : permitted value ≡ true
      pub unchanged : is_ok status ≡ false → value ≡ v
