-- ===== src/Value.antt =====
-- Typed values: struct disir_value of lib/include/value.h and the dx_value_* functions of lib/util.c.
-- The members of the union are separate fields; an operation reads only the one of the type. A
-- type number that is out of range behaves everywhere as `unknown`. dv_size is never negative.
pub mod Memory
pub mod Stored
pub mod Copy
pub mod Numbers
pub mod Print
use disir_c.Prelude.{
  ℕ, zero, suc, ◌+◌, ◌-◌, ◌&&◌, Bool, true, false, not, Option, none, some, List, [], ◌∷◌, ◌++◌,
  ◌||◌, ltb, leb, ◌==◌, if◌then◌else◌, length, take, drop, set, replicate, min,
}
use disir_c.Prelude.Int.{ℤ, pos, negsuc, ◌-ℤ◌, sub_ℕ, to_int32}
use disir_c.Status.{Status, ok, invalid_argument, wrong_value_type, no_memory}
use disir_c.Value.Memory.{memcpy, put_byte, snprintf}

-- What the C library and the machine provide: the type double, `(int) (a - b)` on it, memcmp, and
-- what the formats "%ld" and "%lf" print.
pub record Platform : Type 1 where
  pub Double : Type 0
  pub is_finite : Double → Bool
  pub double_difference : Double → Double → ℤ
  pub memcmp : List ℕ → List ℕ → ℕ → ℤ
  pub print_integer : ℤ → List ℕ
  pub print_double : Double → List ℕ

-- enum disir_value_type of include/disir/disir.h
pub data ValueType : Type 0 where
  string integer float boolean enum unknown : ValueType

abbrev pub type_number : ValueType → ℕ
type_number string = 1
type_number integer = 2
type_number float = 3
type_number boolean = 4
type_number enum = 5
type_number unknown = 6

-- dx_value_type_sanify, on the number that stands for a type
abbrev pub value_type_sanify : ℕ → ValueType
value_type_sanify n =
    if n == 1
    then string
    else if n == 2
    then integer
    else if n == 3
    then float
    else if n == 4
    then boolean
    else if n == 5
    then enum
    else unknown

module _ (P : Platform) where
  pub record Value : Type 0 where
    pub dv_type : ValueType
    pub dv_string : Option (List ℕ)
    pub dv_boolean : ℕ
    pub dv_float : P.Double
    pub dv_integer : ℤ
    pub dv_size : ℕ

  abbrev pub Outcome : Type 0
  Outcome = Status × Option Value

  abbrev pub bytes : Option (List ℕ) → List ℕ
  bytes none = []
  bytes (some b) = b

  -- INT_MIN
  abbrev pub int_min : ℤ
  int_min = negsuc 2147483647

  abbrev pub compare_same : ValueType → Value → Value → ℤ
  compare_same string v w = P.memcmp (bytes v.dv_string) (bytes w.dv_string) v.dv_size
  compare_same enum v w = P.memcmp (bytes v.dv_string) (bytes w.dv_string) v.dv_size
  compare_same integer v w = to_int32 (v.dv_integer -ℤ w.dv_integer)
  compare_same float v w = P.double_difference v.dv_float w.dv_float
  compare_same boolean v w = sub_ℕ v.dv_boolean w.dv_boolean
  compare_same unknown v w = int_min

  -- dx_value_compare
  abbrev pub value_compare : Value → Value → ℤ
  value_compare v w =
      if not (type_number v.dv_type == type_number w.dv_type)
      then int_min
      else if not (v.dv_size == w.dv_size)
      then to_int32 (sub_ℕ v.dv_size w.dv_size)
      else compare_same v.dv_type v w

  -- dx_value_set_integer, dx_value_set_boolean and dx_value_set_float
  abbrev pub set_integer : Option Value → ℤ → Outcome
  set_integer none n = (invalid_argument, none)
  set_integer (some v) n =
      if type_number v.dv_type == 2
      then (ok, some (record v { dv_integer = n }))
      else (wrong_value_type, some v)

  abbrev pub set_boolean : Option Value → ℕ → Outcome
  set_boolean none b = (invalid_argument, none)
  set_boolean (some v) b =
      if type_number v.dv_type == 4
      then (ok, some (record v { dv_boolean = b }))
      else (wrong_value_type, some v)

  abbrev pub set_float : Option Value → P.Double → Outcome
  set_float none x = (invalid_argument, none)
  set_float (some v) x =
      if type_number v.dv_type == 3
      then (ok, some (record v { dv_float = x }))
      else (wrong_value_type, some v)

  -- dx_value_get_integer, dx_value_get_boolean and dx_value_get_float; the flag says that the
  -- output pointer is not NULL, and the option is what is written through it.
  abbrev pub get_integer : Option Value → Bool → Status × Option ℤ
  get_integer none output = (invalid_argument, none)
  get_integer (some v) false = (invalid_argument, none)
  get_integer (some v) true =
      if type_number v.dv_type == 2 then (ok, some v.dv_integer) else (wrong_value_type, none)

  abbrev pub get_boolean : Option Value → Bool → Status × Option ℕ
  get_boolean none output = (invalid_argument, none)
  get_boolean (some v) false = (invalid_argument, none)
  get_boolean (some v) true =
      if type_number v.dv_type == 4 then (ok, some v.dv_boolean) else (wrong_value_type, none)

  abbrev pub get_float : Option Value → Bool → Status × Option P.Double
  get_float none output = (invalid_argument, none)
  get_float (some v) false = (invalid_argument, none)
  get_float (some v) true =
      if type_number v.dv_type == 3 then (ok, some v.dv_float) else (wrong_value_type, none)

  abbrev pub holds_string : Value → Bool
  holds_string v = (type_number v.dv_type == 1) || (type_number v.dv_type == 5)

  -- The end of dx_value_set_string, with the buffer that it writes to.
  abbrev pub fill_string : Value → List ℕ → List ℕ → ℕ → Option (Status × Option Value)
  fill_string v buffer input size = elim (memcpy buffer input size) [
    | none ↦ none
    | some copied ↦ elim (put_byte copied size 0) [
      | none ↦ none
      | some ended ↦ some (ok, some (record v { dv_string = some ended; dv_size = size }))
    ]
  ]

  -- A new buffer where there is none or where `dv_size - 1 < size`, on signed numbers.
  abbrev pub store_string : Value → List ℕ → ℕ → Bool → Option (Status × Option Value)
  store_string v input size allocated = elim v.dv_string [
    | none ↦
        if allocated
        then fill_string v (replicate (size + 1) 0) input size
        else some (no_memory, some (record v { dv_string = none }))
    | some buffer ↦
        if leb v.dv_size size
        then (if allocated
            then fill_string v (replicate (size + 1) 0) input size
            else some (no_memory, some (record v { dv_string = none })))
        else fill_string v buffer input size
  ]

  -- dx_value_set_string, on an input that is not the value's own buffer; `allocated` is the answer
  -- of calloc, and `none` is a read or a write outside of a buffer.
  abbrev pub set_string : Option Value → Option (List ℕ) → ℕ → Bool → Option (Status × Option Value)
  set_string none input size allocated = some (invalid_argument, none)
  set_string (some v) input size allocated =
      if not (holds_string v) then some (wrong_value_type, some v) else elim input [
        | none ↦ some (ok, some (record v { dv_size = 0; dv_string = none }))
        | some text ↦ store_string v text size allocated
      ]

  -- dx_value_get_string
  abbrev pub get_string : Option Value → Bool → Status × Option (Option (List ℕ) × ℕ)
  get_string none output = (invalid_argument, none)
  get_string (some v) false = (invalid_argument, none)
  get_string (some v) true =
      if holds_string v then (ok, some (v.dv_string, v.dv_size)) else (wrong_value_type, none)

  -- dx_value_copy; on a source of unknown type the program aborts.
  abbrev pub value_copy : Option Value → Value → Bool → Option (Status × Option Value)
  value_copy destination source allocated = elim source.dv_type [
    | string ↦ set_string destination source.dv_string source.dv_size allocated
    | enum ↦ set_string destination source.dv_string source.dv_size allocated
    | integer ↦ some (set_integer destination source.dv_integer)
    | float ↦ some (set_float destination source.dv_float)
    | boolean ↦ some (set_boolean destination source.dv_boolean)
    | unknown ↦ none
  ]

  -- "True" and "False"
  abbrev pub boolean_text : ℕ → List ℕ
  boolean_text b = if b == 0 then 70 ∷ 97 ∷ 108 ∷ 115 ∷ 101 ∷ [] else 84 ∷ 114 ∷ 117 ∷ 101 ∷ []

  -- What a call leaves in the output buffer, and what it writes to output_size.
  abbrev pub Printed : Type 0
  Printed = Status × List ℕ × Option ℕ

  -- The branch for strings; with an empty output buffer, memcpy is told to copy -1 bytes.
  abbrev pub print_string : Value → List ℕ → Option Printed
  print_string v output =
      if leb (length output) v.dv_size && (length output == 0)
      then none
      else elim (memcpy output (bytes v.dv_string)
          (if leb (length output) v.dv_size then length output - 1 else v.dv_size)) [
            | none ↦ none
            | some copied ↦ elim (put_byte copied v.dv_size 0) [
              | none ↦ none
              | some ended ↦ some (ok, ended, some v.dv_size)
            ]
          ]

  -- dx_value_stringify; output_buffer_size is the length of the output buffer. For an unknown type
  -- it writes a size that was never set.
  abbrev pub value_stringify : Value → List ℕ → Option Printed
  value_stringify v output = elim v.dv_type [
    | string ↦ print_string v output
    | enum ↦ print_string v output
    | integer ↦ some (
      ok,
      snprintf output (P.print_integer v.dv_integer),
      some (length (P.print_integer v.dv_integer)),
    )
    | float ↦
        some (
          ok,
          snprintf output (P.print_double v.dv_float),
          some (length (P.print_double v.dv_float)),
        )
    | boolean ↦
        some (
          ok,
          snprintf output (boolean_text v.dv_boolean),
          some (length (boolean_text v.dv_boolean)),
        )
    | unknown ↦ some (invalid_argument, output, none)
  ]
