-- ===== src/Version/Print.antt =====
-- dc_version_string and dc_version_convert of lib/util.c. A buffer is the list of its bytes, and the
-- text in it ends before the first zero.
use disir_c.Prelude.{
  ℕ, ◌-◌, ◌%◌, Bool, true, false, Option, none, some, List, [], ◌∷◌, ◌++◌, ◌==◌, leb, length,
  if◌then◌else◌,
}
use disir_c.Prelude.Int.{ℤ, pos, negsuc}
use disir_c.Status.{Status, ok, invalid_argument}
use disir_c.Value.Memory.{snprintf}
use disir_c.Text.{strtol, decimal}
use disir_c.Version.{Version}

-- what "%u.%u" prints
abbrev pub version_text : Version → List ℕ
version_text v = decimal v.sv_major ++ (46 ∷ decimal v.sv_minor)

-- dc_version_string: the buffer afterwards, and whether its address is returned; NULL is `none`. The
-- buffer is as long as its size says.
abbrev pub version_string : Option (List ℕ) → Option Version → Bool × Option (List ℕ)
version_string none v = (false, none)
version_string (some buffer) none = (false, some buffer)
version_string (some buffer) (some v) = (
  if leb (length buffer) (length (version_text v)) then false else true,
  some (snprintf buffer (version_text v)),
)

-- The text in a buffer.
abbrev pub text_in : List ℕ → List ℕ
text_in [] = []
text_in (b ∷ bs) = if b == 0 then [] else b ∷ text_in bs

-- a long that is assigned to a uint32_t
abbrev pub to_uint32 : ℤ → ℕ
to_uint32 (pos n) = n % 4294967296
to_uint32 (negsuc n) = 4294967295 - n % 4294967296

abbrev pub convert_minor : List ℕ → Version → Status × Option Version
convert_minor start v = elim (strtol start) [
  | none ↦ (invalid_argument, some v)
  | some (parsed, rest) ↦ (ok, some (record v { sv_minor = to_uint32 parsed }))
]

-- Behind the major version: a period must follow; the major version is assigned before the minor one
-- is read.
abbrev pub convert_period : ℤ → List ℕ → Version → Status × Option Version
convert_period parsed [] v = (invalid_argument, some v)
convert_period parsed (c ∷ cs) v =
    if c == 46
    then convert_minor cs (record v { sv_major = to_uint32 parsed })
    else (invalid_argument, some v)

-- dc_version_convert: the status, and the version afterwards.
abbrev pub version_convert : Option (List ℕ) → Option Version → Status × Option Version
version_convert none v = (invalid_argument, v)
version_convert (some input) none = (invalid_argument, none)
version_convert (some input) (some v) = elim (strtol input) [
  | none ↦ (invalid_argument, some v)
  | some (parsed, rest) ↦ convert_period parsed rest v
]
