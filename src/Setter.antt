-- ===== src/Setter.antt =====
-- The values of contexts: lib/context_value.c. Of a context stands here what its functions read and
-- write; error messages are left out. The members of struct disir_value share their memory:
-- `holds_pointer` says that dv_string was written last. Where a number is read as dv_string the
-- answer is `none`, a fault (also where its bits are all 0, which would be read as NULL).
pub mod Checks
pub mod Store
pub mod Api
pub mod Getters
pub mod Obeys
pub mod Checked
pub mod Finalized
pub mod Constructing
pub mod RoundTrip
use disir_c.Prelude.{ℕ, Bool, Option, List}
use disir_c.Prelude.Int.{ℤ}
use disir_c.Context.{ContextType}
use disir_c.Value.{Platform, Value, ValueType}
use disir_c.Version.{Version}
use disir_c.Restriction.{Doubles, Restriction}

-- What the machine provides for the type double of a platform.
pub record Arithmetic (P : Platform) : Type 0 where
  pub leb_double : P.Double → P.Double → Bool
  pub eqb_double : P.Double → P.Double → Bool
  pub of_integer : ℤ → P.Double
  pub to_int : P.Double → ℤ
  -- strtod; without a conversion, endptr is at the start
  pub strtod : List ℕ → Option P.Double

abbrev pub doubles_of : (P : Platform) → Arithmetic P → Doubles
doubles_of P A = record {
  Double = P.Double;
  leb_double = A.leb_double;
  eqb_double = A.eqb_double;
  of_integer = A.of_integer;
  to_int = A.to_int;
}

module _ (P : Platform) (A : Arithmetic P) where
  -- The keyval of the mold that kv_mold_equiv points to
  pub record MoldKeyval : Type 0 where
    pub value_type : ValueType
    pub kv_restrictions_queue : List (Restriction (doubles_of P A))

  -- struct disir_context; `value` is kv_value, de_value or dd_value, by its type.
  pub record Context : Type 0 where
    pub cx_type : ContextType
    pub destroyed : Bool
    pub constructing : Bool
    pub finalized : Bool
    pub invalid : Bool
    pub root_type : ContextType
    pub cf_version : Version
    pub value : Value P
    pub holds_pointer : Bool
    pub kv_name_size : ℕ
    pub kv_mold_equiv : Option (MoldKeyval)
