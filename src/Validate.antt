-- ===== src/Validate.antt =====
-- The validation of a config: lib/validate.c. A context of a config is a tree: a section holds its
-- elements in the order of their insertion, and of the mold a context reads what stands in
-- `MoldElement`. Every allocation is granted, so that the collections of elements are their lists;
-- what is written to the log is left out.
pub mod Settle
pub mod Name
pub mod Values
pub mod Inclusive
pub mod Tree
pub mod Conforms
pub mod Conforming
pub mod Readable
pub mod Total
pub mod Whole
pub mod Erase
pub mod Keeps
pub mod Invalid
use disir_c.Prelude.{ℕ, Bool, true, false, Option, none, some, List, [], ◌∷◌}
use disir_c.Prelude.Int.{ℤ}
use disir_c.Value.{ValueType}
use disir_c.Version.{Version}
use disir_c.Restriction.{Doubles, Restriction}

-- The state bits of a context that validation reads or writes.
pub record Flags : Type 0 where
  pub constructing : Bool
  pub finalized : Bool
  pub invalid : Bool
  pub fatal : Bool

module _ (D : Doubles) where
  -- An element of the mold: a keyval, introduced with the lowest of its defaults, or a section,
  -- whose value type is unknown.
  pub record MoldElement : Type 0 where
    pub name : List ℕ
    pub value_type : ValueType
    pub introduced : Option Version
    pub deprecated : Version
    pub restrictions : List (Restriction D)

  -- struct disir_keyval of a config; the text of an enum may be NULL.
  pub record Keyval : Type 0 where
    pub kv_name : List ℕ
    pub value_type : ValueType
    pub dv_integer : ℤ
    pub dv_float : D.Double
    pub dv_string : Option (List ℕ)
    pub kv_mold_equiv : Option (MoldElement)

  -- struct disir_section of a config; `mold_elements` are the elements of its mold equivalent.
  pub record Section : Type 0 where
    pub se_name : List ℕ
    pub se_mold_equiv : Option (MoldElement)
    pub mold_elements : List (MoldElement)

  mutual
    pub data Node : Type 0 where
      keyval : Flags → Keyval → Node
      section : Flags → Section → Nodes → Node

    pub data Nodes : Type 0 where
      end : Nodes
      node : Node → Nodes → Nodes

  -- struct disir_config: `mold_elements` are the elements of its mold.
  pub record Config : Type 0 where
    pub flags : Flags
    pub cf_version : Version
    pub mold_elements : List (MoldElement)
    pub cf_elements : Nodes
