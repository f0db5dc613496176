-- ===== src/Compare.antt =====
-- The comparison of contexts: lib/compare.c. A context is a tree, whose sections hold their elements
-- in the order of their insertion; a queue is the list that it represents. A report is the list of
-- its differences, one constructor for each format; Compare/Report says how it is stored. Every
-- allocation behind the first is granted, and no element is destroyed.
pub mod Queues
pub mod Loops
pub mod Contexts
pub mod Report
pub mod Alike
pub mod Each
pub mod Agree
pub mod Same
pub mod Pairs
pub mod Whole
use disir_c.Prelude.{ℕ, Bool, true, false, Option, List, [], ◌∷◌, ◌==◌}
use disir_c.Context.{ContextType}
use disir_c.Value.{Platform, Value, ValueType, type_number, unknown}
use disir_c.Version.{Version}
use disir_c.Restriction.{Doubles, RestrictionType}

pub data Side : Type 0 where
  lhs rhs : Side

-- What dx_diff_report_add is told: the names, types and versions that its formats print.
pub data Difference : Type 0 where
  different_root : List ℕ → ContextType → List ℕ → ContextType → Difference
  different_type : List ℕ → ContextType → List ℕ → ContextType → Difference
  different_value_type : List ℕ → ValueType → List ℕ → ValueType → Difference
  different_value : List ℕ → List ℕ → Difference
  missing_documentation missing_default missing_restriction : Side → Difference
  documentation_version default_version : Version → Version → Difference
  documentation_text default_value restriction_values : Difference
  restriction_introduced restriction_deprecated : Version → Version → Difference
  different_restriction : RestrictionType → RestrictionType → Difference
  not_found extra_entry missing_entry not_in_lhs : List ℕ → Difference

module _ (P : Platform) (D : Doubles) where
  -- struct disir_documentation, and struct disir_default, which has the same members
  pub record Documentation : Type 0 where
    pub dd_introduced : Version
    pub dd_value : Value P

  pub record DefaultEntry : Type 0 where
    pub de_introduced : Version
    pub de_value : Value P

  -- struct disir_restriction
  pub record RestrictionEntry : Type 0 where
    pub re_introduced : Version
    pub re_deprecated : Version
    pub re_documentation_queue : List (Documentation)
    pub re_type : RestrictionType
    pub re_value_string : Option (List ℕ)
    pub re_value_numeric : D.Double
    pub re_value_min : D.Double
    pub re_value_max : D.Double

  -- struct disir_keyval and struct disir_section, of a config or of a mold
  pub record Keyval : Type 0 where
    pub kv_name : List ℕ
    pub kv_value : Value P
    pub kv_documentation_queue : List (Documentation)
    pub kv_default_queue : List (DefaultEntry)
    pub kv_restrictions_queue : List (RestrictionEntry)

  pub record Section : Type 0 where
    pub se_name : List ℕ
    pub se_documentation_queue : List (Documentation)
    pub se_restrictions_queue : List (RestrictionEntry)

  mutual
    pub data Element : Type 0 where
      keyval : Keyval → Element
      section : Section → Elements → Element

    pub data Elements : Type 0 where
      end : Elements
      element : Element → Elements → Elements

  -- What dc_compare is given: a config, a mold, an element below a root of the type, or another
  -- context, which has a value type where it is a default.
  pub data Context : Type 0 where
    config : Elements → Context
    mold : List (Documentation) → Elements → Context
    below : ContextType → Element → Context
    other : ContextType → ContextType → ValueType → Context

  -- dc_get_name on an element
  abbrev pub name_of : Element → List ℕ
  name_of (keyval k) = k.kv_name
  name_of (section s es) = s.se_name
