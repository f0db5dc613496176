-- ===== src/Validate/Keeps.antt =====
-- What dx_validate_context of lib/validate.c leaves of the contexts of a config: all of it but the state
-- bits INVALID.
use disir_c.Prelude.{Option, none, some}
use disir_c.Status.{Status}
use disir_c.Restriction.{Doubles}
use disir_c.Validate.{Config}
use disir_c.Validate.Tree.{cleared}
use disir_c.Validate.Erase.{erase_all}

module _ (D : Doubles) where
  abbrev pub erase_config : Config D → Config D
  erase_config c = record c { flags = cleared c.flags; cf_elements = erase_all D c.cf_elements }

  abbrev pub erased_config : Option (Status × Config D) → Option (Config D)
  erased_config none = none
  erased_config (some (s, c)) = some (erase_config c)
