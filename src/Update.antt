-- ===== src/Update.antt =====
-- The update of a config to a later version of its mold: lib/update.c and struct disir_update of
-- lib/include/update_private.h. The defaults of a keyval are those of its mold equivalent, a queue of
-- Default; a default entry is named by its address, `introduced` and `de_value` read its fields.
-- Every allocation is granted. The config that is generated for the target is left out: what comes of
-- generating it, and of setting a value in it, is an argument.
pub mod Collect
pub mod Run
pub mod Merge
pub mod Steps
pub mod Whole
pub mod Drive
pub mod Turns
pub mod Ends
use disir_c.Prelude.{ℕ, Option, none, some, List}
use disir_c.Value.{Platform, Value}
use disir_c.Version.{Version}
use disir_c.Queue.{Queue}

module _ (P : Platform) where
  -- struct disir_keyval of the config that is updated
  pub record Keyval : Type 0 where
    pub kv_name : List ℕ
    pub kv_value : Value P
    pub kv_default_queue : Queue

  mutual
    pub data Element : Type 0 where
      keyval : Keyval → Element
      section : Elements → Element

    pub data Elements : Type 0 where
      end : Elements
      element : Element → Elements → Elements

  -- struct disir_update. The collection of keyvals is split at its iterator; `passed` are those that
  -- were handed out, in order. `cf_version` is the version of the config that is updated.
  pub record Update : Type 0 where
    pub up_target : Version
    pub cf_version : Version
    pub passed : List (Keyval)
    pub up_collection : List (Keyval)
    pub up_updated : ℕ
    pub up_keyval : Option (Keyval)
    pub up_config_value : Option (List ℕ)
    pub up_mold_value : Option (List ℕ)
