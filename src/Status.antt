-- ===== src/Status.antt =====
-- enum disir_status of include/disir/disir.h
use disir_c.Prelude.{Bool, true, false}

pub data Status : Type 0 where
  ok no_can_do invalid_argument too_few_arguments context_in_wrong_state wrong_context : Status
  invalid_context destroyed_context fatal_context bad_context_object no_memory no_error : Status
  internal_error insufficient_resources exists conflicting_semver conflict exhausted : Status
  mold_missing wrong_value_type not_exist restriction_violated elements_invalid : Status
  not_supported plugin_error load_error config_invalid group_missing permission_error : Status
  fs_error default_missing unknown : Status

-- the test `status == DISIR_STATUS_OK`
abbrev pub is_ok : Status → Bool
is_ok ok = true
is_ok _ = false
