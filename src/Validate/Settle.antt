-- ===== src/Validate/Settle.antt =====
-- What dx_validate_context makes of the status that the checks of a context give.
use disir_c.Prelude.{Bool, true, false, not, ◌&&◌, Option, none, some, if◌then◌else◌}
use disir_c.Status.{
  Status, invalid_context, fatal_context, wrong_value_type, default_missing, mold_missing,
  conflicting_semver, restriction_violated, elements_invalid, is_ok,
}
use disir_c.Validate.{Flags}

-- The answer of a validation and the state bits that it leaves; `none` is dx_crash_and_burn, or a
-- fault.
abbrev pub Settled : Type 0
Settled = Option (Status × Flags)

-- In the state FATAL nothing else is checked.
abbrev pub settle_fatal : Flags → Settled
settle_fatal f =
    some (if f.constructing then invalid_context else fatal_context, record f { invalid = true })

-- The statuses that put the context itself in the invalid state.
abbrev pub is_own_fault : Status → Bool
is_own_fault wrong_value_type = true
is_own_fault default_missing = true
is_own_fault fatal_context = true
is_own_fault mold_missing = true
is_own_fault conflicting_semver = true
is_own_fault restriction_violated = true
is_own_fault _ = false

abbrev pub is_invalid_context : Status → Bool
is_invalid_context invalid_context = true
is_invalid_context _ = false

abbrev pub is_elements_invalid : Status → Bool
is_elements_invalid elements_invalid = true
is_elements_invalid _ = false

-- The branches of dx_validate_context behind the checks, whose status is given; `f` holds the bits
-- that the checks leave, and `parent_finalized` says that there is a parent which is finalized.
abbrev pub settle : Flags → Bool → Status → Settled
settle f parent_finalized status =
    if parent_finalized && not (is_ok status)
    then (if is_invalid_context status then none else some (status, record f { invalid = true }))
    else if is_own_fault status
    then some (if f.constructing then invalid_context else status, record f { invalid = true })
    else if is_elements_invalid status && f.constructing
    then some (invalid_context, f)
    else some (status, f)
