-- ===== src/Setter/Checks.antt =====
-- get_value_input_check and set_value_input_check of lib/context_value.c, and the checks of a context
-- in lib/context_util.c.
use disir_c.Prelude.{Bool, true, not, ◌||◌, none, some, ◌==◌, if◌then◌else◌}
use disir_c.Context.{
  ContextType, mold_type, keyval_type, documentation_type, default_type, unknown_type,
  context_number,
}
use disir_c.Status.{
  Status, ok, destroyed_context, context_in_wrong_state, wrong_context, mold_missing,
  invalid_context, wrong_value_type, is_ok,
}
use disir_c.Value.{Platform, ValueType, type_number, unknown}
use disir_c.Setter.{Arithmetic, Context}

abbrev pub is_type : ContextType → ContextType → Bool
is_type s t = context_number s == context_number t

abbrev pub same_type : ValueType → ValueType → Bool
same_type s t = type_number s == type_number t

module _ (P : Platform) (A : Arithmetic P) where
  -- dx_context_sp_full_check_log_error on a context that is not NULL
  abbrev pub full_check : Context P A → Status
  full_check c =
      if c.destroyed
      then destroyed_context
      else if is_type c.cx_type unknown_type
      then context_in_wrong_state
      else ok

  -- CONTEXT_TYPE_CHECK with three types
  abbrev pub type_check : Context P A → ContextType → ContextType → ContextType → Status
  type_check c s t u =
      if is_type c.cx_type s || (is_type c.cx_type t || is_type c.cx_type u)
      then ok
      else wrong_context

  -- dc_value_type
  abbrev pub value_type_of : Context P A → ValueType
  value_type_of c =
      if is_type c.cx_type default_type || is_type c.cx_type keyval_type
      then c.value.dv_type
      else unknown

  abbrev pub with_type : ValueType → Context P A → Context P A
  with_type t c = record c { value = record c.value { dv_type = t } }

  -- A keyval takes the type of its mold first.
  abbrev pub mold_corrected : Context P A → Context P A
  mold_corrected c = elim c.kv_mold_equiv [ none ↦ c | some m ↦ with_type m.value_type c ]

  -- The use cases 1, 2 and 3 of a keyval in construction.
  abbrev pub constructing_check : Context P A → ValueType → Status × Context P A
  constructing_check c t = if c.kv_name_size == 0 then (mold_missing, c) else elim c.kv_mold_equiv [
    | none ↦ (invalid_context, with_type t c)
    | some m ↦
        if same_type m.value_type t
        then (ok, c)
        else (invalid_context, with_type t (record c { invalid = true }))
  ]

  abbrev pub keyval_check : Context P A → ValueType → Status × Context P A
  keyval_check c t =
      if c.constructing
      then constructing_check c t
      else if not c.finalized
      then (ok, c)
      else if c.invalid
      then (invalid_context, with_type t c)
      else if same_type (value_type_of c) t
      then (ok, c)
      else (wrong_value_type, c)

  -- set_value_input_check behind the checks of the context
  abbrev pub checked : Context P A → ValueType → Status × Context P A
  checked c t =
      if not (is_type c.cx_type keyval_type)
      then (ok, c)
      else if is_type c.root_type mold_type
      then (wrong_context, c)
      else keyval_check (mold_corrected c) t

  -- set_value_input_check; the storage is the value of the context.
  abbrev pub set_value_input_check : Context P A → ValueType → Status × Context P A
  set_value_input_check c t =
      let full : Status = full_check c in
      let kind : Status = type_check c default_type documentation_type keyval_type in
      if not (is_ok full) then (full, c) else if not (is_ok kind) then (kind, c) else checked c t

  -- get_value_input_check
  abbrev pub get_value_input_check : Context P A → Status
  get_value_input_check c =
      let full : Status = full_check c in
      let kind : Status = type_check c keyval_type default_type default_type in
      if not (is_ok full)
      then full
      else if not (is_ok kind)
      then kind
      else if not (is_type c.cx_type keyval_type)
      then ok
      else if is_type c.root_type mold_type
      then wrong_context
      else elim c.kv_mold_equiv [ none ↦ mold_missing | some m ↦ ok ]
