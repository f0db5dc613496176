-- ===== src/Restriction/Edit.antt =====
-- The setters and getters of a restriction: dc_set_restriction_type to dc_restriction_get_numeric of
-- lib/context_restriction.c. The context is not NULL, strdup is granted, and of the parent stands
-- here whether it is a section or a keyval, with its value type. Error messages are left out.
pub mod Suits
use disir_c.Prelude.{
  ℕ, Bool, true, false, not, ◌&&◌, Option, none, some, List, [], ◌∷◌, ◌==◌, if◌then◌else◌,
}
use disir_c.Context.{ContextType, restriction_type, unknown_type, context_number}
use disir_c.Status.{
  Status, ok, invalid_argument, destroyed_context, context_in_wrong_state, wrong_context,
  wrong_value_type, is_ok,
}
use disir_c.Value.{ValueType, integer, float, enum, type_number}
use disir_c.Restriction.{
  Doubles, RestrictionType, inc_entry_min, inc_entry_max, exc_value_enum, exc_value_range,
  exc_value_numeric, unknown_restriction,
}
use disir_c.Restriction.Names.{Group, exclusive, group_type}

pub data ParentContext : Type 0 where
  section_parent : ParentContext
  keyval_parent : ValueType → ParentContext

abbrev pub is_section : ParentContext → Bool
is_section section_parent = true
is_section (keyval_parent t) = false

abbrev pub is_exclusive : Group → Bool
is_exclusive exclusive = true
is_exclusive _ = false

-- The value type of the parent, where it is a keyval
abbrev pub has_type : ParentContext → ValueType → Bool
has_type section_parent t = false
has_type (keyval_parent s) t = type_number s == type_number t

-- The switch of dc_set_restriction_type
abbrev pub parent_check : ParentContext → RestrictionType → Status
parent_check p inc_entry_min = ok
parent_check p inc_entry_max = ok
parent_check p exc_value_enum = if has_type p enum then ok else wrong_value_type
parent_check p exc_value_range =
    if not (has_type p integer) && not (has_type p float) then wrong_value_type else ok
parent_check p exc_value_numeric =
    if not (has_type p integer) && not (has_type p float) then wrong_value_type else ok
parent_check p unknown_restriction = invalid_argument

module _ (D : Doubles) where
  -- struct disir_context with its struct disir_restriction
  pub record RestrictionContext : Type 0 where
    pub cx_type : ContextType
    pub destroyed : Bool
    pub finalized : Bool
    pub parent : ParentContext
    pub re_type : RestrictionType
    pub re_value_string : Option (List ℕ)
    pub re_value_min : D.Double
    pub re_value_max : D.Double
    pub re_value_numeric : D.Double

  -- The checks of the context that all the functions begin with
  abbrev pub alive_check : RestrictionContext → Status
  alive_check c =
      if c.destroyed
      then destroyed_context
      else if context_number c.cx_type == context_number unknown_type
      then context_in_wrong_state
      else ok

  abbrev pub kind_check : RestrictionContext → Status
  kind_check c =
      if context_number c.cx_type == context_number restriction_type then ok else wrong_context

  abbrev pub start_check : RestrictionContext → Status
  start_check c = let s : Status = alive_check c in if is_ok s then kind_check c else s

  -- A getter: the flag says that its output pointers are not NULL.
  abbrev pub getter {ℓ} :
      {X : Type ℓ} → RestrictionContext → Bool → Status × Option X → Status × Option X
  getter c output answer =
      let s : Status = alive_check c in
      let k : Status = kind_check c in
      if not (is_ok s)
      then (s, none)
      else if not output
      then (invalid_argument, none)
      else if not (is_ok k)
      then (k, none)
      else answer

  -- dc_get_restriction_type
  abbrev pub get_restriction_type : RestrictionContext → Bool → Status × Option RestrictionType
  get_restriction_type c output = getter c output (ok, some c.re_type)

  -- dc_set_restriction_type
  abbrev pub set_restriction_type :
      RestrictionType → RestrictionContext → Status × RestrictionContext
  set_restriction_type t c =
      let s : Status = start_check c in
      let p : Status = parent_check c.parent t in
      if not (is_ok s)
      then (s, c)
      else if c.finalized
      then (context_in_wrong_state, c)
      else if is_section c.parent && is_exclusive (group_type t)
      then (wrong_context, c)
      else if is_ok p
      then (ok, record c { re_type = t })
      else (p, c)

  -- dc_restriction_get_string
  abbrev pub restriction_get_string : RestrictionContext → Bool → Status × Option (Option (List ℕ))
  restriction_get_string c output = getter c output (elim c.re_type [
    | exc_value_enum ↦ (ok, some c.re_value_string)
    | _ ↦ (wrong_value_type, none)
  ])

  -- dc_restriction_set_string; the text may be NULL.
  abbrev pub restriction_set_string :
      Option (List ℕ) → RestrictionContext → Status × RestrictionContext
  restriction_set_string none c =
      let s : Status = alive_check c in if is_ok s then (invalid_argument, c) else (s, c)
  restriction_set_string (some text) c =
      let s : Status = start_check c in
      if not (is_ok s) then (s, c) else elim c.re_type [
        | exc_value_enum ↦ (ok, record c { re_value_string = some text })
        | _ ↦ (wrong_value_type, c)
      ]

  -- dc_restriction_get_range
  abbrev pub restriction_get_range :
      RestrictionContext → Bool → Status × Option (D.Double × D.Double)
  restriction_get_range c output = getter c output (elim c.re_type [
    | exc_value_range ↦ (ok, some (c.re_value_min, c.re_value_max))
    | _ ↦ (wrong_value_type, none)
  ])

  -- dc_restriction_get_numeric
  abbrev pub restriction_get_numeric : RestrictionContext → Bool → Status × Option D.Double
  restriction_get_numeric c output = getter c output (elim c.re_type [
    | exc_value_numeric ↦ (ok, some c.re_value_numeric)
    | inc_entry_min ↦ (ok, some c.re_value_min)
    | inc_entry_max ↦ (ok, some c.re_value_max)
    | _ ↦ (wrong_value_type, none)
  ])

  -- A number converted to int64_t and back, which the machine provides
  module _ (truncate : D.Double → D.Double) where
    -- For an integer keyval, a number is stored without its fraction.
    abbrev pub fitted : ParentContext → D.Double → D.Double
    fitted p x = if has_type p integer then truncate x else x

    -- dc_restriction_set_range
    abbrev pub restriction_set_range :
        D.Double → D.Double → RestrictionContext → Status × RestrictionContext
    restriction_set_range low high c =
        let s : Status = start_check c in
        if not (is_ok s) then (s, c) else elim c.re_type [
          | exc_value_range ↦ (
            ok,
            record c { re_value_min = fitted c.parent low; re_value_max = fitted c.parent high },
          )
          | _ ↦ (wrong_value_type, c)
        ]

    -- dc_restriction_set_numeric
    abbrev pub restriction_set_numeric : D.Double → RestrictionContext → Status × RestrictionContext
    restriction_set_numeric x c =
        let s : Status = start_check c in
        if not (is_ok s) then (s, c) else elim c.re_type [
          | exc_value_numeric ↦ (ok, record c { re_value_numeric = fitted c.parent x })
          | inc_entry_min ↦ (ok, record c { re_value_min = fitted c.parent x })
          | inc_entry_max ↦ (ok, record c { re_value_max = fitted c.parent x })
          | _ ↦ (wrong_value_type, c)
        ]
