-- ===== src/Validate/Tree.antt =====
-- dx_validate_context on the contexts of a config, with validate_children and the cases of
-- validate_context_validity.
use disir_c.Prelude.{ℕ, Bool, true, false, Option, none, some, List, [], ◌∷◌, if◌then◌else◌}
use disir_c.Status.{
  Status, ok, invalid_context, fatal_context, wrong_value_type, default_missing, mold_missing,
  conflicting_semver, restriction_violated, elements_invalid, is_ok,
}
use disir_c.Version.{Version}
use disir_c.Restriction.{Doubles}
use disir_c.Validate.{Flags, Keyval, Section, Node, Nodes, keyval, section, end, node, Config}
use disir_c.Validate.Settle.{Settled, settle, settle_fatal, is_elements_invalid}
use disir_c.Validate.Name.{validate_name}
use disir_c.Validate.Values.{Parent, validate_config_keyval}
use disir_c.Validate.Inclusive.{validate_config_section, validate_inclusive_restrictions}

-- The statuses of a child that let validate_children go on.
abbrev pub is_tolerated : Status → Bool
is_tolerated ok = true
is_tolerated conflicting_semver = true
is_tolerated elements_invalid = true
is_tolerated invalid_context = true
is_tolerated restriction_violated = true
is_tolerated wrong_value_type = true
is_tolerated mold_missing = true
is_tolerated default_missing = true
is_tolerated _ = false

-- The statuses of a section's own checks that let its children be validated.
abbrev pub is_describable : Status → Bool
is_describable invalid_context = true
is_describable restriction_violated = true
is_describable mold_missing = true
is_describable wrong_value_type = true
is_describable conflicting_semver = true
is_describable ok = true
is_describable fatal_context = true
is_describable _ = false

-- `a` unless it is ok, `b` then
abbrev pub or_else : Status → Status → Status
or_else a b = if is_ok a then b else a

-- ELEMENTS_INVALID of the children is no error of the operation.
abbrev pub forgive : Status → Status
forgive s = if is_elements_invalid s then ok else s

-- INVALID is cleared before the checks.
abbrev pub cleared : Flags → Flags
cleared f = record f { invalid = false }

-- The result of the case SECTION, with the status of the children.
abbrev pub section_validity : Status → Status → Status
section_validity own children = or_else (forgive children) (or_else own children)

-- The status of a keyval's checks, by those of its name and of its value.
abbrev pub named_validity : Status → Option Status → Option Status
named_validity name none = none
named_validity name (some status) = some (or_else status (or_else name status))

abbrev pub settle_checked : Flags → Bool → Option Status → Settled
settle_checked f parent_finalized none = none
settle_checked f parent_finalized (some status) = settle f parent_finalized status

module _ (D : Doubles) where
  -- The names of the elements, as dc_find_elements compares them.
  abbrev pub name_of : Node D → List ℕ
  name_of (keyval f k) = k.kv_name
  name_of (section f s ns) = s.se_name

  abbrev pub names_of : Nodes D → List (List ℕ)
  names_of end = []
  names_of (node n ns) = name_of n ∷ names_of ns

  abbrev pub with_flags : Settled → (Flags → Node D) → Option (Status × Node D)
  with_flags none build = none
  with_flags (some (s, f)) build = some (s, build f)

  -- What the checks of a section give before its children: the variable `invalid`, and the status
  -- of validate_config_section.
  abbrev pub section_own : Section D → Status → Status
  section_own s status = or_else (validate_name s.se_name) status

  -- dx_validate_context on a section, given what validate_config_section and validate_children
  -- return; the latter counts only where it is called.
  abbrev pub section_result :
      Parent
      → Flags
      → Section D
      → Nodes D
      → Status × Flags
      → Option (Status × Nodes D)
      → Option (Status × Node D)
  section_result parent f s ns (status, g) elements = elim f.fatal [
    | true ↦ with_flags (settle_fatal f) (λ h. section h s ns)
    | false ↦ elim (is_describable (section_own s status)) [
      | false ↦
          with_flags (settle g parent.finalized (or_else status (section_own s status)))
            (λ h. section h s ns)
      | true ↦ elim elements [
        | none ↦ none
        | some (children, ns') ↦
            with_flags
              (settle g parent.finalized (section_validity (section_own s status) children))
              (λ h. section h s ns')
      ]
    ]
  ]

module _ (D : Doubles) (v : Version) (unset : D.Double) where
  -- The case KEYVAL of validate_context_validity; `none` is a fault.
  abbrev pub keyval_validity : Parent → Flags → Keyval D → Option Status
  keyval_validity parent f k =
      named_validity (validate_name k.kv_name) (validate_config_keyval D v unset parent f k)

  abbrev pub validate_keyval : Parent → Flags → Keyval D → Settled
  validate_keyval parent f k =
      if f.fatal
      then settle_fatal f
      else settle_checked (cleared f) parent.finalized (keyval_validity parent (cleared f) k)

  unfoldable mutual
    -- dx_validate_context on a keyval or a section of a config
    pub validate_node : Parent → Node D → Option (Status × Node D)
    validate_node parent (keyval f k) = with_flags D (validate_keyval parent f k) (λ g. keyval g k)
    validate_node parent (section f s ns) =
        section_result D parent f s ns
          (validate_config_section D v parent (cleared f) s (names_of D ns))
          (validate_nodes (record { finalized = f.finalized; names = names_of D ns }) ns ok)

    -- validate_children, with the variable `invalid`
    pub validate_nodes : Parent → Nodes D → Status → Option (Status × Nodes D)
    validate_nodes parent end invalid = some (invalid, end)
    validate_nodes parent (node n ns) invalid = elim (validate_node parent n) [
      | none ↦ none
      | some (s, n') ↦ elim (is_tolerated s) [
        | false ↦ some (s, node n' ns)
        | true ↦ elim (validate_nodes parent ns (if is_ok s then invalid else elements_invalid)) [
          | none ↦ none
          | some (t, ns') ↦ some (t, node n' ns')
        ]
      ]
    ]

module _ (D : Doubles) (unset : D.Double) where
  -- The cases CONFIG and MOLD, the one behind the other: the inclusive restrictions, which are
  -- either violated or ok, then the elements. A config has no
  -- parent.
  abbrev pub config_result :
      Config D → Status × Flags → Option (Status × Nodes D) → Option (Status × Config D)
  config_result c checks none = none
  config_result c checks (some (children, ns)) =
      elim (settle checks.1 false (section_validity checks.0 children)) [
        | none ↦ none
        | some (s, f) ↦ some (s, record c { flags = f; cf_elements = ns })
      ]

  -- dx_validate_context on a config
  abbrev pub validate_config : Config D → Option (Status × Config D)
  validate_config c =
      let checks : Status × Flags =
        validate_inclusive_restrictions D c.cf_version (cleared c.flags) (names_of D c.cf_elements)
          c.mold_elements in
      elim c.flags.fatal [
        | true ↦ elim (settle_fatal c.flags) [
          | none ↦ none
          | some (s, f) ↦ some (s, record c { flags = f })
        ]
        | false ↦ config_result c checks (
            validate_nodes D c.cf_version unset
              (record { finalized = c.flags.finalized; names = names_of D c.cf_elements })
              c.cf_elements ok)
      ]
