-- ===== src/Validate/Conforming.antt =====
-- dx_validate_context of lib/validate.c answers OK on the contexts that conform, and on no other.
use disir_c.Prelude.{
  ℕ, Bool, false, not, ◌&&◌, Option, none, some, List, ◌≡◌, refl, ◌∙◌, inl, inr, ◌==◌, Bool-cases,
  arith,
}
use disir_c.Status.{Status, ok, mold_missing, elements_invalid, is_ok}
use disir_c.Value.{type_number}
use disir_c.Version.{Version}
use disir_c.Restriction.{Doubles}
use disir_c.Validate.{Flags, MoldElement, Keyval, Section, Node, Nodes, keyval, section, end, node}
use disir_c.Validate.Settle.{Settled, settle}
use disir_c.Validate.Name.{validate_name}
use disir_c.Validate.Values.{Parent, validate_against}
use disir_c.Validate.Inclusive.{validate_config_section}
use disir_c.Validate.Tree.{
  is_describable, named_validity, settle_checked, or_else, cleared, section_validity, names_of,
  with_flags, section_result, section_own, keyval_validity, validate_keyval, validate_node,
  validate_nodes,
}
use disir_c.Validate.Conforms.{
  passes, answers_ok, has_room, is_permitted, keyval_conforms, section_conforms, conforms,
  all_conform, or_else-is_ok, passes-settle, validate_name-is_ok, validate_room-is_ok,
  exclusive-is_ok, inclusive-is_ok,
}

passes-with_flags :
    (D : Doubles) (r : Settled) (build : Flags → Node D) → passes (with_flags D r build) ≡ passes r
passes-with_flags D none build = refl
passes-with_flags D (some (s, f)) build = refl

describable_of_ok : (own : Status) → is_describable own ≡ false → is_ok own ≡ false
describable_of_ok own h = ground arith

both-is_ok :
    (a : Option Status) (b : Status) → answers_ok (named_validity b a) ≡ (is_ok b && answers_ok a)
both-is_ok none b = ground arith
both-is_ok (some a) b = ground arith

passes-checked :
    (f : Flags) (p : Bool) (o : Option Status) → passes (settle_checked f p o) ≡ answers_ok o
passes-checked f p none = refl
passes-checked f p (some s) = passes-settle f p s

mold_missing-fails : (a : Status) → is_ok (or_else a mold_missing) ≡ false
mold_missing-fails a = ground arith

pub section_validity-is_ok :
    (own children : Status) → is_ok (section_validity own children) ≡ (is_ok own && is_ok children)
section_validity-is_ok own children = ground arith

module _ (D : Doubles) (v : Version) (unset : D.Double) where
  validate_against-is_ok :
      (parent : Parent) (f : Flags) (k : Keyval D) (m : MoldElement D)
      → answers_ok (validate_against D v unset parent f k m) ≡ (
          has_room D v parent f m k.kv_name
          && ((type_number m.value_type == type_number k.value_type) && is_permitted D v unset k m))
  validate_against-is_ok parent f k m =
      ground (arith, validate_room-is_ok D v parent f m k.kv_name, exclusive-is_ok D v unset k m)

  pub keyval_validity-is_ok :
      (parent : Parent) (f : Flags) (k : Keyval D)
      → answers_ok (keyval_validity D v unset parent f k) ≡ keyval_conforms D v unset parent f k
  keyval_validity-is_ok parent f k =
      elim k.kv_mold_equiv
        as (λ e.
          answers_ok (keyval_validity D v unset parent f (record k { kv_mold_equiv = e }))
          ≡ keyval_conforms D v unset parent f (record k { kv_mold_equiv = e })) [
            | none ↦ ground arith
            | some m ↦
                both-is_ok
                  (validate_against D v unset parent f (record k { kv_mold_equiv = some m }) m)
                  (validate_name k.kv_name)
                ∙ rw
                    (
                      validate_name-is_ok k.kv_name,
                      validate_against-is_ok parent f (record k { kv_mold_equiv = some m }) m,
                    )
                    refl
          ]

  section_own-is_ok :
      (parent : Parent) (f : Flags) (s : Section D) (names : List (List ℕ))
      → is_ok (section_own D s (validate_config_section D v parent f s names).0)
        ≡ section_conforms D v parent f s names
  section_own-is_ok parent f s names =
      elim s.se_mold_equiv
        as (λ e.
          is_ok (
            section_own D (record s { se_mold_equiv = e })
              (validate_config_section D v parent f (record s { se_mold_equiv = e }) names).0)
          ≡ section_conforms D v parent f (record s { se_mold_equiv = e }) names) [
            | none ↦ ground arith
            | some m ↦ ground (
              arith,
              validate_room-is_ok D v parent f m s.se_name,
              inclusive-is_ok D v f names s.mold_elements,
              validate_name-is_ok s.se_name,
            )
          ]

  validate_keyval-passes :
      (parent : Parent) (f : Flags) (k : Keyval D)
      → passes (validate_keyval D v unset parent f k)
        ≡ (not f.fatal && keyval_conforms D v unset parent f k)
  validate_keyval-passes parent f k = ground (
    arith,
    keyval_validity-is_ok parent (cleared f) k,
    passes-checked (cleared f) parent.finalized (keyval_validity D v unset parent (cleared f) k),
  )

  undescribed-fails :
      (parent : Parent) (s : Section D) (ns : Nodes D) (status : Status) (g : Flags)
      → is_describable (section_own D s status) ≡ false
      → passes (
          with_flags D
            (settle g parent.finalized (or_else status (section_own D s status)))
            (λ h. section h s ns))
        ≡ false
  undescribed-fails parent s ns status g e =
      passes-with_flags D (settle g parent.finalized (or_else status (section_own D s status)))
        (λ h. section h s ns)
      ∙ passes-settle g parent.finalized (or_else status (section_own D s status))
      ∙ or_else-is_ok status (section_own D s status)
      ∙ rw (describable_of_ok (section_own D s status) e) (ground arith)

  section_result-passes :
      (parent : Parent) (f : Flags) (s : Section D) (ns : Nodes D) (checks : Status × Flags)
      (r : Option (Status × Nodes D))
      → passes (section_result D parent f s ns checks r)
        ≡ (not f.fatal && (is_ok (section_own D s checks.0) && passes r))
  section_result-passes parent f s ns (status, g) none = elim (Bool-cases f.fatal) [
    | inl fatal ↦ rw (fatal, section_result) (ground arith)
    | inr living ↦ elim (Bool-cases (is_describable (section_own D s status))) [
      | inl e ↦ rw (living, e, section_result) (ground arith)
      | inr e ↦
          rw (living, e, section_result)
            (rw (describable_of_ok (section_own D s status) e)
              (undescribed-fails parent s ns status g e))
    ]
  ]
  section_result-passes parent f s ns (status, g) (some (t, ns')) = elim (Bool-cases f.fatal) [
    | inl fatal ↦ rw (fatal, section_result) (ground arith)
    | inr living ↦ elim (Bool-cases (is_describable (section_own D s status))) [
      | inl e ↦
          rw (living, e, section_result)
            (passes-with_flags D
                (settle g parent.finalized (section_validity (section_own D s status) t))
                (λ h. section h s ns')
              ∙ passes-settle g parent.finalized (section_validity (section_own D s status) t)
              ∙ section_validity-is_ok (section_own D s status) t)
      | inr e ↦
          rw (living, e, section_result)
            (rw (describable_of_ok (section_own D s status) e)
              (undescribed-fails parent s ns status g e))
    ]
  ]

  mutual
    unfolding validate_node validate_nodes conforms all_conform

    node_passes :
        (parent : Parent) (n : Node D)
        → passes (validate_node D v unset parent n) ≡ conforms D v unset parent n
    node_passes parent (keyval f k) =
        passes-with_flags D (validate_keyval D v unset parent f k) (λ g. keyval g k)
        ∙ validate_keyval-passes parent f k
    node_passes parent (section f s ns) =
        section_result-passes parent f s ns
          (validate_config_section D v parent (cleared f) s (names_of D ns))
          (validate_nodes D v unset (record { finalized = f.finalized; names = names_of D ns }) ns
            ok)
        ∙ ground (
          arith,
          section_own-is_ok parent (cleared f) s (names_of D ns),
          validate_nodes-conforms (record { finalized = f.finalized; names = names_of D ns }) ns ok,
        )

    pub validate_nodes-conforms :
        (parent : Parent) (ns : Nodes D) (invalid : Status)
        → passes (validate_nodes D v unset parent ns invalid)
          ≡ (is_ok invalid && all_conform D v unset parent ns)
    validate_nodes-conforms parent end invalid = ground arith
    validate_nodes-conforms parent (node n ns) invalid = ground (
      arith,
      node_passes parent n,
      validate_nodes-conforms parent ns invalid,
      validate_nodes-conforms parent ns elements_invalid,
    )

  -- Validating a keyval or a section of a config answers OK exactly when it conforms, with all that
  -- is below it.
  pub validate_node-conforms :
      (parent : Parent) (n : Node D)
      → passes (validate_node D v unset parent n) ≡ conforms D v unset parent n
  validate_node-conforms parent n = node_passes parent n
