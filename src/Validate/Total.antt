-- ===== src/Validate/Total.antt =====
-- The validation of a config returns where no NULL is compared: it never takes the branch of
-- dx_validate_context that ends the program, since no check of a config gives INVALID_CONTEXT.
use disir_c.Prelude.{
  ℕ, Bool, true, false, not, ◌&&◌, Option, none, some, List, [], ◌∷◌, ◌≡◌, refl, ◌∙◌, inl, inr,
  Bool-cases, arith,
}
use disir_c.Status.{Status, ok, elements_invalid}
use disir_c.Version.{Version}
use disir_c.Restriction.{Doubles}
use disir_c.Validate.{Flags, MoldElement, Keyval, Section, Node, Nodes, keyval, section, end, node}
use disir_c.Validate.Settle.{Settled, settle, is_invalid_context}
use disir_c.Validate.Name.{validate_name}
use disir_c.Validate.Values.{Parent, validate_room, validate_against, validate_config_keyval}
use disir_c.Validate.Inclusive.{validate_config_section}
use disir_c.Validate.Readable.{
  is_calm_answer, is_readable, is_readable_by, node_readable, all_readable, exclusive-calm,
}
use disir_c.Validate.Tree.{
  is_describable, named_validity, settle_checked, or_else, forgive, cleared, section_validity,
  names_of, with_flags, section_result, section_own, keyval_validity, validate_keyval,
  validate_node, validate_nodes,
}

-- The program goes on.
abbrev pub returns {ℓ} : {A : Type ℓ} → Option A → Bool
returns none = false
returns (some a) = true

-- It goes on, and not with INVALID_CONTEXT.
abbrev pub is_calm {ℓ} : {A : Type ℓ} → Option (Status × A) → Bool
is_calm none = false
is_calm (some (s, a)) = not (is_invalid_context s)

pub not_calm : (s : Status) → not (is_invalid_context s) ≡ true → is_invalid_context s ≡ false
not_calm s h = ground arith

pub returns-settle :
    (f : Flags) (p : Bool) (s : Status)
    → is_invalid_context s ≡ false
    → returns (settle f p s) ≡ true
returns-settle f p s h = ground arith

returns-with_flags :
    (D : Doubles) (r : Settled) (build : Flags → Node D)
    → returns (with_flags D r build) ≡ returns r
returns-with_flags D none build = refl
returns-with_flags D (some (s, f)) build = refl

pub or_else-calm :
    (a b : Status)
    → is_invalid_context a ≡ false
    → is_invalid_context b ≡ false
    → is_invalid_context (or_else a b) ≡ false
or_else-calm a b h k = ground arith

pub forgive-calm :
    (a : Status) → is_invalid_context a ≡ false → is_invalid_context (forgive a) ≡ false
forgive-calm a h = ground arith

pub and-both : (a b : Bool) → (a && b) ≡ true → (a ≡ true) × (b ≡ true)
and-both a b h = ground arith

validate_name-calm : (name : List ℕ) → is_invalid_context (validate_name name) ≡ false
validate_name-calm [] = refl
validate_name-calm (c ∷ cs) = ground (arith, validate_name-calm cs)

named-calm :
    (name : Status) (o : Option Status)
    → is_invalid_context name ≡ false
    → is_calm_answer o ≡ true
    → is_calm_answer (named_validity name o) ≡ true
named-calm name none h k = k
named-calm name (some s) h k = ground arith

returns-checked :
    (f : Flags) (p : Bool) (o : Option Status)
    → is_calm_answer o ≡ true
    → returns (settle_checked f p o) ≡ true
returns-checked f p none k = k
returns-checked f p (some s) k = returns-settle f p s (not_calm s k)

module _ (D : Doubles) (v : Version) where
  validate_room-calm :
      (parent : Parent) (f : Flags) (m : MoldElement D) (name : List ℕ)
      → is_invalid_context (validate_room D v parent f m name) ≡ false
  validate_room-calm parent f m name = ground arith

  validate_against-calm :
      (unset : D.Double) (parent : Parent) (f : Flags) (k : Keyval D) (m : MoldElement D)
      → is_readable_by D v unset k m ≡ true
      → is_calm_answer (validate_against D v unset parent f k m) ≡ true
  validate_against-calm unset parent f k m h =
      ground (arith, validate_room-calm parent f m k.kv_name, exclusive-calm D v unset k m h)

  config_keyval-calm :
      (unset : D.Double) (parent : Parent) (f : Flags) (k : Keyval D)
      → is_readable D v unset k ≡ true
      → is_calm_answer (validate_config_keyval D v unset parent f k) ≡ true
  config_keyval-calm unset parent f k =
      elim k.kv_mold_equiv
        as (λ e.
          is_readable D v unset (record k { kv_mold_equiv = e }) ≡ true
          → is_calm_answer
              (validate_config_keyval D v unset parent f (record k { kv_mold_equiv = e }))
            ≡ true) [
              | none ↦ λ h. refl
              | some m ↦ λ h.
                  validate_against-calm unset parent f (record k { kv_mold_equiv = some m }) m h
            ]

  pub config_section-calm :
      (parent : Parent) (f : Flags) (s : Section D) (names : List (List ℕ))
      → is_invalid_context (validate_config_section D v parent f s names).0 ≡ false
  config_section-calm parent f s names =
      elim s.se_mold_equiv
        as (λ e.
          is_invalid_context
            (validate_config_section D v parent f (record s { se_mold_equiv = e }) names).0
          ≡ false) [
            | none ↦ refl
            | some m ↦ ground (arith, validate_room-calm parent f m s.se_name)
          ]

module _ (D : Doubles) (v : Version) (unset : D.Double) where
  pub keyval_validity-calm :
      (parent : Parent) (f : Flags) (k : Keyval D)
      → is_readable D v unset k ≡ true
      → is_calm_answer (keyval_validity D v unset parent f k) ≡ true
  keyval_validity-calm parent f k h =
      named-calm (validate_name k.kv_name) (validate_config_keyval D v unset parent f k)
        (validate_name-calm k.kv_name) (config_keyval-calm D v unset parent f k h)

  validate_keyval-returns :
      (parent : Parent) (f : Flags) (k : Keyval D)
      → is_readable D v unset k ≡ true
      → returns (validate_keyval D v unset parent f k) ≡ true
  validate_keyval-returns parent f k h = ground (
    arith,
    returns-checked (cleared f) parent.finalized (keyval_validity D v unset parent (cleared f) k)
        (keyval_validity-calm parent (cleared f) k h),
  )

  pub section_own-calm :
      (parent : Parent) (f : Flags) (s : Section D) (names : List (List ℕ))
      → is_invalid_context (section_own D s (validate_config_section D v parent f s names).0)
        ≡ false
  section_own-calm parent f s names =
      or_else-calm _ _ (validate_name-calm s.se_name) (config_section-calm D v parent f s names)

  section_result-returns :
      (parent : Parent) (f : Flags) (s : Section D) (ns : Nodes D) (checks : Status × Flags)
      (r : Option (Status × Nodes D))
      → is_invalid_context checks.0 ≡ false
      → is_invalid_context (section_own D s checks.0) ≡ false
      → is_calm r ≡ true
      → returns (section_result D parent f s ns checks r) ≡ true
  section_result-returns parent f s ns (status, g) none h k c = cc
  section_result-returns parent f s ns (status, g) (some (t, ns')) h k c =
      elim (Bool-cases f.fatal) [
        | inl fatal ↦ rw (fatal, section_result) (ground arith)
        | inr living ↦ elim (Bool-cases (is_describable (section_own D s status))) [
          | inl e ↦
              let calm = not_calm _ c in
              rw (living, e, section_result)
                (returns-with_flags D _ (λ x. section x s ns')
                  ∙ returns-settle g parent.finalized (section_validity (section_own D s status) t)
                      (or_else-calm _ _ (forgive-calm t calm) (or_else-calm _ _ k calm)))
          | inr e ↦
              rw (living, e, section_result)
                (returns-with_flags D _ (λ x. section x s ns)
                  ∙ returns-settle g parent.finalized (or_else status (section_own D s status))
                      (or_else-calm _ _ h k))
        ]
      ]

  mutual
    unfolding validate_node validate_nodes node_readable all_readable

    validate_node-returns :
        (parent : Parent) (n : Node D)
        → node_readable D v unset n ≡ true
        → returns (validate_node D v unset parent n) ≡ true
    validate_node-returns parent (keyval f k) r =
        returns-with_flags D (validate_keyval D v unset parent f k) (λ g. keyval g k)
        ∙ validate_keyval-returns parent f k r
    validate_node-returns parent (section f s ns) r =
        section_result-returns parent f s ns
          (validate_config_section D v parent (cleared f) s (names_of D ns))
          (validate_nodes D v unset (record { finalized = f.finalized; names = names_of D ns }) ns
            ok)
          (config_section-calm D v parent (cleared f) s (names_of D ns))
          (section_own-calm parent (cleared f) s (names_of D ns))
          (validate_nodes-calm (record { finalized = f.finalized; names = names_of D ns }) ns ok r
            refl)

    pub validate_nodes-calm :
        (parent : Parent) (ns : Nodes D) (invalid : Status)
        → all_readable D v unset ns ≡ true
        → is_invalid_context invalid ≡ false
        → is_calm (validate_nodes D v unset parent ns invalid) ≡ true
    validate_nodes-calm parent end invalid r h = ground arith
    validate_nodes-calm parent (node n ns) invalid r h =
        let both = and-both (node_readable D v unset n) (all_readable D v unset ns) r in
        ground (
          arith,
          validate_node-returns parent n both.0,
          validate_nodes-calm parent ns invalid both.1 h,
          validate_nodes-calm parent ns elements_invalid both.1 refl,
        )
