-- ===== src/Validate/Erase.antt =====
-- The contexts of a config without their state bits INVALID, through dx_validate_context of
-- lib/validate.c.
use disir_c.Prelude.{
  ℕ, Bool, true, false, Option, none, some, List, ◌≡◌, refl, ap, ◌∙◌, inl, inr, if◌then◌else◌,
  Bool-cases, arith,
}
use disir_c.Status.{Status, ok, elements_invalid}
use disir_c.Version.{Version}
use disir_c.Restriction.{Doubles}
use disir_c.Validate.{Flags, Keyval, Section, Node, Nodes, keyval, section, end, node}
use disir_c.Validate.Settle.{Settled, settle, settle_fatal, is_invalid_context}
use disir_c.Validate.Values.{Parent}
use disir_c.Validate.Inclusive.{validate_config_section}
use disir_c.Validate.Tree.{
  is_describable, settle_checked, or_else, cleared, section_validity, names_of, with_flags,
  section_result, section_own, keyval_validity, validate_keyval, validate_node, validate_nodes,
}
use disir_c.Validate.Readable.{is_calm_answer, is_readable, node_readable, all_readable}
use disir_c.Validate.Total.{
  and-both, is_calm, not_calm, or_else-calm, forgive-calm, keyval_validity-calm,
  config_section-calm, section_own-calm, validate_nodes-calm,
}

-- the state bits without INVALID
abbrev pub after : Settled → Option Flags
after none = none
after (some (s, g)) = some (cleared g)

pub after-settle :
    (f g : Flags) (p : Bool) (s : Status)
    → cleared g ≡ cleared f
    → is_invalid_context s ≡ false
    → after (settle g p s) ≡ some (cleared f)
after-settle f g p s e h =
    let k : after (settle g p s) ≡ some (cleared g) = ground (arith, h) in k ∙ ap some e

after_choice :
    (b : Bool) (x y : Settled) (f : Flags)
    → after x ≡ some f
    → after y ≡ some f
    → after (if b then x else y) ≡ some f
after_choice true x y f h k = h
after_choice false x y f h k = k

module _ (D : Doubles) where
  unfoldable mutual
    -- A context without the state bits INVALID, its own and those below it.
    pub erase_node : Node D → Node D
    erase_node (keyval f k) = keyval (cleared f) k
    erase_node (section f s ns) = section (cleared f) s (erase_all ns)

    pub erase_all : Nodes D → Nodes D
    erase_all end = end
    erase_all (node n ns) = node (erase_node n) (erase_all ns)

  abbrev pub erased : Option (Status × Node D) → Option (Node D)
  erased none = none
  erased (some (s, n)) = some (erase_node n)

  abbrev pub erased_all : Option (Status × Nodes D) → Option (Nodes D)
  erased_all none = none
  erased_all (some (s, ns)) = some (erase_all ns)

  after-checked :
      (f : Flags) (p : Bool) (o : Option Status)
      → is_calm_answer o ≡ true
      → after (settle_checked (cleared f) p o) ≡ some (cleared f)
  after-checked f p none h = absurd cc
  after-checked f p (some s) h = after-settle f (cleared f) p s refl (not_calm s h)

  erased-keyval :
      (r : Settled) (f : Flags) (k : Keyval D)
      → after r ≡ some (cleared f)
      → erased (with_flags D r (λ g. keyval g k)) ≡ some (keyval (cleared f) k)
  unfolding erase_node
  erased-keyval none f k h = absurd cc
  erased-keyval (some (s, g)) f k h =
      ap (λ o. elim o [ none ↦ none | some c ↦ some (keyval c k) ]) h

  erased-section :
      (r : Settled) (f : Flags) (s : Section D) (ns : Nodes D) (es : Nodes D)
      → after r ≡ some (cleared f)
      → erase_all ns ≡ es
      → erased (with_flags D r (λ g. section g s ns)) ≡ some (section (cleared f) s es)
  unfolding erase_node
  erased-section none f s ns es h e = absurd cc
  erased-section (some (t, g)) f s ns es h e =
      ap (λ o. elim o [ none ↦ none | some c ↦ some (section c s (erase_all ns)) ]) h
      ∙ ap (λ x. some (section (cleared f) s x)) e

  section_flags :
      (v : Version) (parent : Parent) (f : Flags) (s : Section D) (names : List (List ℕ))
      → cleared (validate_config_section D v parent (cleared f) s names).1 ≡ cleared f
  section_flags v parent f s names = ground arith

  section_fatal :
      (parent : Parent) (f : Flags) (s : Section D) (ns : Nodes D) (checks : Status × Flags)
      (r : Option (Status × Nodes D))
      → f.fatal ≡ true
      → erased (section_result D parent f s ns checks r)
        ≡ erased (with_flags D (settle_fatal f) (λ h. section h s ns))
  section_fatal parent f s ns checks r e = simp (e, section_result) refl

  section_described :
      (parent : Parent) (f : Flags) (s : Section D) (ns ns' : Nodes D) (status t : Status)
      (g : Flags)
      → f.fatal ≡ false
      → is_describable (section_own D s status) ≡ true
      → section_result D parent f s ns (status, g) (some (t, ns'))
        ≡ with_flags D
            (settle g parent.finalized (section_validity (section_own D s status) t))
            (λ h. section h s ns')
  section_described parent f s ns ns' status t g e d = simp (e, d, section_result) refl

  section_undescribed :
      (parent : Parent) (f : Flags) (s : Section D) (ns : Nodes D) (r : Option (Status × Nodes D))
      (status : Status) (g : Flags)
      → f.fatal ≡ false
      → is_describable (section_own D s status) ≡ false
      → section_result D parent f s ns (status, g) r
        ≡ with_flags D
            (settle g parent.finalized (or_else status (section_own D s status)))
            (λ h. section h s ns)
  section_undescribed parent f s ns r status g e d = simp (e, d, section_result) refl

  section_result-erased :
      (parent : Parent) (f : Flags) (s : Section D) (ns : Nodes D) (checks : Status × Flags)
      (r : Option (Status × Nodes D))
      → cleared checks.1 ≡ cleared f
      → is_invalid_context checks.0 ≡ false
      → is_invalid_context (section_own D s checks.0) ≡ false
      → is_calm r ≡ true
      → erased_all r ≡ some (erase_all ns)
      → erased (section_result D parent f s ns checks r) ≡ some (erase_node (section f s ns))
  unfolding erase_node
  section_result-erased parent f s ns (status, g) none e h k c same = absurd cc
  section_result-erased parent f s ns (status, g) (some (t, ns')) e h k c same =
      let kept : erase_all ns' ≡ erase_all ns = cc in
      let calm = not_calm t c in
      elim (Bool-cases f.fatal) [
        | inl fatal ↦
            section_fatal parent f s ns (status, g) (some (t, ns')) fatal
            ∙ erased-section (settle_fatal f) f s ns (erase_all ns) refl refl
        | inr living ↦ elim (Bool-cases (is_describable (section_own D s status))) [
          | inl d ↦
              ap erased (section_described parent f s ns ns' status t g living d)
              ∙ erased-section
                  (settle g parent.finalized (section_validity (section_own D s status) t)) f s ns'
                  (erase_all ns)
                  (after-settle f g parent.finalized (section_validity (section_own D s status) t) e
                    (or_else-calm _ _ (forgive-calm t calm) (or_else-calm _ _ k calm)))
                  kept
          | inr d ↦
              ap erased (section_undescribed parent f s ns (some (t, ns')) status g living d)
              ∙ erased-section (settle g parent.finalized (or_else status (section_own D s status)))
                  f s ns (erase_all ns)
                  (after-settle f g parent.finalized (or_else status (section_own D s status)) e
                    (or_else-calm _ _ h k))
                  refl
        ]
      ]

  module _ (v : Version) (unset : D.Double) where
    after-keyval :
        (parent : Parent) (f : Flags) (k : Keyval D)
        → is_readable D v unset k ≡ true
        → after (validate_keyval D v unset parent f k) ≡ some (cleared f)
    after-keyval parent f k r =
        after_choice f.fatal (settle_fatal f)
          (settle_checked (cleared f) parent.finalized
            (keyval_validity D v unset parent (cleared f) k))
          (cleared f) refl
          (after-checked f parent.finalized (keyval_validity D v unset parent (cleared f) k)
            (keyval_validity-calm D v unset parent (cleared f) k r))

    mutual
      unfolding validate_node validate_nodes erase_node erase_all node_readable all_readable

      node_erased :
          (parent : Parent) (n : Node D)
          → node_readable D v unset n ≡ true
          → erased (validate_node D v unset parent n) ≡ some (erase_node n)
      node_erased parent (keyval f k) r =
          erased-keyval (validate_keyval D v unset parent f k) f k (after-keyval parent f k r)
      node_erased parent (section f s ns) r =
          let p : Parent = record { finalized = f.finalized; names = names_of D ns } in
          section_result-erased parent f s ns
            (validate_config_section D v parent (cleared f) s (names_of D ns))
            (validate_nodes D v unset p ns ok) (section_flags v parent f s (names_of D ns))
            (config_section-calm D v parent (cleared f) s (names_of D ns))
            (section_own-calm D v unset parent (cleared f) s (names_of D ns))
            (validate_nodes-calm D v unset p ns ok r refl) (nodes_erased p ns ok r)

      pub nodes_erased :
          (parent : Parent) (ns : Nodes D) (invalid : Status)
          → all_readable D v unset ns ≡ true
          → erased_all (validate_nodes D v unset parent ns invalid) ≡ some (erase_all ns)
      nodes_erased parent end invalid r = refl
      nodes_erased parent (node n ns) invalid r =
          let both = and-both (node_readable D v unset n) (all_readable D v unset ns) r in
          ground (
            arith,
            node_erased parent n both.0,
            nodes_erased parent ns invalid both.1,
            nodes_erased parent ns elements_invalid both.1,
          )
