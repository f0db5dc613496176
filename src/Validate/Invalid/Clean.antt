-- ===== src/Validate/Invalid/Clean.antt =====
-- An element that lib/validate.c finds valid is not in the state INVALID, nor is a context below it.
use disir_c.Prelude.{
  ℕ, ◌≡◌, refl, sym, ◌∙◌, Bool, true, false, Option, none, some, List, arith, if◌then◌else◌,
}
use disir_c.Status.{Status, ok, elements_invalid, is_ok}
use disir_c.Version.{Version}
use disir_c.Restriction.{Doubles}
use disir_c.Validate.{Flags, Keyval, Section, Node, Nodes, keyval, section, end, node}
use disir_c.Validate.Settle.{Settled, settle, settle_fatal}
use disir_c.Validate.Values.{Parent}
use disir_c.Validate.Name.{validate_name}
use disir_c.Validate.Inclusive.{validate_config_section}
use disir_c.Validate.Tree.{
  is_tolerated, is_describable, settle_checked, or_else, cleared, section_validity, names_of,
  with_flags, section_result, section_own, keyval_validity, validate_node, validate_nodes,
}
use disir_c.Validate.Invalid.{invalid_round, invalid_rounds}

settle_fatal-ok :
    (f : Flags) (t : Status) (g : Flags) → settle_fatal f ≡ some (t, g) → is_ok t ≡ false
settle_fatal-ok f t g h = ground arith

pub settle-is_ok :
    (f : Flags) (p : Bool) (s t : Status) (g : Flags)
    → settle f p s ≡ some (t, g)
    → is_ok t ≡ true
    → (is_ok s ≡ true) × (g.invalid ≡ f.invalid)
settle-is_ok f p s t g h k = ground arith

or_else-is_ok : (a b : Status) → is_ok (or_else a b) ≡ true → (is_ok a ≡ true) × (is_ok b ≡ true)
or_else-is_ok a b h = ground arith

pub forgive-is_ok :
    (own children : Status)
    → is_ok (section_validity own children) ≡ true
    → (is_ok own ≡ true) × (is_ok children ≡ true)
forgive-is_ok own children h = ground arith

describable : (s : Status) → is_ok s ≡ true → is_describable s ≡ true
describable s h = ground arith

tolerated : (s : Status) → is_ok s ≡ true → is_tolerated s ≡ true
tolerated s h = ground arith

both_ok :
    (s invalid : Status)
    → is_ok (if is_ok s then invalid else elements_invalid) ≡ true
    → (is_ok s ≡ true) × (is_ok invalid ≡ true)
both_ok s invalid h = ground arith

module _ (D : Doubles) where
  -- Where a validation answers ok, the context and those below it are not in the state INVALID.
  abbrev pub IsClean : Option (Status × Node D) → Type 0
  IsClean none = Unit
  IsClean (some (s, n)) = is_ok s ≡ true → (invalid_round D n).0 ≡ false

  abbrev pub AreClean : Option (Status × Nodes D) → Type 0
  AreClean none = Unit
  AreClean (some (s, ns)) = is_ok s ≡ true → (invalid_rounds D ns).0 ≡ false

  with_flags-IsClean :
      (o : Settled) (build : Flags → Node D)
      → ((t : Status) (g : Flags)
          → o ≡ some (t, g)
          → is_ok t ≡ true
          → (invalid_round D (build g)).0 ≡ false)
      → IsClean (with_flags D o build)
  with_flags-IsClean none build h = tt
  with_flags-IsClean (some (t, g)) build h = h t g refl

  living-IsClean :
      (parent : Parent) (f : Flags) (s : Section D) (ns : Nodes D) (status : Status) (g : Flags)
      → (is_ok status ≡ true → g.invalid ≡ false)
      → (b : Bool) → is_describable (section_own D s status) ≡ b
      → (elements : Option (Status × Nodes D)) → AreClean elements
      → IsClean (elim b [
        | false ↦
            with_flags D
              (settle g parent.finalized (or_else status (section_own D s status)))
              (λ h. section h s ns)
        | true ↦ elim elements [
          | none ↦ none
          | some (children, ns') ↦
              with_flags D
                (settle g parent.finalized (section_validity (section_own D s status) children))
                (λ h. section h s ns')
        ]
      ])
  unfolding invalid_round
  living-IsClean parent f s ns status g own false no_text elements below =
      with_flags-IsClean (settle g parent.finalized (or_else status (section_own D s status)))
        (λ h. section h s ns)
        (λ t h e k.
          let fine =
            settle-is_ok g parent.finalized (or_else status (section_own D s status)) t h e k in
          let shown : is_describable (section_own D s status) ≡ true =
            describable (section_own D s status)
              (or_else-is_ok status (section_own D s status) fine.0).1 in
          absurd (cc (sym shown ∙ no_text)))
  living-IsClean parent f s ns status g own true shown none below = tt
  living-IsClean parent f s ns status g own true shown (some (children, ns')) below =
      with_flags-IsClean
        (settle g parent.finalized (section_validity (section_own D s status) children))
        (λ h. section h s ns')
        (λ t h e k.
          let fine =
            settle-is_ok g parent.finalized (section_validity (section_own D s status) children) t h
              e k in
          let both = forgive-is_ok (section_own D s status) children fine.0 in
          let mine : h.invalid ≡ false =
            fine.1 ∙ own (or_else-is_ok (validate_name s.se_name) status both.0).1 in
          rw mine (below both.1))

  section_result-IsClean :
      (parent : Parent) (f : Flags) (s : Section D) (ns : Nodes D) (status : Status) (g : Flags)
      → (elements : Option (Status × Nodes D)) → (is_ok status ≡ true → g.invalid ≡ false)
      → AreClean elements
      → IsClean (section_result D parent f s ns (status, g) elements)
  unfolding invalid_round
  section_result-IsClean parent f s ns status g elements own below =
      elim f.fatal
        as (λ fatal. IsClean (elim fatal [
          | true ↦ with_flags D (settle_fatal f) (λ h. section h s ns)
          | false ↦ elim (is_describable (section_own D s status)) [
            | false ↦
                with_flags D (settle g parent.finalized (or_else status (section_own D s status)))
                  (λ h. section h s ns)
            | true ↦ elim elements [
              | none ↦ none
              | some (children, ns') ↦
                  with_flags D
                    (settle g parent.finalized (section_validity (section_own D s status) children))
                    (λ h. section h s ns')
            ]
          ]
        ])) [
          | true ↦
              with_flags-IsClean (settle_fatal f) (λ h. section h s ns)
                (λ t h e k. absurd (cc (settle_fatal-ok f t h e)))
          | false ↦
              living-IsClean parent f s ns status g own (is_describable (section_own D s status))
                refl elements below
        ]

module _ (D : Doubles) (v : Version) (unset : D.Double) where
  section_flags :
      (parent : Parent) (f : Flags) (s : Section D) (names : List (List ℕ))
      → f.invalid ≡ false
      → is_ok (validate_config_section D v parent f s names).0 ≡ true
      → (validate_config_section D v parent f s names).1.invalid ≡ false
  section_flags parent f s names clear h = ground arith

  settled-IsClean :
      (b p : Bool) (f : Flags) (k : Keyval D) (o : Option Status)
      → IsClean D (
          with_flags D
            (if b then settle_fatal f else settle_checked (cleared f) p o)
            (λ g. keyval g k))
  unfolding invalid_round
  settled-IsClean true p f k o =
      with_flags-IsClean D (settle_fatal f) (λ g. keyval g k)
        (λ t g e h. absurd (cc (settle_fatal-ok f t g e)))
  settled-IsClean false p f k none = tt
  settled-IsClean false p f k (some s) =
      with_flags-IsClean D (settle (cleared f) p s) (λ g. keyval g k)
        (λ t g e h. (settle-is_ok (cleared f) p s t g e h).1)

  -- The loop over the elements answers ok only if it began with ok.
  abbrev pub AreCleanFrom : Status → Option (Status × Nodes D) → Type 0
  AreCleanFrom invalid none = Unit
  AreCleanFrom invalid (some (s, ns)) =
      is_ok s ≡ true → ((invalid_rounds D ns).0 ≡ false) × (is_ok invalid ≡ true)

  pub from_ok : (o : Option (Status × Nodes D)) → AreCleanFrom ok o → AreClean D o
  from_ok none a = tt
  from_ok (some (s, ns)) a = λ h. (a h).0

  clean_later :
      (s invalid : Status) (n : Node D) (o : Option (Status × Nodes D))
      → IsClean D (some (s, n))
      → AreCleanFrom (if is_ok s then invalid else elements_invalid) o
      → AreCleanFrom invalid (elim o [ none ↦ none | some (t, ns) ↦ some (t, node n ns) ])
  unfolding invalid_round
  clean_later s invalid n none c a = tt
  clean_later s invalid n (some (t, ns)) c a = λ h.
      let r = a h in
      let fine : (is_ok s ≡ true) × (is_ok invalid ≡ true) = both_ok s invalid r.1 in
      (rw (c fine.0) r.0, fine.1)

  clean_step :
      (s invalid : Status) (n : Node D) (ns : Nodes D) (o : Option (Status × Nodes D))
      → IsClean D (some (s, n))
      → AreCleanFrom (if is_ok s then invalid else elements_invalid) o
      → (b : Bool) → is_tolerated s ≡ b
      → AreCleanFrom invalid (elim b [
        | false ↦ some (s, node n ns)
        | true ↦ elim o [ none ↦ none | some (t, ns') ↦ some (t, node n ns') ]
      ])
  clean_step s invalid n ns o c a false e = λ h. absurd (cc (sym (tolerated s h) ∙ e))
  clean_step s invalid n ns o c a true e = clean_later s invalid n o c a

  clean_round :
      (invalid : Status) (ns : Nodes D) (r : Option (Status × Node D))
      → (rest : Status → Option (Status × Nodes D)) → IsClean D r
      → ((t : Status) → AreCleanFrom t (rest t))
      → AreCleanFrom invalid (elim r [
        | none ↦ none
        | some (s, n') ↦ elim (is_tolerated s) [
          | false ↦ some (s, node n' ns)
          | true ↦ elim (rest (if is_ok s then invalid else elements_invalid)) [
            | none ↦ none
            | some (t, ns') ↦ some (t, node n' ns')
          ]
        ]
      ])
  clean_round invalid ns none rest c a = tt
  clean_round invalid ns (some (s, n)) rest c a =
      clean_step s invalid n ns (rest (if is_ok s then invalid else elements_invalid)) c
        (a (if is_ok s then invalid else elements_invalid)) (is_tolerated s) refl

  mutual
    unfolding validate_node invalid_round

    pub node-IsClean : (parent : Parent) (n : Node D) → IsClean D (validate_node D v unset parent n)
    node-IsClean parent (keyval f k) =
        settled-IsClean f.fatal parent.finalized f k
          (keyval_validity D v unset parent (cleared f) k)
    node-IsClean parent (section f s ns) =
        section_result-IsClean D parent f s ns
          (validate_config_section D v parent (cleared f) s (names_of D ns)).0
          (validate_config_section D v parent (cleared f) s (names_of D ns)).1
          (validate_nodes D v unset (record { finalized = f.finalized; names = names_of D ns }) ns
            ok)
          (section_flags parent (cleared f) s (names_of D ns) refl)
          (from_ok
            (validate_nodes D v unset (record { finalized = f.finalized; names = names_of D ns }) ns
              ok)
            (nodes-AreClean (record { finalized = f.finalized; names = names_of D ns }) ns ok))

    pub nodes-AreClean :
        (parent : Parent) (ns : Nodes D) (invalid : Status)
        → AreCleanFrom invalid (validate_nodes D v unset parent ns invalid)
    nodes-AreClean parent end invalid = λ h. (refl, h)
    nodes-AreClean parent (node n ns) invalid =
        clean_round invalid ns (validate_node D v unset parent n)
          (λ t. validate_nodes D v unset parent ns t) (node-IsClean parent n)
          (λ t. nodes-AreClean parent ns t)
