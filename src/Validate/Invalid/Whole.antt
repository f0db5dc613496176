-- ===== src/Validate/Invalid/Whole.antt =====
-- A config that lib/validate.c finds valid has no context in the state INVALID.
use disir_c.Prelude.{◌≡◌, refl, ◌∙◌, Bool, true, false, ◌||◌, Option, none, some, arith}
use mathlib.Core.Path.{subst}
use disir_c.Status.{Status, ok, is_ok}
use disir_c.Restriction.{Doubles}
use disir_c.Validate.{Flags, Nodes, Config}
use disir_c.Validate.Settle.{Settled, settle, settle_fatal}
use disir_c.Validate.Values.{Parent}
use disir_c.Validate.Inclusive.{validate_inclusive_restrictions}
use disir_c.Validate.Tree.{
  cleared, section_validity, names_of, validate_nodes, config_result, validate_config,
}
use disir_c.Validate.Invalid.{invalid_rounds, invalid_elements}
use disir_c.Validate.Invalid.Clean.{settle-is_ok, forgive-is_ok, AreClean, from_ok, nodes-AreClean}

module _ (D : Doubles) (unset : D.Double) where
  abbrev IsSpotless : Option (Status × Config D) → Type 0
  IsSpotless none = Unit
  IsSpotless (some (s, d)) = is_ok s ≡ true → (invalid_elements D d true).0 ≡ ok

  settled-IsSpotless :
      (c : Config D) (ns : Nodes D) (o : Settled)
      → ((t : Status) (g : Flags)
          → o ≡ some (t, g)
          → is_ok t ≡ true
          → (g.invalid || (invalid_rounds D ns).0) ≡ false)
      → IsSpotless (elim o [
        | none ↦ none
        | some (s, f) ↦ some (s, record c { flags = f; cf_elements = ns })
      ])
  settled-IsSpotless c ns none h = tt
  settled-IsSpotless c ns (some (t, g)) h = λ k. rw (h t g refl k)

  config_result-IsSpotless :
      (c : Config D) (status : Status) (g : Flags) (r : Option (Status × Nodes D))
      → (is_ok status ≡ true → g.invalid ≡ false)
      → AreClean D r
      → IsSpotless (config_result D unset c (status, g) r)
  config_result-IsSpotless c status g none own a = tt
  config_result-IsSpotless c status g (some (children, ns)) own a =
      settled-IsSpotless c ns (settle g false (section_validity status children)) (λ t h e k.
        let fine = settle-is_ok g false (section_validity status children) t h e k in
        let both = forgive-is_ok status children fine.0 in
        let mine : h.invalid ≡ false = fine.1 ∙ own both.0 in rw mine (a both.1))

  inclusive_flags :
      (c : Config D)
      → is_ok
          (validate_inclusive_restrictions D c.cf_version
            (cleared c.flags)
            (names_of D c.cf_elements)
            c.mold_elements).0
        ≡ true
      → (validate_inclusive_restrictions D c.cf_version
          (cleared c.flags)
          (names_of D c.cf_elements)
          c.mold_elements).1.invalid
        ≡ false
  inclusive_flags c h = ground arith

  living_config :
      (c : Config D) (b : Bool)
      → IsSpotless (elim b [
        | true ↦ elim (settle_fatal c.flags) [
          | none ↦ none
          | some (s, f) ↦ some (s, record c { flags = f })
        ]
        | false ↦
            config_result D unset c
              (validate_inclusive_restrictions D c.cf_version
                (cleared c.flags)
                (names_of D c.cf_elements)
                c.mold_elements)
              (validate_nodes D c.cf_version unset
                (record { finalized = c.flags.finalized; names = names_of D c.cf_elements })
                c.cf_elements
                ok)
      ])
  living_config c true = λ k. absurd (ground arith)
  living_config c false =
      let p : Parent = record { finalized = c.flags.finalized; names = names_of D c.cf_elements } in
      let nodes = validate_nodes D c.cf_version unset p c.cf_elements ok in
      let checks =
        validate_inclusive_restrictions D c.cf_version (cleared c.flags) (names_of D c.cf_elements)
          c.mold_elements in
      config_result-IsSpotless c checks.0 checks.1 nodes (inclusive_flags c) (
        from_ok D c.cf_version unset nodes (nodes-AreClean D c.cf_version unset p c.cf_elements ok))

  -- Where the validation of a config answers OK, neither the config that it leaves nor a context below
  -- it is in the state INVALID, so that dx_invalid_elements answers OK on it.
  pub validate_config-invalid_elements :
      (c d : Config D) (s : Status)
      → validate_config D unset c ≡ some (s, d)
      → is_ok s ≡ true
      → (invalid_elements D d true).0 ≡ ok
  validate_config-invalid_elements c d s e h = subst IsSpotless e (living_config c c.flags.fatal) h
