-- ===== src/Validate/Whole.antt =====
-- The validation of a whole config by dx_validate_context of lib/validate.c.
use disir_c.Prelude.{true, false, not, ◌&&◌, Option, none, some, ◌≡◌, refl, arith}
use disir_c.Status.{Status, ok, is_ok}
use disir_c.Restriction.{Doubles}
use disir_c.Validate.{Flags, Nodes, Config}
use disir_c.Validate.Settle.{is_invalid_context}
use disir_c.Validate.Values.{Parent}
use disir_c.Validate.Inclusive.{validate_inclusive_restrictions}
use disir_c.Validate.Tree.{
  cleared, section_validity, names_of, validate_nodes, config_result, validate_config,
}
use disir_c.Validate.Readable.{all_readable}
use disir_c.Validate.Conforms.{passes, is_counted, all_conform, inclusive-is_ok, passes-settle}
use disir_c.Validate.Conforming.{validate_nodes-conforms, section_validity-is_ok}
use disir_c.Validate.Total.{
  returns, is_calm, not_calm, returns-settle, or_else-calm, forgive-calm, validate_nodes-calm,
}

module _ (D : Doubles) (unset : D.Double) where
  pub section_validity-calm :
      (own children : Status)
      → is_invalid_context own ≡ false
      → is_invalid_context children ≡ false
      → is_invalid_context (section_validity own children) ≡ false
  section_validity-calm own children h k =
      or_else-calm _ _ (forgive-calm children k) (or_else-calm _ _ h k)

  config_result-returns :
      (c : Config D) (checks : Status × Flags) (r : Option (Status × Nodes D))
      → is_invalid_context checks.0 ≡ false
      → is_calm r ≡ true
      → returns (config_result D unset c checks r) ≡ true
  config_result-returns c checks none h k = cc
  config_result-returns c (s, f) (some (t, ns)) h k = ground (
    arith,
    returns-settle f false (section_validity s t) (section_validity-calm s t h (not_calm t k)),
  )

  config_result-passes :
      (c : Config D) (checks : Status × Flags) (r : Option (Status × Nodes D))
      → passes (config_result D unset c checks r) ≡ (is_ok checks.0 && passes r)
  config_result-passes c (s, f) none = ground arith
  config_result-passes c (s, f) (some (t, ns)) =
      ground (arith, passes-settle f false (section_validity s t), section_validity-is_ok s t)

  -- The validation of a config never ends the program, where no NULL is compared.
  pub validate_config-returns :
      (c : Config D)
      → all_readable D c.cf_version unset c.cf_elements ≡ true
      → returns (validate_config D unset c) ≡ true
  validate_config-returns c r =
      let p : Parent = record { finalized = c.flags.finalized; names = names_of D c.cf_elements } in
      let checks : Status × Flags =
        validate_inclusive_restrictions D c.cf_version (cleared c.flags) (names_of D c.cf_elements)
          c.mold_elements in
      let calm : is_invalid_context checks.0 ≡ false = ground arith in
      ground (
        arith,
        config_result-returns c checks (validate_nodes D c.cf_version unset p c.cf_elements ok) calm
            (validate_nodes-calm D c.cf_version unset p c.cf_elements ok r refl),
      )

  -- Validating a config answers OK exactly when the config is not in the state FATAL, has of each
  -- element a number within the minimum and the maximum of its mold, and all that is below it
  -- conforms; where a fault happens nothing is answered, and not all conforms.
  pub validate_config-conforms :
      (c : Config D)
      → passes (validate_config D unset c) ≡ (
          not c.flags.fatal
          && (is_counted D c.cf_version (names_of D c.cf_elements) c.mold_elements
              && all_conform D c.cf_version unset
                  (record { finalized = c.flags.finalized; names = names_of D c.cf_elements })
                  c.cf_elements))
  validate_config-conforms c =
      let p : Parent = record { finalized = c.flags.finalized; names = names_of D c.cf_elements } in
      let checks : Status × Flags =
        validate_inclusive_restrictions D c.cf_version (cleared c.flags) (names_of D c.cf_elements)
          c.mold_elements in
      ground (
        arith,
        config_result-passes c checks (validate_nodes D c.cf_version unset p c.cf_elements ok),
        validate_nodes-conforms D c.cf_version unset p c.cf_elements ok,
        inclusive-is_ok D c.cf_version (cleared c.flags) (names_of D c.cf_elements) c.mold_elements,
      )
