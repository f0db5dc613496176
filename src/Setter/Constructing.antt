-- ===== src/Setter/Constructing.antt =====
-- dc_set_value_integer of lib/context_value.c on a keyval in construction: the number is stored, and
-- marks the keyval as invalid where the restrictions do not permit it.
use disir_c.Prelude.{
  ℕ, ◌≢◌, ◌≡◌, refl, ap, ◌∙◌, Bool, true, false, not, ◌||◌, none, some, List, suc, arith, inl, inr,
  Bool-cases, if◌then◌else◌, ◌==◌,
}
use disir_c.Prelude.Int.{ℤ, pos}
use disir_c.Context.{config_type, keyval_type}
use disir_c.Status.{Status, ok, invalid_context, restriction_violated}
use disir_c.Value.{Platform, Value, ValueType, string, integer, set_integer}
use disir_c.Version.{Version}
use disir_c.Restriction.{Restriction}
use disir_c.Restriction.Exclusive.{exclusive_value_check}
use disir_c.Setter.{Arithmetic, Context, doubles_of}
use disir_c.Setter.Store.{put_number, exclusive_check, checked_store, lets_pass}
use disir_c.Setter.Checks.{set_value_input_check}
use disir_c.Setter.Api.{set_value_integer, set_value_string}
use disir_c.Setter.Obeys.{question, permits, IsMold}
use disir_c.Setter.Checked.{by_permit, checked_store-some, check-permits}

nonzero : (n : ℕ) → (suc n == 0) ≡ false
nonzero n = ground arith

module _ (P : Platform) (A : Arithmetic P) (unset : P.Double) where
  module _ (kind : ValueType) (es : List (Restriction (doubles_of P A))) (version : Version)
      (n : ℕ) where
    -- A keyval of a config in construction, whose name, of a size that is not 0, has a mold; its
    -- value may be of any type.
    abbrev pub constructing_keyval : Bool → Value P → Bool → Context P A
    constructing_keyval invalid v pointer = record {
      cx_type = keyval_type;
      destroyed = false;
      constructing = true;
      finalized = false;
      invalid = invalid;
      root_type = config_type;
      cf_version = version;
      value = v;
      holds_pointer = pointer;
      kv_name_size = suc n;
      kv_mold_equiv = some (record { value_type = kind; kv_restrictions_queue = es });
    }

  module _ (es : List (Restriction (doubles_of P A))) (version : Version) (n : ℕ) where
    abbrev pub permits_integer : ℤ → Bool
    permits_integer k =
        permits P A unset integer es version n
          (question P A unset integer es version n k (A.of_integer (pos 0)) none)

    abbrev pub stored : Value P → ℤ → Value P
    stored v k = record v { dv_type = integer; dv_integer = k }

    input_checked :
        (invalid : Bool) (v : Value P) (pointer : Bool)
        → set_value_input_check P A
            (constructing_keyval integer es version n invalid v pointer)
            integer
          ≡ (
            ok,
            constructing_keyval integer es version n invalid
                (record v { dv_type = integer })
                pointer,
          )
    input_checked invalid v pointer = rw (nonzero n)

    -- On a keyval of a config in construction, whose mold is an integer with versions that fit in an int
    -- and without restrictions on texts, dc_set_value_integer stores the number whatever the type of
    -- the value was. It answers ok if the restrictions permit the number; otherwise it answers
    -- INVALID_CONTEXT and sets the state bit INVALID. A permitted number does not clear the bit.
    pub set_value_integer-constructing :
        (k : ℤ) (invalid : Bool) (v : Value P) (pointer : Bool)
        → IsMold P A unset integer es version n
        → set_value_integer P A unset k (constructing_keyval integer es version n invalid v pointer)
          ≡ some (
            if permits_integer k then ok else invalid_context,
            constructing_keyval integer es version n
                (not (permits_integer k) || invalid)
                (stored v k)
                false,
          )
    set_value_integer-constructing k invalid v pointer mold =
        let q = question P A unset integer es version n k (A.of_integer (pos 0)) none in
        let c =
          constructing_keyval integer es version n invalid (record v { dv_type = integer })
            pointer in
        let answer = λ (t : Status).
          λ (h : exclusive_value_check (doubles_of P A) true q es ≡ some t).
            checked_store-some P A unset c (λ d. put_number P A d (set_integer P (some d.value) k))
              (λ d. exclusive_check P A unset d k (A.of_integer (pos 0)) none) t h in
        let checked =
          check-permits P A unset es version n integer k (A.of_integer (pos 0)) none refl refl
            mold in
        let started =
          ap
            (λ (r : Status × Context P A).
              if lets_pass P A r.0
              then checked_store P A r.1 (λ d. put_number P A d (set_integer P (some d.value) k))
                  (λ d. exclusive_check P A unset d k (A.of_integer (pos 0)) none) r.0
              else some (r.0, r.1))
            (input_checked invalid v pointer) in
        elim (Bool-cases (permits_integer k)) [
          | inl fine ↦ rw fine (started ∙ answer ok (checked ∙ by_permit fine))
          | inr bad ↦ rw bad (started ∙ answer restriction_violated (checked ∙ by_permit bad))
        ]

    -- A keyval in construction whose mold is a string, and that was given a number other than 0: the
    -- next text reads the number as a pointer.
    pub set_value_string-faults :
        (k : ℤ) (invalid : Bool) (v : Value P) (pointer : Bool) (t : List ℕ) (size : ℕ)
        → k ≢ pos 0
        → (d : Context P A) × (set_value_integer P A unset k
              (constructing_keyval string es version n invalid v pointer)
            ≡ some (invalid_context, d))
          × (set_value_string P A (some t) size true d ≡ none)
    set_value_string-faults k invalid v pointer t size other = (
      constructing_keyval string es version n true (stored v k) false,
      rw (nonzero n),
      rw (nonzero n),
    )
