-- ===== src/Setter/RoundTrip.antt =====
-- dc_set_value of lib/context_value.c, given a number in decimal digits, and dc_get_value_integer.
use disir_c.Prelude.{ℕ, ◌≡◌, ◌<◌, refl, ap, sym, ◌∙◌, Bool, true, none, some, List, [], arith}
use mathlib.Core.List.{append-nil}
use disir_c.Prelude.Int.{ℤ, pos}
use disir_c.Status.{ok}
use disir_c.Value.{Platform, Value, integer, set_integer}
use disir_c.Version.{Version}
use disir_c.Text.{strtol, decimal}
use disir_c.Text.Digits.{strtol-decimal}
use disir_c.Restriction.{Restriction}
use disir_c.Restriction.Exclusive.{exclusive_value_check}
use disir_c.Setter.{Arithmetic, Context, doubles_of}
use disir_c.Setter.Store.{put_number, exclusive_check}
use disir_c.Setter.Api.{set_value, set_converted}
use disir_c.Setter.Getters.{get_value_integer}
use disir_c.Setter.Obeys.{question, permits, IsMold, finalized_keyval}
use disir_c.Setter.Checked.{by_permit, checked_store-some, check-permits}

strtol-number : (k : ℕ) → k < 9223372036854775808 → strtol (decimal k) ≡ some (pos k, [])
strtol-number k small =
    ap strtol (sym (append-nil (decimal k)))
    ∙ strtol-decimal k [] refl
    ∙ ap (λ (z : ℤ). some (z, [])) (ground arith)

module _ (P : Platform) (A : Arithmetic P) (unset : P.Double) where
  module _ (es : List (Restriction (doubles_of P A))) (version : Version) (n : ℕ) where
    -- On a valid finalized integer keyval of a config, whose mold has versions that fit in an int and no
    -- restrictions on texts, dc_set_value with the decimal digits of a number below 2 ^ 63 that the
    -- restrictions permit answers ok, and dc_get_value_integer then gives the number.
    pub set_value-get_value_integer :
        (k size : ℕ) (allocated : Bool) (v : Value P)
        → k < 9223372036854775808
        → IsMold P A unset integer es version n
        → permits P A unset integer es version n
            (question P A unset integer es version n (pos k) (A.of_integer (pos 0)) none)
          ≡ true
        → (d : Context P A) × (set_value P A unset
              (decimal k)
              size
              allocated
              (finalized_keyval P A unset integer es version n v)
            ≡ some (ok, d))
          × (get_value_integer P A d true ≡ (ok, some (pos k)))
    set_value-get_value_integer k size allocated v small mold permitted =
        let q = question P A unset integer es version n (pos k) (A.of_integer (pos 0)) none in
        let c = finalized_keyval P A unset integer es version n v in
        let checked =
          check-permits P A unset es version n integer (pos k) (A.of_integer (pos 0)) none refl refl
            mold in
        let answer = λ (h : exclusive_value_check (doubles_of P A) true q es ≡ some ok).
          checked_store-some P A unset c
            (λ d. put_number P A d (set_integer P (some d.value) (pos k)))
            (λ d. exclusive_check P A unset d (pos k) (A.of_integer (pos 0)) none) ok h in
        (
          finalized_keyval P A unset integer es version n (record v { dv_integer = pos k }),
          ap (set_converted P A unset c) (strtol-number k small)
              ∙ answer (checked ∙ by_permit permitted),
          refl,
        )
