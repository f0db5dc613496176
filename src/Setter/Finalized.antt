-- ===== src/Setter/Finalized.antt =====
-- No setter of lib/context_value.c makes a valid finalized keyval violate its mold.
use disir_c.Prelude.{
  ℕ, ◌≡◌, refl, ap, ◌∙◌, true, none, some, List, [], ◌∷◌, ◌++◌, arith, inl, inr, Bool-cases, take,
  length, length-append,
}
use mathlib.Core.Path.{subst}
use disir_c.Prelude.Int.{ℤ, pos}
use disir_c.Status.{Status, ok, restriction_violated, wrong_value_type}
use disir_c.Value.{
  Platform, Value, ValueType, string, integer, float, boolean, enum, unknown, bytes, set_integer,
  set_float, holds_string, set_string,
}
use disir_c.Value.Stored.{IsSound, Stores, set_string-Stores}
use disir_c.Version.{Version}
use disir_c.Restriction.{Restriction}
use disir_c.Restriction.Exclusive.{exclusive_value_check}
use disir_c.Setter.{Arithmetic, Context, doubles_of}
use disir_c.Setter.Store.{Answer, settle, put_stored, put_number, put_string, exclusive_check}
use disir_c.Setter.Api.{
  set_value_integer, set_value_float, set_value_boolean, set_value_string, set_value_enum,
}
use disir_c.Setter.Obeys.{
  Call, integers, floats, booleans, strings, enums, set_by, typed, finalized_keyval, question,
  permits, permitted, IsMold, Keeps,
}
use disir_c.Setter.Checked.{
  take-whole, by_permit, checked_store-some, check-permits, retyped, violation_refused,
}

module _ (P : Platform) (A : Arithmetic P) (unset : P.Double) where
  module _ (es : List (Restriction (doubles_of P A))) (version : Version) (n : ℕ) where
    module _ (v : Value P) where
      integer-Keeps :
          (k : ℤ)
          → IsMold P A unset integer es version n
          → IsSound P (typed P A unset integer es version n v)
          → permitted P A unset integer es version n v ≡ true
          → Keeps P A unset integer es version n v
              (set_value_integer P A unset k (finalized_keyval P A unset integer es version n v))
      integer-Keeps k mold sound before =
          let c = finalized_keyval P A unset integer es version n v in
          let q = question P A unset integer es version n k (A.of_integer (pos 0)) none in
          let answer = λ (t : Status).
            λ (h : exclusive_value_check (doubles_of P A) true q es ≡ some t).
              checked_store-some P A unset c
                (λ d. put_number P A d (set_integer P (some d.value) k))
                (λ d. exclusive_check P A unset d k (A.of_integer (pos 0)) none) t h in
          let checked =
            check-permits P A unset es version n integer k (A.of_integer (pos 0)) none refl refl
              mold in
          elim (Bool-cases (permits P A unset integer es version n q)) [
            | inl fine ↦ record {
              status = ok;
              value = record v { dv_integer = k };
              answered = answer ok (checked ∙ by_permit fine);
              sound = record { fits = sound.fits; no_size = sound.no_size };
              permits_value = fine;
              unchanged = λ h. cc;
            }
            | inr bad ↦
                violation_refused P A unset es version n integer v (set_value_integer P A unset k c)
                  sound before restriction_violated
                  (answer restriction_violated (checked ∙ by_permit bad))
          ]

      float-Keeps :
          (x : P.Double)
          → IsMold P A unset float es version n
          → IsSound P (typed P A unset float es version n v)
          → permitted P A unset float es version n v ≡ true
          → Keeps P A unset float es version n v
              (set_value_float P A unset x (finalized_keyval P A unset float es version n v))
      float-Keeps x mold sound before =
          let c = finalized_keyval P A unset float es version n v in
          let q = question P A unset float es version n (pos 0) x none in
          let answer = λ (t : Status).
            λ (h : exclusive_value_check (doubles_of P A) true q es ≡ some t).
              checked_store-some P A unset c (λ d. put_number P A d (set_float P (some d.value) x))
                (λ d. exclusive_check P A unset d (pos 0) x none) t h in
          let checked = check-permits P A unset es version n float (pos 0) x none refl refl mold in
          elim (Bool-cases (permits P A unset float es version n q)) [
            | inl fine ↦ record {
              status = ok;
              value = record v { dv_float = x };
              answered = answer ok (checked ∙ by_permit fine);
              sound = record { fits = sound.fits; no_size = sound.no_size };
              permits_value = fine;
              unchanged = λ h. cc;
            }
            | inr bad ↦
                violation_refused P A unset es version n float v (set_value_float P A unset x c)
                  sound before restriction_violated
                  (answer restriction_violated (checked ∙ by_permit bad))
          ]

      boolean-Keeps :
          (b : ℕ)
          → IsSound P (typed P A unset boolean es version n v)
          → Keeps P A unset boolean es version n v
              (set_value_boolean P A b (finalized_keyval P A unset boolean es version n v))
      boolean-Keeps b sound = record {
        status = ok;
        value = record v { dv_boolean = b };
        answered = refl;
        sound = record { fits = sound.fits; no_size = sound.no_size };
        permits_value = refl;
        unchanged = λ h. cc;
      }

      -- What set_string stores of a text with its zero, in a value of a kind
      string_stored :
          (kind : ValueType) (t : List ℕ)
          → holds_string P (typed P A unset kind es version n v) ≡ true
          → IsSound P (typed P A unset kind es version n v)
          → Stores P (typed P A unset kind es version n v) (t ++ 0 ∷ []) (length t) (
              set_string P
                (some (typed P A unset kind es version n v))
                (some (t ++ 0 ∷ []))
                (length t)
                true)
      string_stored kind t is sound =
          set_string-Stores P (typed P A unset kind es version n v) is sound (t ++ 0 ∷ [])
            (length t) (omega (arith, length-append t (0 ∷ [])))

      string-Keeps :
          (t : List ℕ)
          → IsSound P (typed P A unset string es version n v)
          → Keeps P A unset string es version n v (
              set_value_string P A
                (some t)
                (length t)
                true
                (finalized_keyval P A unset string es version n v))
      string-Keeps t sound =
          let st = string_stored string t refl sound in
          let c = finalized_keyval P A unset string es version n v in
          record {
            status = ok;
            value = st.value;
            answered =
                ap (λ o. settle P A ok (put_stored P A c o)) st.answered
                ∙ ap (λ w. some (ok, record c { value = w }))
                    (retyped P A unset es version n string st.value st.kind);
            sound =
                subst (IsSound P) (retyped P A unset es version n string st.value st.kind) st.sound;
            permits_value = refl;
            unchanged = λ h. cc;
          }

      enum-Keeps :
          (t : List ℕ)
          → IsMold P A unset enum es version n
          → IsSound P (typed P A unset enum es version n v)
          → permitted P A unset enum es version n v ≡ true
          → Keeps P A unset enum es version n v (
              set_value_enum P A unset
                (some t)
                (length t)
                true
                (finalized_keyval P A unset enum es version n v))
      enum-Keeps t mold sound before =
          let c = finalized_keyval P A unset enum es version n v in
          let q = question P A unset enum es version n (pos 0) (A.of_integer (pos 0)) (some t) in
          let store : Context P A → Answer P A = λ d. put_string P A d (some t) (length t) true in
          let answer = λ (s : Status).
            λ (h : exclusive_value_check (doubles_of P A) true q es ≡ some s).
              checked_store-some P A unset c store
                (λ d. exclusive_check P A unset d (pos 0) (A.of_integer (pos 0)) (some t)) s h in
          let checked =
            check-permits P A unset es version n enum (pos 0) (A.of_integer (pos 0)) (some t) refl
              refl mold in
          let st = string_stored enum t refl sound in
          let whole : take st.value.dv_size (bytes P st.value.dv_string) ≡ t =
            ap (λ b. take st.value.dv_size (bytes P b)) st.text
            ∙ ap (λ k. take k st.buffer) st.size_kept
            ∙ st.same
            ∙ take-whole t (0 ∷ []) in
          elim (Bool-cases (permits P A unset enum es version n q)) [
            | inl fine ↦ record {
              status = ok;
              value = st.value;
              answered =
                  answer ok (checked ∙ by_permit fine)
                  ∙ ap (λ o. settle P A ok (put_stored P A c o)) st.answered
                  ∙ ap (λ w. some (ok, record c { value = w }))
                      (retyped P A unset es version n enum st.value st.kind);
              sound =
                  subst (IsSound P) (retyped P A unset es version n enum st.value st.kind) st.sound;
              permits_value =
                  ap
                    (λ l. permits P A unset enum es version n (
                      question P A unset enum es version n (pos 0) (A.of_integer (pos 0)) (some l)))
                    whole
                  ∙ fine;
              unchanged = λ h. cc;
            }
            | inr bad ↦
                violation_refused P A unset es version n enum v
                  (set_value_enum P A unset (some t) (length t) true c) sound before
                  restriction_violated (answer restriction_violated (checked ∙ by_permit bad))
          ]

  mismatched :
      (es : List (Restriction (doubles_of P A))) (version : Version) (n : ℕ) (v : Value P)
      → (call : Call P)
      → set_by P A unset call (finalized_keyval P A unset unknown es version n v)
        ≡ some (wrong_value_type, finalized_keyval P A unset unknown es version n v)
  mismatched es version n v (integers k) = refl
  mismatched es version n v (floats x) = refl
  mismatched es version n v (booleans b) = refl
  mismatched es version n v (strings t) = refl
  mismatched es version n v (enums t) = refl

  -- Where the versions of a mold fit in an int, restrictions on texts stand with enums only, and their
  -- texts are not NULL: a setter of any type, on a valid finalized keyval of a config whose value is sound and permitted by
  -- the restrictions in force, given a text with its length and granted memory, meets no fault, and
  -- leaves the keyval finalized and valid, of the type of its mold, with a sound value that is
  -- permitted; unless it answers ok, the keyval is as it was.
  pub set_by-Keeps :
      (kind : ValueType) (es : List (Restriction (doubles_of P A))) (version : Version) (n : ℕ)
      → (v : Value P) (call : Call P) → IsMold P A unset kind es version n
      → IsSound P (typed P A unset kind es version n v)
      → permitted P A unset kind es version n v ≡ true
      → Keeps P A unset kind es version n v
          (set_by P A unset call (finalized_keyval P A unset kind es version n v))
  set_by-Keeps integer es version n v (integers k) mold sound before =
      integer-Keeps es version n v k mold sound before
  set_by-Keeps float es version n v (floats x) mold sound before =
      float-Keeps es version n v x mold sound before
  set_by-Keeps boolean es version n v (booleans b) mold sound before =
      boolean-Keeps es version n v b sound
  set_by-Keeps string es version n v (strings t) mold sound before =
      string-Keeps es version n v t sound
  set_by-Keeps enum es version n v (enums t) mold sound before =
      enum-Keeps es version n v t mold sound before
  set_by-Keeps unknown es version n v call mold sound before =
      violation_refused P A unset es version n unknown v
        (set_by P A unset call (finalized_keyval P A unset unknown es version n v)) sound before
        wrong_value_type (mismatched es version n v call)
  set_by-Keeps kind es version n v call mold sound before =
      violation_refused P A unset es version n kind v
        (set_by P A unset call (finalized_keyval P A unset kind es version n v)) sound before
        wrong_value_type refl
