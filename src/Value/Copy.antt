-- ===== src/Value/Copy.antt =====
-- dx_value_copy and dx_value_compare: a copy compares as equal to its source.
use disir_c.Prelude.{
  ℕ, ◌≡◌, refl, ap, sym, ◌∙◌, ◌≢◌, true, false, Option, none, some, List, take, arith, Option-cases,
  inl, inr,
}
use disir_c.Prelude.Int.{ℤ, pos, negsuc, to_int32, ◌-ℤ◌}
use disir_c.Status.{Status, ok}
use disir_c.Value.{
  Platform, Value, ValueType, string, integer, float, boolean, enum, unknown, value_copy,
  set_string, value_compare, holds_string,
}
use disir_c.Value.Stored.{IsSound, set_string-Stores}

-- What the C standard says of memcmp, and IEEE 754 of the difference of a finite number to itself.
pub record IsPlatform (P : Platform) : Type 0 where
  pub memcmp_same : (a b : List ℕ) (n : ℕ) → take n a ≡ take n b → P.memcmp a b n ≡ pos 0
  pub difference_same : (x : P.Double) → P.is_finite x ≡ true → P.double_difference x x ≡ pos 0

module _ (P : Platform) (laws : IsPlatform P) where
  -- The copy succeeds, and what it leaves compares as equal to the source.
  pub record Copies (source : Value P) (answer : Option (Status × Option (Value P))) : Type 0 where
    pub value : Value P
    pub answered : answer ≡ some (ok, some value)
    pub equal : value_compare P value source ≡ pos 0

  compare_string :
      (v s : Value P) (a b : List ℕ)
      → holds_string P s ≡ true
      → v.dv_type ≡ s.dv_type
      → v.dv_size ≡ s.dv_size
      → v.dv_string ≡ some a
      → s.dv_string ≡ some b
      → take v.dv_size a ≡ take v.dv_size b
      → value_compare P v s ≡ pos 0
  compare_string v s a b hs kind size ea eb same =
      grind (arith, laws.memcmp_same a b v.dv_size same)

  value_copy-string :
      (d s : Value P)
      → holds_string P s ≡ true
      → value_copy P (some d) s true ≡ set_string P (some d) s.dv_string s.dv_size true
  value_copy-string d s hs = ground arith

  copy_string :
      (d s : Value P) (text : List ℕ)
      → IsSound P d
      → IsSound P s
      → holds_string P s ≡ true
      → d.dv_type ≡ s.dv_type
      → s.dv_string ≡ some text
      → Copies s (value_copy P (some d) s true)
  copy_string d s text sd ss hs same e =
      let hd : holds_string P d ≡ true = rw same hs in
      let st = set_string-Stores P d hd sd text s.dv_size (omega (arith, ss.fits text e)) in
      record {
        value = st.value;
        answered =
            value_copy-string d s hs
            ∙ ap (λ o. set_string P (some d) o s.dv_size true) e
            ∙ st.answered;
        equal =
            compare_string st.value s st.buffer text hs (st.kind ∙ same) st.size_kept st.text e (
              ap (λ n. take n st.buffer) st.size_kept
              ∙ st.same
              ∙ ap (λ n. take n text) (sym st.size_kept));
      }

  copy_present :
      (d s : Value P)
      → IsSound P d
      → IsSound P s
      → holds_string P s ≡ true
      → d.dv_type ≡ s.dv_type
      → (holds_string P s ≡ true → s.dv_string ≢ none)
      → Copies s (value_copy P (some d) s true)
  copy_present d s sd ss hs same present = elim (Option-cases s.dv_string) [
    | inl e ↦ absurd (present hs e)
    | inr (text, e) ↦ copy_string d s text sd ss hs same e
  ]

  difference_zero : (n : ℤ) → to_int32 (n -ℤ n) ≡ pos 0
  difference_zero (pos n) = ground arith
  difference_zero (negsuc n) = ground arith

  sizes :
      (d s : Value P)
      → IsSound P d
      → IsSound P s
      → holds_string P s ≡ false
      → d.dv_type ≡ s.dv_type
      → d.dv_size ≡ s.dv_size
  sizes d s sd ss ns same =
      let nd : holds_string P d ≡ false = rw same ns in omega (arith, sd.no_size nd, ss.no_size ns)

  module _ (d s : Value P) (same : d.dv_type ≡ s.dv_type) (size : d.dv_size ≡ s.dv_size) where
    copy_integer : s.dv_type ≡ integer → Copies s (value_copy P (some d) s true)
    copy_integer e = record {
      value = record d { dv_integer = s.dv_integer };
      answered = ground arith;
      equal = ground (arith, difference_zero s.dv_integer);
    }

    copy_boolean : s.dv_type ≡ boolean → Copies s (value_copy P (some d) s true)
    copy_boolean e = record {
      value = record d { dv_boolean = s.dv_boolean };
      answered = ground arith;
      equal = ground arith;
    }

    copy_float :
        s.dv_type ≡ float → P.is_finite s.dv_float ≡ true → Copies s (value_copy P (some d) s true)
    copy_float e finite = record {
      value = record d { dv_float = s.dv_float };
      answered = ground arith;
      equal = ground (arith, laws.difference_same s.dv_float finite);
    }

  copy_kind :
      (d s : Value P) (t : ValueType)
      → IsSound P d
      → IsSound P s
      → d.dv_type ≡ s.dv_type
      → s.dv_type ≢ unknown
      → (holds_string P s ≡ true → s.dv_string ≢ none)
      → (s.dv_type ≡ float → P.is_finite s.dv_float ≡ true)
      → s.dv_type ≡ t
      → Copies s (value_copy P (some d) s true)
  copy_kind d s integer sd ss same known present finite e =
      copy_integer d s same (sizes d s sd ss (rw e refl) same) e
  copy_kind d s boolean sd ss same known present finite e =
      copy_boolean d s same (sizes d s sd ss (rw e refl) same) e
  copy_kind d s float sd ss same known present finite e =
      copy_float d s same (sizes d s sd ss (rw e refl) same) e (finite e)
  copy_kind d s string sd ss same known present finite e =
      copy_present d s sd ss (rw e refl) same present
  copy_kind d s enum sd ss same known present finite e =
      copy_present d s sd ss (rw e refl) same present
  copy_kind d s unknown sd ss same known present finite e = absurd (known e)

  -- Copying a sound value that holds a number or a present string to a sound value of the same
  -- type, where memory is granted, succeeds, and the copy compares as equal to its source.
  pub value_copy-Copies :
      (d s : Value P)
      → IsSound P d
      → IsSound P s
      → d.dv_type ≡ s.dv_type
      → s.dv_type ≢ unknown
      → (holds_string P s ≡ true → s.dv_string ≢ none)
      → (s.dv_type ≡ float → P.is_finite s.dv_float ≡ true)
      → Copies s (value_copy P (some d) s true)
  value_copy-Copies d s sd ss same known present finite =
      copy_kind d s s.dv_type sd ss same known present finite refl
