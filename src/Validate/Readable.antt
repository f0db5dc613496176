-- ===== src/Validate/Readable.antt =====
-- The configs whose validation by lib/validate.c does not call strcmp with NULL.
use disir_c.Prelude.{
  Bool, true, false, not, ◌&&◌, Option, none, some, if◌then◌else◌, List, ◌≡◌, refl, ap, ◌∙◌, arith,
}
use disir_c.Prelude.Int.{pos}
use disir_c.Status.{Status, ok, restriction_violated}
use disir_c.Value.{ValueType, string, integer, float, boolean, enum, unknown}
use disir_c.Version.{Version}
use disir_c.Restriction.{Doubles, Restriction}
use disir_c.Restriction.Exclusive.{Question, exclusive_value_check}
use disir_c.Restriction.Permits.{any, faults, reached, is_checked}
use disir_c.Restriction.Outcome.{exclusive_value_check-outcome}
use disir_c.Validate.{MoldElement, Keyval, Node, Nodes, keyval, section, end, node}
use disir_c.Validate.Settle.{is_invalid_context}
use disir_c.Validate.Values.{asked, question, validate_exclusive_restrictions}

-- A check answers, and not with INVALID_CONTEXT.
abbrev pub is_calm_answer : Option Status → Bool
is_calm_answer none = false
is_calm_answer (some s) = not (is_invalid_context s)

outcome-calm :
    (fault fine : Bool)
    → not fault ≡ true
    → is_calm_answer (if fault then none else some (if fine then ok else restriction_violated))
      ≡ true
outcome-calm fault fine h = ground arith

module _ (D : Doubles) (v : Version) (unset : D.Double) where
  -- No ENUM restriction in force has a text to compare that is NULL, or is compared with one.
  abbrev pub is_safe : Question D → List (Restriction D) → Bool
  is_safe q es = not (any (faults D q (reached D q)) es)

  -- An integer or a float is compared without a text, an enum with its own.
  abbrev pub is_readable_by : Keyval D → MoldElement D → Bool
  is_readable_by k m = elim k.value_type [
    | integer ↦ is_safe (asked D v unset k k.dv_integer (D.of_integer (pos 0)) none) m.restrictions
    | float ↦ is_safe (asked D v unset k (pos 0) k.dv_float none) m.restrictions
    | enum ↦ is_safe (asked D v unset k (pos 0) (D.of_integer (pos 0)) k.dv_string) m.restrictions
    | _ ↦ true
  ]

  abbrev pub is_readable : Keyval D → Bool
  is_readable k = elim k.kv_mold_equiv [ none ↦ true | some m ↦ is_readable_by k m ]

  unfoldable mutual
    -- The keyvals of a context are readable.
    pub node_readable : Node D → Bool
    node_readable (keyval f k) = is_readable k
    node_readable (section f s ns) = all_readable ns

    pub all_readable : Nodes D → Bool
    all_readable end = true
    all_readable (node n ns) = node_readable n && all_readable ns

  checked-calm :
      (q : Question D) (es : List (Restriction D))
      → is_checked D q q.value_type ≡ true
      → is_safe q es ≡ true
      → is_calm_answer (exclusive_value_check D true q es) ≡ true
  checked-calm q es c h =
      ap is_calm_answer (exclusive_value_check-outcome D q es c)
      ∙ outcome-calm (any (faults D q (reached D q)) es) _ h

  pub exclusive-calm :
      (k : Keyval D) (m : MoldElement D)
      → is_readable_by k m ≡ true
      → is_calm_answer (validate_exclusive_restrictions D v unset k m) ≡ true
  exclusive-calm k m h = kinds-calm k.value_type k m h
    where
      kinds-calm :
          (t : ValueType) (j : Keyval D) (m : MoldElement D)
          → is_readable_by (record j { value_type = t }) m ≡ true
          → is_calm_answer
              (validate_exclusive_restrictions D v unset (record j { value_type = t }) m)
            ≡ true
      kinds-calm integer j m h =
          checked-calm (question D v unset (record j { value_type = integer })) m.restrictions refl
            h
      kinds-calm float j m h =
          checked-calm (question D v unset (record j { value_type = float })) m.restrictions refl h
      kinds-calm enum j m h =
          checked-calm (question D v unset (record j { value_type = enum })) m.restrictions refl h
      kinds-calm string j m h = refl
      kinds-calm boolean j m h = refl
      kinds-calm unknown j m h = refl
