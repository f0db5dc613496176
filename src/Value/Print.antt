-- ===== src/Value/Print.antt =====
-- dx_value_stringify: what it leaves in the output buffer.
use disir_c.Prelude.{
  ◌++◌, ◌==◌, Bool-cases, ℕ, ◌-◌, ◌≤◌, ◌<◌, ◌≡◌, refl, ◌∙◌, true, Option, none, some, List, arith,
  length, take, drop, set, get_elem?, leb, inl, inr, length-append, length-take, false,
}
use disir_c.Status.{ok}
use disir_c.Value.{Platform, Value, Printed, holds_string, print_string, value_stringify}
use disir_c.Value.Memory.{
  memcpy, put_byte, memcpy-put_byte, take-ended, get_elem?-ended, length-drop,
}

module _ (P : Platform) (v : Value P) (text : List ℕ) (e : v.dv_string ≡ some text)
    (le : v.dv_size ≤ length text) (is_string : holds_string P v ≡ true) where
  -- The buffer then holds the text with a zero behind it, and its size is answered.
  pub record Prints (answer : Option (Printed P)) : Type 0 where
    pub buffer : List ℕ
    pub answered : answer ≡ some (ok, buffer, some v.dv_size)
    pub same : take v.dv_size buffer ≡ take v.dv_size text
    pub ended : get_elem? buffer v.dv_size ≡ some 0

  stringify-string : (output : List ℕ) → value_stringify P v output ≡ print_string P v output
  stringify-string output = ground arith

  -- A string value that is shorter than the output buffer is printed with a zero behind it, and
  -- its size is answered.
  pub value_stringify-Prints :
      (output : List ℕ) → v.dv_size < length output → Prints (value_stringify P v output)
  value_stringify-Prints output lt =
      let (copied, ended) = memcpy-put_byte output text v.dv_size le lt in
      let short : leb (length output) v.dv_size ≡ false = ground arith in
      record {
        buffer = set (take v.dv_size text ++ drop v.dv_size output) v.dv_size 0;
        answered = stringify-string output ∙ rw (e, short, copied, ended, print_string) refl;
        same = take-ended v.dv_size text (drop v.dv_size output) 0 le;
        ended =
            get_elem?-ended v.dv_size text (drop v.dv_size output) 0 le
              (omega (arith, length-drop v.dv_size output));
      }

  print_string-empty : (output : List ℕ) → length output ≡ 0 → print_string P v output ≡ none
  print_string-empty output nil = ground arith

  print_string-long :
      (output : List ℕ)
      → 0 < length output
      → length output ≤ v.dv_size
      → print_string P v output ≡ none
  print_string-long output some_room long =
      let over : leb (length output) v.dv_size ≡ true = ground arith in
      let full : (length output == 0) ≡ false = ground arith in
      let copied : memcpy output text (length output - 1)
          ≡ some (take (length output - 1) text ++ drop (length output - 1) output) =
        ground arith in
      let past : put_byte (take (length output - 1) text ++ drop (length output - 1) output)
            v.dv_size 0
          ≡ none =
        ground (
          arith,
          length-append (take (length output - 1) text) (drop (length output - 1) output),
          length-take (length output - 1) text,
          length-drop (length output - 1) output,
        ) in
      rw (e, over, full, copied, past, print_string) refl

  -- Where a string value is not shorter than the output buffer, the terminating zero is written
  -- outside of the buffer.
  pub value_stringify-overflows :
      (output : List ℕ) → length output ≤ v.dv_size → value_stringify P v output ≡ none
  value_stringify-overflows output long = elim (Bool-cases (length output == 0)) [
    | inl nil ↦ stringify-string output ∙ print_string-empty output (ground arith)
    | inr more ↦ stringify-string output ∙ print_string-long output (ground arith) long
  ]
