-- ===== src/Tests/Values.antt =====
-- Values on a platform whose type double holds whole numbers.
use disir_c.Prelude.{
  ℕ, ◌≡◌, refl, ap, ◌∙◌, true, none, some, List, [], ◌∷◌, arith, ◌==◌, if◌then◌else◌, take, length,
  ◌<◌, replicate,
}
use disir_c.Prelude.Int.{ℤ, pos, negsuc, sub_ℕ, ◌-ℤ◌, to_int32}
use disir_c.Value.{Platform, Value, string, integer, set_string, value_copy, value_stringify}
use disir_c.Value.Stored.{IsSound, Stores, set_string-Stores}
use disir_c.Value.Copy.{IsPlatform, Copies, value_copy-Copies}
use disir_c.Value.Numbers.{IsInteger}
use disir_c.Value.Print.{value_stringify-overflows}

abbrev compare_bytes : List ℕ → List ℕ → ℤ
compare_bytes [] b = pos 0
compare_bytes (x ∷ a) [] = pos 1
compare_bytes (x ∷ a) (y ∷ b) = if x == y then compare_bytes a b else sub_ℕ x y

compare_bytes-same : (a : List ℕ) → compare_bytes a a ≡ pos 0
compare_bytes-same [] = refl
compare_bytes-same (x ∷ a) = ground (arith, compare_bytes-same a)

abbrev pub platform : Platform
platform = record {
  Double = ℤ;
  is_finite = λ x. true;
  double_difference = λ x y. to_int32 (x -ℤ y);
  memcmp = λ a b n. compare_bytes (take n a) (take n b);
  print_integer = λ n. 48 ∷ [];
  print_double = λ x. 48 ∷ [];
}

difference_zero : (n : ℤ) → to_int32 (n -ℤ n) ≡ pos 0
difference_zero (pos n) = ground arith
difference_zero (negsuc n) = ground arith

pub platform-IsPlatform : IsPlatform platform
platform-IsPlatform = record {
  memcmp_same = λ a b n e. ap (λ l. compare_bytes l (take n b)) e ∙ compare_bytes-same (take n b);
  difference_same = λ x finite. difference_zero x;
}

abbrev text_value : List ℕ → ℕ → Value platform
text_value text size = record {
  dv_type = string;
  dv_string = some text;
  dv_boolean = 0;
  dv_float = pos 0;
  dv_integer = pos 0;
  dv_size = size;
}

abbrev pub integer_value : ℤ → Value platform
integer_value n = record {
  dv_type = integer;
  dv_string = none;
  dv_boolean = 0;
  dv_float = pos 0;
  dv_integer = n;
  dv_size = 0;
}

text_value-IsSound :
    (text : List ℕ) (size : ℕ) → size < length text → IsSound platform (text_value text size)
text_value-IsSound text size lt = record {
  fits = λ b e. grind (arith, lt);
  no_size = λ e. grind arith;
}

abbrev abc : List ℕ
abc = 97 ∷ 98 ∷ 99 ∷ 0 ∷ []

abbrev de : List ℕ
de = 100 ∷ 101 ∷ 0 ∷ []

set_string-Stores_example :
    Stores platform
      (text_value abc 3)
      de
      2
      (set_string platform (some (text_value abc 3)) (some de) 2 true)
set_string-Stores_example =
    set_string-Stores platform (text_value abc 3) refl (text_value-IsSound abc 3 (omega arith)) de 2
      (omega arith)

value_copy-Copies_example :
    Copies platform platform-IsPlatform
      (text_value abc 3)
      (value_copy platform (some (text_value de 2)) (text_value abc 3) true)
value_copy-Copies_example =
    value_copy-Copies platform platform-IsPlatform (text_value de 2) (text_value abc 3)
      (text_value-IsSound de 2 (omega arith)) (text_value-IsSound abc 3 (omega arith)) refl
      (λ e. grind arith) (λ e f. grind arith) (λ e. refl)

integer_value-IsInteger : (n : ℤ) → IsInteger {P = platform} (integer_value n) n
integer_value-IsInteger n = record { kind = refl; held = refl; size = refl }

value_stringify-overflows_example :
    value_stringify platform (text_value abc 3) (replicate 3 255) ≡ none
value_stringify-overflows_example =
    value_stringify-overflows platform (text_value abc 3) abc refl (omega arith) refl
      (replicate 3 255) (omega arith)
