-- ===== src/Tests/Setters.antt =====
-- An integer keyval of a config of version 1.5, whose mold permits 1 to 9.
use disir_c.Prelude.{◌≡◌, refl, true, false, none, some, List, [], ◌∷◌, arith}
use disir_c.Prelude.Int.{ℤ, pos, leb_ℤ, eqb_ℤ}
use disir_c.Status.{ok, invalid_context}
use disir_c.Value.{Value, ValueType, integer, string}
use disir_c.Version.{version}
use disir_c.Text.{decimal}
use disir_c.Restriction.{Restriction, exc_value_range}
use disir_c.Setter.{Arithmetic, Context, doubles_of}
use disir_c.Setter.Api.{set_value, set_value_integer, set_value_string}
use disir_c.Setter.Getters.{get_value_integer}
use disir_c.Setter.Obeys.{integers, set_by, finalized_keyval, IsMold, Keeps}
use disir_c.Setter.Finalized.{set_by-Keeps}
use disir_c.Setter.Constructing.{
  constructing_keyval, set_value_integer-constructing, set_value_string-faults,
}
use disir_c.Setter.RoundTrip.{set_value-get_value_integer}
use disir_c.Tests.Values.{platform}

abbrev arithmetic : Arithmetic platform
arithmetic = record {
  leb_double = leb_ℤ;
  eqb_double = eqb_ℤ;
  of_integer = λ n. n;
  to_int = λ n. n;
  strtod = λ t. none;
}

abbrev digit : List (Restriction (doubles_of platform arithmetic))
digit =
    record {
      re_type = exc_value_range;
      re_introduced = version 1 0;
      re_deprecated = version 0 0;
      re_value_string = none;
      re_value_min = pos 1;
      re_value_max = pos 9;
      re_value_numeric = pos 0;
    }
    ∷ []

abbrev plain : ValueType → ℤ → Value platform
plain kind n = record {
  dv_type = kind;
  dv_string = none;
  dv_boolean = 0;
  dv_float = pos 0;
  dv_integer = n;
  dv_size = 0;
}

digit-IsMold : IsMold platform arithmetic (pos 0) integer digit (version 1 5) 3
digit-IsMold = record {
  fits = record { major = omega arith; minor = omega arith };
  entries = (
    (
      record { major = omega arith; minor = omega arith },
      record { major = omega arith; minor = omega arith },
    ),
    tt,
  );
  numbers = λ h. (refl, tt);
  texts = (refl, tt);
}

set_by-Keeps_example :
    Keeps platform arithmetic (pos 0) integer digit (version 1 5) 3 (plain integer (pos 4)) (
      set_by platform arithmetic (pos 0) (integers (pos 17)) (
        finalized_keyval platform arithmetic
          (pos 0)
          integer
          digit
          (version 1 5)
          3
          (plain integer (pos 4))))
set_by-Keeps_example =
    set_by-Keeps platform arithmetic (pos 0) integer digit (version 1 5) 3 (plain integer (pos 4))
      (integers (pos 17)) digit-IsMold (record { fits = λ b e. absurd (cc e); no_size = λ e. refl })
      refl

set_value_integer-constructing_example :
    set_value_integer platform arithmetic (pos 0) (pos 17) (
      constructing_keyval platform arithmetic
        (pos 0)
        integer
        digit
        (version 1 5)
        2
        false
        (plain string (pos 0))
        true)
    ≡ some (
      invalid_context,
      constructing_keyval platform arithmetic
          (pos 0)
          integer
          digit
          (version 1 5)
          2
          true
          (plain integer (pos 17))
          false,
    )
set_value_integer-constructing_example =
    set_value_integer-constructing platform arithmetic (pos 0) digit (version 1 5) 2 (pos 17) false
      (plain string (pos 0)) true
      (record {
        fits = digit-IsMold.fits;
        entries = digit-IsMold.entries;
        numbers = digit-IsMold.numbers;
        texts = digit-IsMold.texts;
      })

set_value_string-faults_example :
    (d : Context platform arithmetic) × (set_value_integer platform arithmetic (pos 0) (pos 7) (
        constructing_keyval platform arithmetic
          (pos 0)
          string
          []
          (version 1 5)
          2
          false
          (plain string (pos 0))
          true)
      ≡ some (invalid_context, d))
    × (set_value_string platform arithmetic (some (97 ∷ [])) 1 true d ≡ none)
set_value_string-faults_example =
    set_value_string-faults platform arithmetic (pos 0) [] (version 1 5) 2 (pos 7) false
      (plain string (pos 0)) true (97 ∷ []) 1 (λ e. ground arith)

set_value-get_value_integer_example :
    (d : Context platform arithmetic) × (set_value platform arithmetic (pos 0) (decimal 7) 1 true (
        finalized_keyval platform arithmetic
          (pos 0)
          integer
          digit
          (version 1 5)
          3
          (plain integer (pos 4)))
      ≡ some (ok, d))
    × (get_value_integer platform arithmetic d true ≡ (ok, some (pos 7)))
set_value-get_value_integer_example =
    set_value-get_value_integer platform arithmetic (pos 0) digit (version 1 5) 3 7 1 true
      (plain integer (pos 4)) (omega arith) digit-IsMold refl
