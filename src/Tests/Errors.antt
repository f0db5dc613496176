-- ===== src/Tests/Errors.antt =====
-- An error message of six characters, copied to a long buffer and to a short one.
use disir_c.Prelude.{◌≡◌, refl, none, some, [], ◌∷◌, replicate, arith}
use disir_c.Status.{insufficient_resources}
use disir_c.Error.{Instance, error_copy}
use disir_c.Error.Copied.{Holds, error_copy-Holds, error_copy-overflows}

abbrev broken : Instance
broken = record {
  disir_error_message = some (98 ∷ 114 ∷ 111 ∷ 107 ∷ 101 ∷ 110 ∷ []);
  disir_error_message_size = 6;
}

error_copy-Holds_example : Holds broken (error_copy (some broken) (some (replicate 8 0)) 8)
error_copy-Holds_example =
    error_copy-Holds broken (replicate 8 0) (omega arith) (omega arith) (omega arith)

error_copy-overflows_example : error_copy (some broken) (some (replicate 5 0)) 5 ≡ none
error_copy-overflows_example =
    error_copy-overflows broken (replicate 5 0) (omega arith) (omega arith)

-- A buffer as long as the message holds the cut message.
cut :
    error_copy (some broken) (some (replicate 6 0)) 6
    ≡ some (insufficient_resources, 98 ∷ 114 ∷ 46 ∷ 46 ∷ 46 ∷ 0 ∷ [], some 6)
cut = refl
