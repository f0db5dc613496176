-- ===== src/Validate/Name.antt =====
-- validate_name of lib/validate.c: lower case letters, digits and `_`. A name is the list of its
-- characters.
use disir_c.Prelude.{ℕ, Bool, true, ◌&&◌, List, [], ◌∷◌, ◌==◌, leb, if◌then◌else◌}
use disir_c.Status.{Status, ok, restriction_violated}

abbrev pub is_name_character : ℕ → Bool
is_name_character c =
    if leb 97 c && leb c 122 then true else if c == 95 then true else leb 48 c && leb c 57

abbrev pub validate_name : List ℕ → Status
validate_name [] = ok
validate_name (c ∷ cs) = if is_name_character c then validate_name cs else restriction_violated
