-- ===== src/Text.antt =====
-- Numbers in texts: strtol with base 10 and what "%u" prints. A text is the list of its characters,
-- without the zero behind them; long is a 64-bit integer.
pub mod Digits
use disir_c.Prelude.{
  ℕ, zero, suc, ◌+◌, ◌-◌, ◌*◌, ◌/◌, ◌%◌, Bool, true, false, ◌&&◌, ◌||◌, Option, none, some, List,
  [], ◌∷◌, ◌++◌, ◌==◌, ltb, leb, if◌then◌else◌,
}
use disir_c.Prelude.Int.{ℤ, pos, negsuc}

abbrev pub is_space : ℕ → Bool
is_space c = (c == 32) || (leb 9 c && leb c 13)

abbrev pub is_digit : ℕ → Bool
is_digit c = leb 48 c && leb c 57

unfoldable pub skip_spaces : List ℕ → List ℕ
skip_spaces [] = []
skip_spaces (c ∷ cs) = if is_space c then skip_spaces cs else c ∷ cs

-- The number that the leading digits stand for, `v` the one read so far, and what stands behind.
unfoldable pub read_digits : ℕ → List ℕ → ℕ × List ℕ
read_digits v [] = (v, [])
read_digits v (c ∷ cs) = if is_digit c then read_digits (v * 10 + (c - 48)) cs else (v, c ∷ cs)

abbrev pub starts_digit : List ℕ → Bool
starts_digit [] = false
starts_digit (c ∷ cs) = is_digit c

-- Out of range, strtol answers the greatest or the least long.
abbrev pub positive : ℕ → ℤ
positive n = if ltb n 9223372036854775808 then pos n else pos 9223372036854775807

abbrev pub negative : ℕ → ℤ
negative n =
    if n == 0
    then pos 0
    else if leb n 9223372036854775808
    then negsuc (n - 1)
    else negsuc 9223372036854775807

abbrev pub unsigned_part : (ℕ → ℤ) → List ℕ → Option (ℤ × List ℕ)
unsigned_part sign cs =
    if starts_digit cs then some (sign (read_digits 0 cs).0, (read_digits 0 cs).1) else none

abbrev pub signed_part : List ℕ → Option (ℤ × List ℕ)
signed_part [] = none
signed_part (c ∷ cs) =
    if c == 45
    then unsigned_part negative cs
    else if c == 43
    then unsigned_part positive cs
    else unsigned_part positive (c ∷ cs)

-- The number, and the text that endptr is set to; `none` is no conversion, with endptr at the start.
abbrev pub strtol : List ℕ → Option (ℤ × List ℕ)
strtol cs = signed_part (skip_spaces cs)

-- The decimal digits of a number, with rounds for them.
unfoldable pub digits_from : ℕ → ℕ → List ℕ
digits_from zero n = []
digits_from (suc rounds) n =
    if ltb n 10 then (48 + n) ∷ [] else digits_from rounds (n / 10) ++ ((48 + n % 10) ∷ [])

abbrev pub decimal : ℕ → List ℕ
decimal n = digits_from (suc n) n
