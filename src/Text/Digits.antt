-- ===== src/Text/Digits.antt =====
-- strtol reads back the decimal digits of a number.
use disir_c.Prelude.{
  ℕ, zero, suc, ◌+◌, ◌-◌, ◌*◌, ◌/◌, ◌%◌, ◌<◌, ◌≡◌, refl, ap, ◌∙◌, true, false, some, List, [], ◌∷◌,
  ◌++◌, ltb, inl, inr, Bool-cases, arith,
}
use mathlib.Core.List.{append_assoc}
use disir_c.Text.{
  is_digit, skip_spaces, read_digits, starts_digit, strtol, digits_from, decimal, positive,
}

read_digits-digit :
    (v d : ℕ) (rest : List ℕ)
    → d < 10
    → read_digits v ((48 + d) ∷ rest) ≡ read_digits (v * 10 + d) rest
unfolding read_digits
read_digits-digit v d rest lt =
    let e : is_digit (48 + d) ≡ true = ground arith in
    let s : (48 + d) - 48 ≡ d = omega arith in rw e (ap (λ x. read_digits (v * 10 + x) rest) s)

read_digits-digits_from :
    (rounds n : ℕ) (rest : List ℕ)
    → n < rounds
    → read_digits 0 (digits_from rounds n ++ rest) ≡ read_digits n rest
unfolding digits_from
read_digits-digits_from zero n rest lt = absurd (omega (arith, lt))
read_digits-digits_from (suc rounds) n rest lt = elim (Bool-cases (ltb n 10)) [
  | inl e ↦
      let small : n < 10 = ground arith in
      rw (e, digits_from)
        (read_digits-digit 0 n rest small ∙ ap (λ x. read_digits x rest) (omega arith))
  | inr e ↦
      let big : n / 10 < rounds = ground (arith, e, lt) in
      rw (e, digits_from)
        (ap (read_digits 0) (append_assoc (digits_from rounds (n / 10)) ((48 + n % 10) ∷ []) rest)
          ∙ read_digits-digits_from rounds (n / 10) ((48 + n % 10) ∷ rest) big
          ∙ read_digits-digit (n / 10) (n % 10) rest (omega arith)
          ∙ ap (λ x. read_digits x rest) (omega arith))
]

digits_from-starts :
    (rounds n : ℕ) (rest : List ℕ) → n < rounds → starts_digit (digits_from rounds n ++ rest) ≡ true
unfolding digits_from
digits_from-starts zero n rest lt = absurd (omega (arith, lt))
digits_from-starts (suc rounds) n rest lt = elim (Bool-cases (ltb n 10)) [
  | inl e ↦ let small : n < 10 = ground arith in rw (e, digits_from) (ground arith)
  | inr e ↦
      let big : n / 10 < rounds = ground (arith, e, lt) in
      rw (e, digits_from)
        (ap starts_digit (append_assoc (digits_from rounds (n / 10)) ((48 + n % 10) ∷ []) rest)
          ∙ digits_from-starts rounds (n / 10) ((48 + n % 10) ∷ rest) big)
]

strtol-unsigned :
    (cs : List ℕ)
    → starts_digit cs ≡ true
    → strtol cs ≡ some (positive (read_digits 0 cs).0, (read_digits 0 cs).1)
unfolding skip_spaces
strtol-unsigned [] h = absurd cc
strtol-unsigned (c ∷ cs) h = let d : is_digit c ≡ true = h in ground (arith, d)

read_digits-stops :
    (n : ℕ) (rest : List ℕ) → starts_digit rest ≡ false → read_digits n rest ≡ (n, rest)
unfolding read_digits
read_digits-stops n [] h = refl
read_digits-stops n (c ∷ cs) h = rw h refl

-- The decimal digits of a number, with no digit behind them, are read back.
pub strtol-decimal :
    (n : ℕ) (rest : List ℕ)
    → starts_digit rest ≡ false
    → strtol (decimal n ++ rest) ≡ some (positive n, rest)
strtol-decimal n rest h =
    strtol-unsigned (decimal n ++ rest) (digits_from-starts (suc n) n rest (omega arith))
    ∙ ap (λ r. some (positive r.0, r.1))
        (read_digits-digits_from (suc n) n rest (omega arith) ∙ read_digits-stops n rest h)
