-- ===== src/Query/Cut.antt =====
-- Cutting a text at the first of a character.
use disir_c.Prelude.{
  ℕ, zero, suc, ◌+◌, ◌/◌, ◌%◌, ◌≡◌, refl, Bool, true, false, not, ◌&&◌, none, some, List, [], ◌∷◌,
  ◌++◌, ◌==◌, ltb, inl, inr, Bool-cases, arith,
}
use disir_c.Text.{is_digit, digits_from}
use disir_c.Query.{cut_at}

-- The character is not in the text.
abbrev pub lacks : ℕ → List ℕ → Bool
lacks c [] = true
lacks c (d ∷ ds) = not (d == c) && lacks c ds

pub lacks-append :
    (c : ℕ) (xs ys : List ℕ) → lacks c xs ≡ true → lacks c ys ≡ true → lacks c (xs ++ ys) ≡ true
lacks-append c [] ys h k = k
lacks-append c (x ∷ xs) ys h k = ground (arith, h, lacks-append c xs ys, k)

pub cut_at-found :
    (c : ℕ) (xs ys : List ℕ) → lacks c xs ≡ true → cut_at c (xs ++ (c ∷ ys)) ≡ (xs, some ys)
unfolding cut_at
cut_at-found c [] ys h = ground arith
cut_at-found c (x ∷ xs) ys h =
    let other : (x == c) ≡ false = ground (arith, h) in
    let rest : lacks c xs ≡ true = ground (arith, h) in rw (other, cut_at-found c xs ys rest) refl

pub cut_at-lacks : (c : ℕ) (xs : List ℕ) → lacks c xs ≡ true → cut_at c xs ≡ (xs, none)
unfolding cut_at
cut_at-lacks c [] h = refl
cut_at-lacks c (x ∷ xs) h =
    let other : (x == c) ≡ false = ground (arith, h) in
    let rest : lacks c xs ≡ true = ground (arith, h) in rw (other, cut_at-lacks c xs rest) refl

pub digits_from-lacks :
    (c : ℕ) → is_digit c ≡ false → (rounds n : ℕ) → lacks c (digits_from rounds n) ≡ true
unfolding digits_from
digits_from-lacks c h zero n = refl
digits_from-lacks c h (suc rounds) n = elim (Bool-cases (ltb n 10)) [
  | inl e ↦ rw (e, digits_from) (ground (arith, h))
  | inr e ↦
      rw (e, digits_from)
        (lacks-append c (digits_from rounds (n / 10)) ((48 + n % 10) ∷ [])
          (digits_from-lacks c h rounds (n / 10)) (ground (arith, h)))
]
