-- ===== src/Value/Numbers.antt =====
-- dx_value_compare on integers: the difference of two int64_t numbers is returned as an int.
use disir_c.Prelude.{ap, ◌∙◌, ltb, ◌==◌, ℕ, ◌+◌, ◌*◌, ◌<◌, ◌≡◌, arith}
use disir_c.Prelude.Int.{ℤ, sub_ℕ, pos_part, neg_part, pos, ◌-ℤ◌, ltb_ℤ, eqb_ℤ, to_int32}
use disir_c.Value.{Platform, Value, integer, value_compare}

-- An integer value, as the program keeps it.
pub record IsInteger {P : Platform} (v : Value P) (n : ℤ) : Type 0 where
  pub kind : v.dv_type ≡ integer
  pub held : v.dv_integer ≡ n
  pub size : v.dv_size ≡ 0

to_int32-sub_ℕ :
    (x y : ℕ) → x < y + 2147483648 → y < x + 2147483648 → to_int32 (sub_ℕ x y) ≡ sub_ℕ x y
to_int32-sub_ℕ x y below above = ground arith

sub_ℕ-order :
    (x y : ℕ)
    → (ltb_ℤ (sub_ℕ x y) (pos 0) ≡ ltb x y)
      × (eqb_ℤ (sub_ℕ x y) (pos 0) ≡ (x == y))
      × (ltb_ℤ (pos 0) (sub_ℕ x y) ≡ ltb y x)
sub_ℕ-order x y = (ground arith, ground arith, ground arith)

to_int32-multiple : (n : ℕ) → to_int32 (pos (n * 4294967296)) ≡ pos 0
to_int32-multiple n = ground arith

-- a < b + 2 ^ 31
abbrev pub Near : ℤ → ℤ → Type 0
Near a b = pos_part a + neg_part b < neg_part a + pos_part b + 2147483648

module _ (P : Platform) (v w : Value P) (a b : ℤ) (iv : IsInteger v a) (iw : IsInteger w b) where
  compare_difference : value_compare P v w ≡ to_int32 (a -ℤ b)
  compare_difference = ground (arith, iv.kind, iv.held, iv.size, iw.kind, iw.held, iw.size)

  -- Two integers less than 2 ^ 31 apart compare as negative, zero or positive as the first one
  -- is less than, is, or is greater than the second.
  pub compare-order :
      Near a b
      → Near b a
      → (ltb_ℤ (value_compare P v w) (pos 0) ≡ ltb_ℤ a b)
        × (eqb_ℤ (value_compare P v w) (pos 0) ≡ eqb_ℤ a b)
        × (ltb_ℤ (pos 0) (value_compare P v w) ≡ ltb_ℤ b a)
  compare-order near far =
      rw
        (
          compare_difference,
          to_int32-sub_ℕ (pos_part a + neg_part b) (neg_part a + pos_part b) near
              (omega (arith, far)),
        )
        (ground arith, ground arith, ground arith)

  -- Two integers whose difference is a multiple of 2 ^ 32 compare as equal.
  pub compare-wraps : (n : ℕ) → a -ℤ b ≡ pos (n * 4294967296) → value_compare P v w ≡ pos 0
  compare-wraps n e = compare_difference ∙ ap to_int32 e ∙ to_int32-multiple n
