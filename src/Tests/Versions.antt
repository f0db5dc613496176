-- ===== src/Tests/Versions.antt =====
-- Versions 1.2, 1.3 and 3000000000.0
use disir_c.Prelude.{ℕ, ◌≡◌, true, false, arith, ◌<◌}
use disir_c.Prelude.Int.{pos, ltb_ℤ, eqb_ℤ}
use disir_c.Version.{version, version_compare, InRange}
use disir_c.Version.Order.{rank, version_compare-order, version_compare-wraps}

version_compare-order_example :
    (ltb_ℤ (version_compare (version 1 2) (version 1 3)) (pos 0) ≡ true)
    × (eqb_ℤ (version_compare (version 1 2) (version 1 3)) (pos 0) ≡ false)
    × (ltb_ℤ (pos 0) (version_compare (version 1 2) (version 1 3)) ≡ false)
version_compare-order_example =
    version_compare-order (version 1 2) (version 1 3)
      (record { major = omega arith; minor = omega arith })
      (record { major = omega arith; minor = omega arith })

in_range : (a b : ℕ) → a < 4294967296 → b < 4294967296 → InRange (version a b)
in_range a b p q = record { major = p; minor = q }

version_compare-wraps_example :
    (ltb_ℤ (version_compare (version 3000000000 0) (version 1 3)) (pos 0) ≡ true)
    × (rank (version 1 3) < rank (version 3000000000 0))
version_compare-wraps_example =
    version_compare-wraps (version 3000000000 0) (version 1 3)
      (in_range 3000000000 0 (omega arith) (omega arith)) (in_range 1 3 (omega arith) (omega arith))
      (omega arith)
