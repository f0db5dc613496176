-- ===== src/Version/Order.antt =====
-- dc_version_compare and dx_mold_update_version against the order of versions.
use disir_c.Prelude.{ℕ, ◌+◌, ◌*◌, ◌<◌, ◌≡◌, arith, ltb, ◌==◌, true, some, if◌then◌else◌}
use disir_c.Prelude.Int.{pos, ltb_ℤ, eqb_ℤ}
use disir_c.Version.{Version, InRange, version_compare, mold_update_version}
use disir_c.Status.{ok}

-- The place of a version in the order by major, then minor component.
abbrev pub rank : Version → ℕ
rank v = v.sv_major * 4294967296 + v.sv_minor

-- Both components fit in a non-negative `int`.
pub record Fits (v : Version) : Type 0 where
  pub major : v.sv_major < 2147483648
  pub minor : v.sv_minor < 2147483648

module _ (v w : Version) (hv : Fits v) (hw : Fits w) where
  compare_lt : ltb_ℤ (version_compare v w) (pos 0) ≡ ltb (rank v) (rank w)
  compare_lt = ground arith

  compare_gt : ltb_ℤ (pos 0) (version_compare v w) ≡ ltb (rank w) (rank v)
  compare_gt = ground arith

  compare_eq : eqb_ℤ (version_compare v w) (pos 0) ≡ (rank v == rank w)
  compare_eq = ground arith

  -- Where both components of both versions are below 2 ^ 31, the comparison is negative, zero or
  -- positive as the first version comes before, is, or comes after the second.
  pub version_compare-order :
      (ltb_ℤ (version_compare v w) (pos 0) ≡ ltb (rank v) (rank w))
      × (eqb_ℤ (version_compare v w) (pos 0) ≡ (rank v == rank w))
      × (ltb_ℤ (pos 0) (version_compare v w) ≡ ltb (rank w) (rank v))
  version_compare-order = (compare_lt, compare_eq, compare_gt)

-- In the whole range of uint32_t, where the major components are more than 2 ^ 31 apart the
-- comparison has the wrong sign: the version that comes later is said to come first.
pub version_compare-wraps :
    (v w : Version)
    → InRange v
    → InRange w
    → w.sv_major + 2147483648 < v.sv_major
    → (ltb_ℤ (version_compare v w) (pos 0) ≡ true) × (rank w < rank v)
version_compare-wraps v w hv hw far =
    (ground arith, omega (arith, hv.minor, hw.minor, hv.major, hw.major))

abbrev later : Version → Version → Version
later m v = if ltb (rank m) (rank v) then v else m

module _ (m v : Version) (hm : InRange m) (hv : InRange v) where
  raised_major : m.sv_major < v.sv_major → rank m < rank v
  raised_major lt = omega (arith, hm.minor)

  lower_major : v.sv_major < m.sv_major → rank v < rank m
  lower_major lt = omega (arith, hv.minor)

  -- Updating the version of a mold answers with ok and leaves the later one of the two versions.
  pub mold_update_version-later : mold_update_version (some m) (some v) ≡ (ok, some (later m v))
  mold_update_version-later = ground (arith, raised_major, lower_major)
