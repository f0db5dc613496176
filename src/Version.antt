-- ===== src/Version.antt =====
-- Semantic versions: struct disir_version of include/disir/util.h, dc_version_compare and
-- dc_version_set of lib/util.c, dx_mold_update_version of lib/context_mold.c.
-- Both components are uint32_t, so a version of the program satisfies `InRange`.
pub mod Order
pub mod Print
pub mod RoundTrip
use disir_c.Prelude.{
  ℕ, ◌+◌, ◌-◌, ◌%◌, ◌*◌, ◌<◌, ◌≡◌, refl, Bool, true, false, Option, none, some, arith, ltb, ◌==◌,
  ◌&&◌, if◌then◌else◌,
}
use disir_c.Prelude.Int.{ℤ, int32, eqb_ℤ, pos, u32_mod}
use disir_c.Status.{Status, ok, invalid_argument}

pub record Version : Type 0 where
  pub sv_major : ℕ
  pub sv_minor : ℕ

abbrev pub version : ℕ → ℕ → Version
version a b = record { sv_major = a; sv_minor = b }

-- the range of uint32_t
pub record InRange (v : Version) : Type 0 where
  pub major : v.sv_major < 4294967296
  pub minor : v.sv_minor < 4294967296

-- The unsigned difference wraps modulo 2 ^ 32 and is then read as an `int`.
abbrev pub version_compare : Version → Version → ℤ
version_compare s1 s2 =
    let res = int32 ((s1.sv_major + u32_mod - s2.sv_major) % u32_mod) in
    if eqb_ℤ res (pos 0) then int32 ((s1.sv_minor + u32_mod - s2.sv_minor) % u32_mod) else res

-- NULL is `none`; the result is what the destination holds afterwards.
abbrev pub version_set : Option Version → Option Version → Option Version
version_set none source = none
version_set (some destination) none = some destination
version_set (some destination) (some source) = some source

-- The version of a mold, raised to `version` where that is greater; NULL is `none`.
abbrev pub mold_update_version : Option Version → Option Version → Status × Option Version
mold_update_version none v = (invalid_argument, none)
mold_update_version (some m) none = (invalid_argument, some m)
mold_update_version (some m) (some v) =
    if ltb m.sv_major v.sv_major
    then (ok, some v)
    else if (m.sv_major == v.sv_major) && ltb m.sv_minor v.sv_minor
    then (ok, some (record m { sv_minor = v.sv_minor }))
    else (ok, some m)
