-- ===== src/Restriction/Latest.antt =====
-- dx_restriction_entries_value where every entry has the major version of the target.
use disir_c.Prelude.{
  ◌≡◌, Bool, true, false, ◌&&◌, Option, none, some, List, [], ◌∷◌, ltb, leb, if◌then◌else◌,
}
use disir_c.Prelude.Int.{ℤ, negsuc, sub_ℕ}
use disir_c.Version.{Version}
use disir_c.Version.Order.{rank, Fits}
use disir_c.Restriction.{Doubles, Restriction, RestrictionType, inc_entry_min}
use disir_c.Restriction.Entries.{Matches}

abbrev pub is_minimum : RestrictionType → Bool
is_minimum inc_entry_min = true
is_minimum _ = false

module _ (D : Doubles) (v : Version) where
  -- A minimum entry that is not introduced after the target.
  abbrev pub applies : Restriction D → Bool
  applies e = is_minimum e.re_type && leb (rank e.re_introduced) (rank v)

  -- The applicable minimum entry of the latest version, the first of those.
  abbrev pub latest_minimum : List (Restriction D) → Option (Restriction D) → Option (Restriction D)
  latest_minimum [] b = b
  latest_minimum (e ∷ es) none = latest_minimum es (if applies e then some e else none)
  latest_minimum (e ∷ es) (some b) =
      latest_minimum es
        (if applies e && ltb (rank b.re_introduced) (rank e.re_introduced) then some e else some b)

  -- The minimum that the entry states; -1 where there is none.
  abbrev pub stated : Option (Restriction D) → ℤ
  stated none = negsuc 0
  stated (some b) = D.to_int b.re_value_min

  -- An entry of the target's own major version, that fits.
  pub record IsNear (e : Restriction D) : Type 0 where
    pub major : e.re_introduced.sv_major ≡ v.sv_major
    pub fits : Fits e.re_introduced

  -- What the loop knows about the minimum.
  abbrev Knows : Matches → Option (Restriction D) → Type 0
  Knows m none = (m.min ≡ negsuc 0) × (m.min_closes_match ≡ negsuc 2147483647)
  Knows m (some b) =
      (m.min ≡ D.to_int b.re_value_min)
      × (m.min_closes_match ≡ sub_ℕ b.re_introduced.sv_minor v.sv_minor)
      × IsNear b

  module _ (fv : Fits v) where
    abbrev better : Restriction D → Option (Restriction D) → Option (Restriction D)
    better e none = if applies e then some e else none
    better e (some b) =
        if applies e && ltb (rank b.re_introduced) (rank e.re_introduced) then some e else some b
