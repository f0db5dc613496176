-- ===== src/Restriction/Closest.antt =====
-- dx_restriction_entries_value: which entry is chosen, and the bounds that it answers.
use disir_c.Prelude.{
  ℕ, suc, ◌+◌, ◌<◌, ◌≡◌, refl, ap, ◌∙◌, true, false, List, [], ◌∷◌, arith, Bool-cases, ◌⊎◌, inl,
  inr,
}
use disir_c.Prelude.Int.{ℤ, pos, negsuc, leb_ℤ, eqb_ℤ}
use disir_c.Version.{Version, version_compare, version}
use disir_c.Version.Order.{rank}
use disir_c.Restriction.{Doubles, Restriction, inc_entry_min}
use disir_c.Restriction.Entries.{
  Matches, no_matches, consider, matches, settle_max, settle_min, is_absent, Element,
  entries_minimum, entries_maximum,
}

settle-order :
    (min max : ℤ)
    → eqb_ℤ (settle_max min max) (pos 0) ≡ false
    → leb_ℤ (settle_min min) (settle_max min max) ≡ true
settle-order min max e = ground arith

module _ (D : Doubles) where
  -- For an element that the version has, the minimum is at most the maximum, unless the maximum
  -- is 0, which stands for no limit; for one that it has not, they are 0 and -1.
  pub entries-order :
      (k : Element) (es : List (Restriction D))
      → ((is_absent k ≡ true)
          × (entries_minimum D k es ≡ pos 0)
          × (entries_maximum D k es ≡ negsuc 0))
        ⊎ ((is_absent k ≡ false)
            × ((eqb_ℤ (entries_maximum D k es) (pos 0) ≡ true)
                ⊎ (leb_ℤ (entries_minimum D k es) (entries_maximum D k es) ≡ true)))
  entries-order k es = elim (Bool-cases (is_absent k)) [
    | inl a ↦ inl (a, rw a refl, rw a refl)
    | inr a ↦
        let m : Matches = matches D k.version es no_matches in
        elim (Bool-cases (eqb_ℤ (settle_max m.min m.max) (pos 0))) [
          | inl z ↦ inr (a, inl (rw a z))
          | inr z ↦ inr (a, inr (rw a (settle-order m.min m.max z)))
        ]
  ]

  consider-last_major :
      (v : Version) (e : Restriction D)
      → e.re_type ≡ inc_entry_min
      → version_compare e.re_introduced v ≡ negsuc 0
      → consider D v e no_matches
        ≡ record no_matches { min_closes_match = negsuc 0; min = D.to_int e.re_value_min }
  consider-last_major v e kind diff = ground arith

  consider-farther :
      (v : Version) (e : Restriction D) (m : Matches) (n : ℕ)
      → e.re_type ≡ inc_entry_min
      → version_compare e.re_introduced v ≡ negsuc (suc n)
      → m.min_closes_match ≡ negsuc 0
      → consider D v e m ≡ m
  consider-farther v e m n kind diff closest = ground arith

  module _ (old new : Restriction D) (a b n major : ℕ) where
    abbrev target : Version
    target = version (suc major) (b + n + 2)

    old_diff :
        old.re_introduced ≡ version major a
        → suc major < 2147483648
        → version_compare old.re_introduced target ≡ negsuc 0
    old_diff e lt = ap (λ v. version_compare v target) e ∙ ground arith

    new_diff :
        new.re_introduced ≡ version (suc major) b
        → b + n + 2 < 2147483648
        → version_compare new.re_introduced target ≡ negsuc (suc n)
    new_diff e lt = ap (λ v. version_compare v target) e ∙ ground arith

    -- Of two minimum entries, one of the major version before the target's and one of the
    -- target's own that is two or more minor versions back, the first one is chosen, although it
    -- is the older one.
    pub minimum-older :
        old.re_type ≡ inc_entry_min
        → new.re_type ≡ inc_entry_min
        → old.re_introduced ≡ version major a
        → new.re_introduced ≡ version (suc major) b
        → suc major < 2147483648
        → a < 2147483648
        → b + n + 2 < 2147483648
        → (rank old.re_introduced < rank new.re_introduced)
          × ((matches D target (old ∷ new ∷ []) no_matches).min ≡ D.to_int old.re_value_min)
    minimum-older ko kn io inew fm fa fb = (
      rw (io, inew) (omega (arith, fa)),
      ap (λ m. (consider D target new m).min) (consider-last_major target old ko (old_diff io fm))
          ∙ ap (λ (m : Matches). m.min)
              (consider-farther target new
                (record no_matches { min_closes_match = negsuc 0; min = D.to_int old.re_value_min })
                n kn (new_diff inew fb) refl),
    )
