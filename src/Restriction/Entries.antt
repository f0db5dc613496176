-- ===== src/Restriction/Entries.antt =====
-- dx_restriction_entries_value of lib/context_restriction.c: how many entries of a section or a
-- keyval a version asks for.
use disir_c.Prelude.{Bool, true, false, not, ◌&&◌, Option, none, some, List, [], ◌∷◌, if◌then◌else◌}
use disir_c.Prelude.Int.{ℤ, pos, negsuc, ltb_ℤ, leb_ℤ, eqb_ℤ}
use disir_c.Status.{Status, ok, wrong_context, internal_error}
use disir_c.Version.{Version, version_compare}
use disir_c.Restriction.{
  Doubles, Restriction, RestrictionType, inc_entry_min, inc_entry_max, is_set,
}

-- The lowest version of a keyval's default entries; NULL is `none`.
abbrev pub lower : Option Version → Version → Version
lower none v = v
lower (some w) v = if ltb_ℤ (version_compare v w) (pos 0) then v else w

abbrev pub lowest : Option Version → List Version → Option Version
lowest found [] = found
lowest found (v ∷ vs) = lowest (some (lower found v)) vs

-- The variables of the loop over the inclusive entries; INT_MIN is where the matches start.
pub record Matches : Type 0 where
  pub min : ℤ
  pub max : ℤ
  pub min_closes_match : ℤ
  pub max_closes_match : ℤ

abbrev pub no_matches : Matches
no_matches = record {
  min = negsuc 0;
  max = negsuc 0;
  min_closes_match = negsuc 2147483647;
  max_closes_match = negsuc 2147483647;
}

module _ (D : Doubles) where
  -- An entry that is not newer than the target, `diff` versions away from it.
  abbrev pub match_entry : ℤ → Restriction D → Matches → Matches
  match_entry diff e m = elim e.re_type [
    | inc_entry_min ↦
        if ltb_ℤ m.min_closes_match diff
        then record m { min_closes_match = diff; min = D.to_int e.re_value_min }
        else m
    | inc_entry_max ↦
        if ltb_ℤ m.max_closes_match diff
        then record m { max_closes_match = diff; max = D.to_int e.re_value_max }
        else m
    | _ ↦ m
  ]

  abbrev pub consider : Version → Restriction D → Matches → Matches
  consider version e m =
      let diff : ℤ = version_compare e.re_introduced version in
      if ltb_ℤ (pos 0) diff then m else match_entry diff e m

  abbrev pub matches : Version → List (Restriction D) → Matches → Matches
  matches version [] m = m
  matches version (e ∷ es) m = matches version es (consider version e m)

-- Behind the loop: the maximum, with a default of 1, and the minimum, with a default of 1.
abbrev pub settle_max : ℤ → ℤ → ℤ
settle_max min max =
    let raised : ℤ = if not (eqb_ℤ max (pos 0)) && ltb_ℤ max min then min else max in
    if eqb_ℤ raised (negsuc 0) then pos 1 else raised

abbrev pub settle_min : ℤ → ℤ
settle_min min = if eqb_ℤ min (negsuc 0) then pos 1 else min

-- The element was introduced after the version, or was deprecated by then.
abbrev pub introduced_after : Option Version → Version → Bool
introduced_after none version = false
introduced_after (some v) version = ltb_ℤ (pos 0) (version_compare v version)

abbrev pub deprecated_by : Version → Version → Bool
deprecated_by v version = is_set v && leb_ℤ (version_compare v version) (pos 0)

-- What the mold says of the element, and the version that is asked about.
pub record Element : Type 0 where
  pub element_introduced : Option Version
  pub element_deprecated : Version
  pub version : Version

-- A keyval is introduced with the lowest of its default entries; a section has a version itself.
abbrev pub keyval_element : List Version → Version → Version → Element
keyval_element defaults deprecated version = record {
  element_introduced = lowest none defaults;
  element_deprecated = deprecated;
  version = version;
}

abbrev pub section_element : Version → Version → Version → Element
section_element introduced deprecated version = record {
  element_introduced = some introduced;
  element_deprecated = deprecated;
  version = version;
}

abbrev pub is_absent : Element → Bool
is_absent k =
    if introduced_after k.element_introduced k.version
    then true
    else deprecated_by k.element_deprecated k.version

module _ (D : Doubles) where
  -- dx_restriction_entries_value on a section or a keyval, for the two kinds that it answers.
  abbrev pub entries_minimum : Element → List (Restriction D) → ℤ
  entries_minimum k es =
      if is_absent k then pos 0 else settle_min (matches D k.version es no_matches).min

  abbrev pub entries_maximum : Element → List (Restriction D) → ℤ
  entries_maximum k es =
      let m : Matches = matches D k.version es no_matches in
      if is_absent k then negsuc 0 else settle_max m.min m.max

  abbrev pub entries_value :
      Bool → RestrictionType → Element → List (Restriction D) → Status × Option ℤ
  entries_value false kind k es = (wrong_context, none)
  entries_value true inc_entry_min k es = (ok, some (entries_minimum k es))
  entries_value true inc_entry_max k es = (ok, some (entries_maximum k es))
  entries_value true _ k es = (internal_error, none)
