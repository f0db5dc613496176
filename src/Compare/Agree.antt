-- ===== src/Compare/Agree.antt =====
-- The comparisons of queues of lib/compare.c report nothing exactly if the queues are alike.
use disir_c.Prelude.{
  ℕ, ◌≡◌, refl, true, false, not, Option, none, some, List, [], ◌∷◌, arith, if◌then◌else◌, ap, sym,
  ◌∙◌, ◌==◌,
}
use disir_c.Prelude.Int.{ℤ, pos, negsuc, eqb_ℤ}
use disir_c.Value.{Platform, value_compare}
use disir_c.Version.{version_compare}
use disir_c.Restriction.{
  Doubles, RestrictionType, inc_entry_min, inc_entry_max, exc_value_enum, exc_value_range,
  exc_value_numeric, unknown_restriction,
}
use disir_c.Compare.{restriction_values, Documentation, DefaultEntry, RestrictionEntry}
use disir_c.Compare.Queues.{
  versions_differ, texts_differ, restriction_number, compare_documentation_queues,
  compare_default_queues, numbers_differ, compare_restriction_queue,
}
use disir_c.Restriction.Texts.{same_text-eq, same_text_refl}
use disir_c.Compare.Each.{nothing_of, nothing_and}
use disir_c.Compare.Alike.{Each, First, SameText, SameDocumentation, SameDefault, SameRestriction}

pub eqb-zero : (z : ℤ) → not (eqb_ℤ z (pos 0)) ≡ false → z ≡ pos 0
eqb-zero (pos n) h = ground arith
eqb-zero (negsuc n) h = ground arith

pub zero-eqb : (z : ℤ) → z ≡ pos 0 → not (eqb_ℤ z (pos 0)) ≡ false
zero-eqb z h = rw h

kind_of : ℕ → RestrictionType
kind_of n =
    if n == 1
    then inc_entry_min
    else if n == 2
    then inc_entry_max
    else if n == 3
    then exc_value_enum
    else if n == 4
    then exc_value_range
    else if n == 5
    then exc_value_numeric
    else unknown_restriction

kind_of-number : (k : RestrictionType) → kind_of (restriction_number k) ≡ k
unfolding kind_of
kind_of-number inc_entry_min = refl
kind_of-number inc_entry_max = refl
kind_of-number exc_value_enum = refl
kind_of-number exc_value_range = refl
kind_of-number exc_value_numeric = refl
kind_of-number unknown_restriction = refl

same_kind : (a b : RestrictionType) → restriction_number a ≡ restriction_number b → a ≡ b
same_kind a b h = sym (kind_of-number a) ∙ ap kind_of h ∙ kind_of-number b

SameText-texts : (s t : Option (List ℕ)) → SameText s t → texts_differ s t ≡ false
SameText-texts none t h = refl
SameText-texts (some s) none h = refl
SameText-texts (some s) (some t) h = rw h (ap not (same_text_refl t))

texts-SameText : (s t : Option (List ℕ)) → texts_differ s t ≡ false → SameText s t
texts-SameText none t h = tt
texts-SameText (some s) none h = tt
texts-SameText (some s) (some t) h = same_text-eq s t (ground arith)

module _ (P : Platform) (D : Doubles) where
  pub documentation-Each :
      (ds es : List (Documentation P D))
      → compare_documentation_queues P D ds es ≡ []
      → Each (SameDocumentation P D) ds es
  unfolding compare_documentation_queues
  documentation-Each [] [] h = tt
  documentation-Each [] (e ∷ es) h = cc
  documentation-Each (d ∷ ds) [] h = cc
  documentation-Each (d ∷ ds) (e ∷ es) h = ground (
    arith,
    eqb-zero (version_compare d.dd_introduced e.dd_introduced),
    eqb-zero (value_compare P d.dd_value e.dd_value),
    documentation-Each ds es,
  )

  pub Each-documentation :
      (ds es : List (Documentation P D))
      → Each (SameDocumentation P D) ds es
      → compare_documentation_queues P D ds es ≡ []
  unfolding compare_documentation_queues
  Each-documentation [] [] h = refl
  Each-documentation [] (e ∷ es) h = absurd h
  Each-documentation (d ∷ ds) [] h = absurd h
  Each-documentation (d ∷ ds) (e ∷ es) h =
      rw (zero-eqb (version_compare d.dd_introduced e.dd_introduced) h.0.0)
        (rw (zero-eqb (value_compare P d.dd_value e.dd_value) h.0.1) (Each-documentation ds es h.1))

  pub default-Each :
      (ds es : List (DefaultEntry P D))
      → compare_default_queues P D ds es ≡ []
      → Each (SameDefault P D) ds es
  unfolding compare_default_queues
  default-Each [] [] h = tt
  default-Each [] (e ∷ es) h = cc
  default-Each (d ∷ ds) [] h = cc
  default-Each (d ∷ ds) (e ∷ es) h = ground (
    arith,
    eqb-zero (version_compare d.de_introduced e.de_introduced),
    eqb-zero (value_compare P d.de_value e.de_value),
    default-Each ds es,
  )

  pub Each-default :
      (ds es : List (DefaultEntry P D))
      → Each (SameDefault P D) ds es
      → compare_default_queues P D ds es ≡ []
  unfolding compare_default_queues
  Each-default [] [] h = refl
  Each-default [] (e ∷ es) h = absurd h
  Each-default (d ∷ ds) [] h = absurd h
  Each-default (d ∷ ds) (e ∷ es) h =
      rw (zero-eqb (version_compare d.de_introduced e.de_introduced) h.0.0)
        (rw (zero-eqb (value_compare P d.de_value e.de_value) h.0.1) (Each-default ds es h.1))

  -- The four values of a restriction
  numbers-Same :
      (r s : RestrictionEntry P D)
      → numbers_differ P D r s ≡ false
      → (D.eqb_double r.re_value_numeric s.re_value_numeric ≡ true)
        × (D.eqb_double r.re_value_min s.re_value_min ≡ true)
        × (D.eqb_double r.re_value_max s.re_value_max ≡ true)
        × (texts_differ r.re_value_string s.re_value_string ≡ false)
  numbers-Same r s h = ground arith

  first-SameRestriction :
      (r s : RestrictionEntry P D) (rs ss : List (RestrictionEntry P D))
      → compare_restriction_queue P D (r ∷ rs) (s ∷ ss) ≡ []
      → SameRestriction P D r s
  unfolding compare_restriction_queue
  first-SameRestriction r s rs ss h =
      let vi = version_compare r.re_introduced s.re_introduced in
      let vd = version_compare r.re_deprecated s.re_deprecated in
      let i : versions_differ r.re_introduced s.re_introduced ≡ false = ground arith in
      let d : versions_differ r.re_deprecated s.re_deprecated ≡ false = ground arith in
      let k : not (restriction_number r.re_type == restriction_number s.re_type) ≡ false =
        ground arith in
      let both =
        nothing_of
          (compare_documentation_queues P D r.re_documentation_queue s.re_documentation_queue)
          (if numbers_differ P D r s then restriction_values ∷ [] else [])
          (rw k at (rw d at (rw i at h))) in
      let same = numbers-Same r s (ground (arith, both.1)) in
      record {
        introduced = eqb-zero vi i;
        deprecated = eqb-zero vd d;
        kind = same_kind r.re_type s.re_type (ground arith);
        documented = documentation-Each r.re_documentation_queue s.re_documentation_queue both.0;
        numeric = same.0;
        lower = same.1;
        upper = same.2;
        text = texts-SameText r.re_value_string s.re_value_string same.3;
      }

  pub restriction-First :
      (rs ss : List (RestrictionEntry P D))
      → compare_restriction_queue P D rs ss ≡ []
      → First (SameRestriction P D) rs ss
  unfolding compare_restriction_queue
  restriction-First [] [] h = tt
  restriction-First [] (s ∷ ss) h = cc
  restriction-First (r ∷ rs) [] h = cc
  restriction-First (r ∷ rs) (s ∷ ss) h = first-SameRestriction r s rs ss h

  pub First-restriction :
      (rs ss : List (RestrictionEntry P D))
      → First (SameRestriction P D) rs ss
      → compare_restriction_queue P D rs ss ≡ []
  unfolding compare_restriction_queue
  First-restriction [] [] h = refl
  First-restriction [] (s ∷ ss) h = absurd h
  First-restriction (r ∷ rs) [] h = absurd h
  First-restriction (r ∷ rs) (s ∷ ss) h =
      let t : texts_differ r.re_value_string s.re_value_string ≡ false =
        SameText-texts r.re_value_string s.re_value_string h.text in
      let v : numbers_differ P D r s ≡ false = ground (arith, t, h.numeric, h.lower, h.upper) in
      let k : (restriction_number r.re_type == restriction_number s.re_type) ≡ true =
        ground (arith, ap restriction_number h.kind) in
      rw (zero-eqb (version_compare r.re_introduced s.re_introduced) h.introduced) (
        rw (zero-eqb (version_compare r.re_deprecated s.re_deprecated) h.deprecated) (
          rw k (
            nothing_and
              (compare_documentation_queues P D r.re_documentation_queue s.re_documentation_queue)
              (if numbers_differ P D r s then restriction_values ∷ [] else [])
              (Each-documentation r.re_documentation_queue s.re_documentation_queue h.documented)
              (rw v))))
