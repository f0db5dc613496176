-- ===== src/Compare/Alike.antt =====
-- When two contexts are alike: what dc_compare promises, with the order of elements of different names
-- forgotten.
use disir_c.Prelude.{ℕ, true, ◌≡◌, Option, none, some, List, [], ◌∷◌}
use disir_c.Prelude.Int.{pos}
use disir_c.Value.{Platform, value_compare}
use disir_c.Version.{Version, version_compare}
use disir_c.Restriction.{Doubles}
use disir_c.Context.{ContextType, config_type, mold_type}
use disir_c.Compare.{
  Documentation, DefaultEntry, RestrictionEntry, Keyval, Section, Element, Elements, keyval,
  section, Context, config, mold, below, name_of,
}
use disir_c.Compare.Loops.{find_elements}
use disir_c.Compare.Contexts.{listed}

abbrev pub SameVersion : Version → Version → Type 0
SameVersion v w = version_compare v w ≡ pos 0

abbrev pub Each : {A : Type 0} → (A → A → Type 0) → List A → List A → Type 0
Each R [] [] = Unit
Each R [] (y ∷ ys) = ⊥
Each R (x ∷ xs) [] = ⊥
Each R (x ∷ xs) (y ∷ ys) = R x y × Each R xs ys

-- Both queues are empty, or their first entries are related.
abbrev pub First : {A : Type 0} → (A → A → Type 0) → List A → List A → Type 0
First R [] [] = Unit
First R [] (y ∷ ys) = ⊥
First R (x ∷ xs) [] = ⊥
First R (x ∷ xs) (y ∷ ys) = R x y

-- Where both are there, they are the same.
abbrev pub SameText : Option (List ℕ) → Option (List ℕ) → Type 0
SameText none t = Unit
SameText (some s) none = Unit
SameText (some s) (some t) = s ≡ t

abbrev pub InMold : ContextType → Type 0 → Type 0
InMold mold_type X = X
InMold _ X = Unit

module _ (P : Platform) (D : Doubles) where
  abbrev pub SameDocumentation : Documentation P D → Documentation P D → Type 0
  SameDocumentation d e =
      SameVersion d.dd_introduced e.dd_introduced × (value_compare P d.dd_value e.dd_value ≡ pos 0)

  abbrev pub SameDefault : DefaultEntry P D → DefaultEntry P D → Type 0
  SameDefault d e =
      SameVersion d.de_introduced e.de_introduced × (value_compare P d.de_value e.de_value ≡ pos 0)

  pub record SameRestriction (r s : RestrictionEntry P D) : Type 0 where
    pub introduced : SameVersion r.re_introduced s.re_introduced
    pub deprecated : SameVersion r.re_deprecated s.re_deprecated
    pub kind : r.re_type ≡ s.re_type
    pub documented : Each SameDocumentation r.re_documentation_queue s.re_documentation_queue
    pub numeric : D.eqb_double r.re_value_numeric s.re_value_numeric ≡ true
    pub lower : D.eqb_double r.re_value_min s.re_value_min ≡ true
    pub upper : D.eqb_double r.re_value_max s.re_value_max ≡ true
    pub text : SameText r.re_value_string s.re_value_string

  -- Keyvals of a config have the same value; in a mold, the queues are alike as well.
  pub record SameKeyval (root : ContextType) (k j : Keyval P D) : Type 0 where
    pub value : value_compare P k.kv_value j.kv_value ≡ pos 0
    pub documented :
        InMold root (Each SameDocumentation k.kv_documentation_queue j.kv_documentation_queue)
    pub defaults : InMold root (Each SameDefault k.kv_default_queue j.kv_default_queue)
    pub restricted :
        InMold root (First SameRestriction k.kv_restrictions_queue j.kv_restrictions_queue)

  pub record SameSection (root : ContextType) (s t : Section P D) : Type 0 where
    pub documented :
        InMold root (Each SameDocumentation s.se_documentation_queue t.se_documentation_queue)
    pub restricted :
        InMold root (First SameRestriction s.se_restrictions_queue t.se_restrictions_queue)

  -- The elements of a name, in their order.
  abbrev pub of_name : List ℕ → Elements P D → List (Element P D)
  of_name n es = find_elements (Element P D) (name_of P D) n (listed P D es)

  -- Of every name there are as many elements, which are alike one by one.
  mutual
    pub data Alike (root : ContextType) : Element P D → Element P D → Type 0 where
      keyvals : {k j : Keyval P D} → SameKeyval root k j → Alike root (keyval k) (keyval j)
      sections :
          {s t : Section P D} {es fs : Elements P D}
          → SameSection root s t
          → ((n : List ℕ) → AlikeEach root (of_name n es) (of_name n fs))
          → Alike root (section s es) (section t fs)

    pub data AlikeEach (root : ContextType) : List (Element P D) → List (Element P D) → Type 0 where
      nothing : AlikeEach root [] []
      more :
          {e f : Element P D} {es fs : List (Element P D)}
          → Alike root e f
          → AlikeEach root es fs
          → AlikeEach root (e ∷ es) (f ∷ fs)

  abbrev pub AlikeElements : ContextType → Elements P D → Elements P D → Type 0
  AlikeElements root es fs = (n : List ℕ) → AlikeEach root (of_name n es) (of_name n fs)

  -- Two configs, two molds, or two elements below roots of the same type.
  pub data AlikeContexts : Context P D → Context P D → Type 0 where
    configs :
        {es fs : Elements P D}
        → AlikeElements config_type es fs
        → AlikeContexts (config es) (config fs)
    molds :
        {ds ts : List (Documentation P D)} {es fs : Elements P D}
        → Each SameDocumentation ds ts
        → AlikeElements mold_type es fs
        → AlikeContexts (mold ds es) (mold ts fs)
    elements :
        {root : ContextType} {e f : Element P D}
        → Alike root e f
        → AlikeContexts (below root e) (below root f)
