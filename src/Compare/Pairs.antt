-- ===== src/Compare/Pairs.antt =====
-- diff_compare_contexts_with_report of lib/compare.c on two elements: it reports nothing exactly if they
-- are alike.
use disir_c.Prelude.{
  ℕ, ◌≡◌, refl, ap, sym, ◌∙◌, List, [], ◌∷◌, arith, Bool-cases, inl, inr, if◌then◌else◌, ◌==◌,
}
use disir_c.Prelude.Int.{pos}
use disir_c.Value.{Platform, Value, value_compare, type_number}
use disir_c.Restriction.{Doubles}
use disir_c.Restriction.Exclusive.{same_text}
use disir_c.Context.{
  ContextType, config_type, mold_type, section_type, keyval_type, documentation_type, default_type,
  restriction_type, unknown_type, context_number,
}
use disir_c.Compare.{Difference, Element, Elements, keyval, section, end, element, name_of}
use disir_c.Compare.Loops.{Comparator, find_comparators, find_elements, compare_all_elements}
use disir_c.Compare.Contexts.{
  Head, guarded, element_head, against_keyval, against_section, compare_sections, compare_element,
  comparators, listed,
}
use disir_c.Compare.Each.{
  nothing_of, nothing_and, Paired, compare_all_elements-Paired, Paired-compare_all_elements,
}
use disir_c.Compare.Same.{keyvals-Same, Same-keyvals, sections-Same, Same-sections}
use disir_c.Compare.Alike.{Alike, AlikeEach, keyvals, sections, nothing, more, of_name}

context_of : ℕ → ContextType
context_of n =
    if n == 1
    then config_type
    else if n == 2
    then mold_type
    else if n == 3
    then section_type
    else if n == 4
    then keyval_type
    else if n == 5
    then documentation_type
    else if n == 6
    then default_type
    else if n == 7
    then restriction_type
    else unknown_type

context_of-number : (a : ContextType) → context_of (context_number a) ≡ a
unfolding context_of
context_of-number config_type = refl
context_of-number mold_type = refl
context_of-number section_type = refl
context_of-number keyval_type = refl
context_of-number documentation_type = refl
context_of-number default_type = refl
context_of-number restriction_type = refl
context_of-number unknown_type = refl

pub same_context : (a b : ContextType) → context_number a ≡ context_number b → a ≡ b
same_context a b h = sym (context_of-number a) ∙ ap context_of h ∙ context_of-number b

-- Values that compare as equal are of one type.
same_value_type :
    (P : Platform) (v w : Value P)
    → value_compare P v w ≡ pos 0
    → type_number v.dv_type ≡ type_number w.dv_type
same_value_type P v w h = ground arith

-- The tests pass on two sides that agree in what they read.
guarded-body :
    (l r : Head) (body : List Difference)
    → l.root ≡ r.root
    → context_number l.kind ≡ context_number r.kind
    → type_number l.value_type ≡ type_number r.value_type
    → guarded l r body ≡ body
guarded-body l r body a b c = ground (arith, ap context_number a)

-- Where nothing is reported, the tests have passed.
pub guarded-nothing :
    (l r : Head) (body : List Difference)
    → guarded l r body ≡ []
    → (context_number l.root ≡ context_number r.root)
      × (context_number l.kind ≡ context_number r.kind)
      × (body ≡ [])
guarded-nothing l r body h = ground arith

module _ (P : Platform) (D : Doubles) (root : ContextType) where
  abbrev pub Comparators : Type 0
  Comparators = List (Comparator (Element P D) (name_of P D))

  -- The comparisons of the elements of a list report nothing exactly for elements that are alike.
  unfoldable pub Tracks : Comparators → List (Element P D) → Type 0
  Tracks [] [] = Unit
  Tracks [] (e ∷ es) = ⊥
  Tracks (c ∷ cs) [] = ⊥
  Tracks (c ∷ cs) (e ∷ es) =
      (c.name ≡ name_of P D e)
      × ((f : Element P D) → c.against f ≡ [] → Alike P D root e f)
      × ((f : Element P D) → Alike P D root e f → c.against f ≡ [])
      × Tracks cs es

  pub Tracks-find :
      (n : List ℕ) (cs : Comparators) (es : List (Element P D))
      → Tracks cs es
      → Tracks
          (find_comparators (Element P D) (name_of P D) n cs)
          (find_elements (Element P D) (name_of P D) n es)
  unfolding Tracks
  Tracks-find n [] [] t = tt
  Tracks-find n [] (e ∷ es) t = absurd t
  Tracks-find n (c ∷ cs) [] t = absurd t
  Tracks-find n (c ∷ cs) (e ∷ es) t = elim (Bool-cases (same_text n c.name)) [
    | inl same ↦
        rw same (rw (ap (same_text n) (sym t.0) ∙ same) (t.0, t.1, t.2, Tracks-find n cs es t.3))
    | inr apart ↦ rw apart (rw (ap (same_text n) (sym t.0) ∙ apart) (Tracks-find n cs es t.3))
  ]

  pub Paired-AlikeEach :
      (cs : Comparators) (es fs : List (Element P D))
      → Tracks cs es
      → Paired (Element P D) (name_of P D) cs fs
      → AlikeEach P D root es fs
  unfolding Tracks
  Paired-AlikeEach [] [] [] t p = nothing
  Paired-AlikeEach [] [] (f ∷ fs) t p = absurd p
  Paired-AlikeEach [] (e ∷ es) fs t p = absurd t
  Paired-AlikeEach (c ∷ cs) [] fs t p = absurd t
  Paired-AlikeEach (c ∷ cs) (e ∷ es) [] t p = absurd p
  Paired-AlikeEach (c ∷ cs) (e ∷ es) (f ∷ fs) t p =
      more (t.1 f p.0) (Paired-AlikeEach cs es fs t.3 p.1)

  pub AlikeEach-Paired :
      (cs : Comparators) {es fs : List (Element P D)}
      → Tracks cs es
      → AlikeEach P D root es fs
      → Paired (Element P D) (name_of P D) cs fs
  unfolding Tracks
  AlikeEach-Paired [] t nothing = tt
  AlikeEach-Paired [] t (more a as_) = absurd t
  AlikeEach-Paired (c ∷ cs) t nothing = absurd t
  AlikeEach-Paired (c ∷ cs) t (more {f = f} a rest) = (t.2 f a, AlikeEach-Paired cs t.3 rest)

  mutual
    unfolding compare_element Tracks

    pub element-Alike :
        (e f : Element P D) → compare_element P D e root root f ≡ [] → Alike P D root e f
    element-Alike (keyval k) (keyval j) h = keyvals (
        keyvals-Same P D root k j
          (guarded-nothing (element_head P D root (keyval k)) (element_head P D root (keyval j))
            (against_keyval P D root k (keyval j)) h).2)
    element-Alike (keyval k) (section t fs) h = absurd (
        omega (
          arith,
          (guarded-nothing (element_head P D root (keyval k)) (element_head P D root (section t fs))
              (against_keyval P D root k (section t fs)) h).1,
        ))
    element-Alike (section s es) (keyval j) h = absurd (
        omega (
          arith,
          (guarded-nothing (element_head P D root (section s es)) (element_head P D root (keyval j))
              (against_section P D root s (comparators P D es root root) (keyval j)) h).1,
        ))
    element-Alike (section s es) (section t fs) h =
        let both =
          nothing_of (compare_sections P D root s t)
            (compare_all_elements (Element P D) (name_of P D) s.se_name
              (comparators P D es root root) (listed P D fs))
            (guarded-nothing (element_head P D root (section s es))
              (element_head P D root (section t fs))
              (against_section P D root s (comparators P D es root root) (section t fs)) h).2 in
        sections (sections-Same P D root s t both.0) (λ n.
          Paired-AlikeEach
            (find_comparators (Element P D) (name_of P D) n (comparators P D es root root))
            (of_name P D n es) (of_name P D n fs)
            (Tracks-find n (comparators P D es root root) (listed P D es) (comparators-Tracks es))
            (compare_all_elements-Paired (Element P D) (name_of P D) s.se_name
              (comparators P D es root root) (listed P D fs) both.1 n))

    pub Alike-element :
        (e f : Element P D) → Alike P D root e f → compare_element P D e root root f ≡ []
    Alike-element (keyval k) (keyval j) (keyvals same) =
        guarded-body (element_head P D root (keyval k)) (element_head P D root (keyval j))
          (against_keyval P D root k (keyval j)) refl refl
          (same_value_type P k.kv_value j.kv_value same.value)
        ∙ Same-keyvals P D root k j same
    Alike-element (keyval k) (section t fs) a = elim a [ ]
    Alike-element (section s es) (keyval j) a = elim a [ ]
    Alike-element (section s es) (section t fs) (sections same each) =
        guarded-body (element_head P D root (section s es)) (element_head P D root (section t fs))
          (against_section P D root s (comparators P D es root root) (section t fs)) refl refl refl
        ∙ nothing_and (compare_sections P D root s t)
            (compare_all_elements (Element P D) (name_of P D) s.se_name
              (comparators P D es root root) (listed P D fs))
            (Same-sections P D root s t same)
            (Paired-compare_all_elements (Element P D) (name_of P D) s.se_name
              (comparators P D es root root) (listed P D fs)
              (λ n.
                AlikeEach-Paired
                  (find_comparators (Element P D) (name_of P D) n (comparators P D es root root))
                  (Tracks-find n (comparators P D es root root) (listed P D es)
                    (comparators-Tracks es))
                  (each n)))

    pub comparators-Tracks :
        (es : Elements P D) → Tracks (comparators P D es root root) (listed P D es)
    comparators-Tracks end = tt
    comparators-Tracks (element e es) =
        (refl, element-Alike e, Alike-element e, comparators-Tracks es)
