-- ===== src/Compare/Whole.antt =====
-- dc_compare of lib/compare.c answers with ok exactly if the contexts are alike.
use disir_c.Prelude.{◌≡◌, refl, ap, sym, true, none, some, List, [], ◌∷◌, ◌↔◌}
use mathlib.Core.Path.{subst}
use disir_c.Status.{ok, not_supported}
use disir_c.Value.{Platform}
use disir_c.Restriction.{Doubles}
use disir_c.Context.{ContextType, config_type, mold_type}
use disir_c.Compare.{
  Difference, Element, Elements, keyval, section, Context, config, mold, below, name_of,
}
use disir_c.Compare.Queues.{compare_documentation_queues}
use disir_c.Compare.Loops.{find_comparators}
use disir_c.Compare.Contexts.{
  guarded, element_head, against_keyval, against_section, compare_element, comparators, listed,
  type_text, compare, compare_report, compare_elements, head, unless_stopped,
}
use disir_c.Compare.Each.{
  nothing_of, nothing_and, compare_all_elements-Paired, Paired-compare_all_elements,
}
use disir_c.Compare.Agree.{documentation-Each, Each-documentation}
use disir_c.Compare.Pairs.{
  same_context, guarded-nothing, element-Alike, Alike-element, comparators-Tracks, Paired-AlikeEach,
  AlikeEach-Paired, Tracks-find,
}
use disir_c.Compare.Alike.{AlikeContexts, of_name, AlikeElements, configs, molds, elements}

-- A report without differences
report_nothing : (ds : List Difference) → compare_report (ok, ds) ≡ (ok, none) → ds ≡ []
report_nothing [] h = refl
report_nothing (d ∷ ds) h = cc

-- The switch on contexts of a type that it does not know
unsupported :
    (stops : List Difference)
    → compare_report (unless_stopped stops (not_supported, [])) ≡ (ok, none)
    → ⊥
unsupported [] h = absurd cc
unsupported (d ∷ ds) h = absurd cc

module _ (P : Platform) (D : Doubles) where
  same_root :
      (e f : Element P D) (root root' : ContextType)
      → compare_element P D e root root' f ≡ []
      → root ≡ root'
  unfolding compare_element
  same_root (keyval k) (keyval j) root root' h =
      same_context root root'
        (guarded-nothing (element_head P D root (keyval k)) (element_head P D root' (keyval j))
          (against_keyval P D root k (keyval j)) h).0
  same_root (keyval k) (section t fs) root root' h =
      same_context root root'
        (guarded-nothing (element_head P D root (keyval k)) (element_head P D root' (section t fs))
          (against_keyval P D root k (section t fs)) h).0
  same_root (section s es) (keyval j) root root' h =
      same_context root root'
        (guarded-nothing (element_head P D root (section s es)) (element_head P D root' (keyval j))
          (against_section P D root s (comparators P D es root root') (keyval j)) h).0
  same_root (section s es) (section t fs) root root' h =
      same_context root root'
        (guarded-nothing (element_head P D root (section s es))
          (element_head P D root' (section t fs))
          (against_section P D root s (comparators P D es root root') (section t fs)) h).0

  elements-AlikeElements :
      (root : ContextType) (es fs : Elements P D)
      → compare_elements P D root es fs ≡ []
      → AlikeElements P D root es fs
  elements-AlikeElements root es fs h n =
      Paired-AlikeEach P D root
        (find_comparators (Element P D) (name_of P D) n (comparators P D es root root))
        (of_name P D n es) (of_name P D n fs)
        (Tracks-find P D root n (comparators P D es root root) (listed P D es)
          (comparators-Tracks P D root es))
        (compare_all_elements-Paired (Element P D) (name_of P D) (type_text root)
          (comparators P D es root root) (listed P D fs) h n)

  AlikeElements-elements :
      (root : ContextType) (es fs : Elements P D)
      → AlikeElements P D root es fs
      → compare_elements P D root es fs ≡ []
  AlikeElements-elements root es fs each =
      Paired-compare_all_elements (Element P D) (name_of P D) (type_text root)
        (comparators P D es root root) (listed P D fs)
        (λ n.
          AlikeEach-Paired P D root
            (find_comparators (Element P D) (name_of P D) n (comparators P D es root root))
            (Tracks-find P D root n (comparators P D es root root) (listed P D es)
              (comparators-Tracks P D root es))
            (each n))

  compare-Alike :
      (l r : Context P D) → compare P D (some l) (some r) true ≡ (ok, none) → AlikeContexts P D l r
  compare-Alike (config es) (config fs) h =
      configs (elements-AlikeElements config_type es fs (report_nothing _ h))
  compare-Alike (mold ds es) (mold ts fs) h =
      let both =
        nothing_of (compare_documentation_queues P D ds ts) (compare_elements P D mold_type es fs)
          (report_nothing _ h) in
      molds (documentation-Each P D ds ts both.0) (elements-AlikeElements mold_type es fs both.1)
  compare-Alike (below root e) (below root' f) h =
      let nil = report_nothing _ h in
      let e_root : root ≡ root' = same_root e f root root' nil in
      subst (λ k. AlikeContexts P D (below root e) (below k f)) e_root
        (elements (
          element-Alike P D root e f
            (subst (λ k. compare_element P D e root k f ≡ []) (sym e_root) nil)))
  compare-Alike l r h = absurd (unsupported (guarded (head P D l) (head P D r) []) h)

  Alike-compare :
      {l r : Context P D} → AlikeContexts P D l r → compare P D (some l) (some r) true ≡ (ok, none)
  Alike-compare (configs {es} {fs} each) =
      ap (λ ds. compare_report (ok, ds)) (AlikeElements-elements config_type es fs each)
  Alike-compare (molds {ds} {ts} {es} {fs} documented each) =
      ap (λ k. compare_report (ok, k))
        (nothing_and (compare_documentation_queues P D ds ts) (compare_elements P D mold_type es fs)
          (Each-documentation P D ds ts documented) (AlikeElements-elements mold_type es fs each))
  Alike-compare (elements {root} {e} {f} a) =
      ap (λ ds. compare_report (ok, ds)) (Alike-element P D root e f a)

  -- Where the report is allocated, dc_compare answers with ok and without a report exactly if the
  -- contexts are two configs, two molds or two elements below roots of one type that are alike: of
  -- every name they have as many elements, which are alike one by one in their order, whatever
  -- stands between them. Keyvals are alike if their values compare as equal; in a mold, the
  -- documentation, the defaults and the first restriction of keyvals, and the documentation and the
  -- first restriction of sections, are alike as well.
  pub compare-AlikeContexts :
      (l r : Context P D)
      → (compare P D (some l) (some r) true ≡ (ok, none)) ↔ AlikeContexts P D l r
  compare-AlikeContexts l r = (compare-Alike l r, Alike-compare)
