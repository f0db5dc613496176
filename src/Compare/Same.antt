-- ===== src/Compare/Same.antt =====
-- The cases KEYVAL and SECTION of diff_compare_contexts_with_report in lib/compare.c, without the
-- elements: they report nothing exactly if the two sides are alike.
use disir_c.Prelude.{◌≡◌, refl, [], ◌∷◌, ◌++◌, arith, if◌then◌else◌}
use disir_c.Value.{Platform, value_compare}
use disir_c.Restriction.{Doubles}
use disir_c.Context.{ContextType, mold_type}
use disir_c.Compare.{Keyval, Section, different_value}
use disir_c.Compare.Queues.{
  values_differ, compare_documentation_queues, compare_default_queues, compare_restriction_queue,
}
use disir_c.Compare.Contexts.{compare_keyvals, compare_sections}
use disir_c.Compare.Each.{nothing_of, nothing_and}
use disir_c.Compare.Agree.{
  eqb-zero, zero-eqb, documentation-Each, Each-documentation, default-Each, Each-default,
  restriction-First, First-restriction,
}
use disir_c.Compare.Alike.{SameKeyval, SameSection}

module _ (P : Platform) (D : Doubles) where
  pub keyvals-Same :
      (root : ContextType) (k j : Keyval P D)
      → compare_keyvals P D root k j ≡ []
      → SameKeyval P D root k j
  keyvals-Same mold_type k j h =
      let outer =
        nothing_of
          (if values_differ P k.kv_value j.kv_value
            then different_value k.kv_name j.kv_name ∷ []
            else [])
          (compare_documentation_queues P D k.kv_documentation_queue j.kv_documentation_queue
            ++ (compare_default_queues P D k.kv_default_queue j.kv_default_queue
                ++ compare_restriction_queue P D k.kv_restrictions_queue j.kv_restrictions_queue))
          h in
      let inner =
        nothing_of
          (compare_documentation_queues P D k.kv_documentation_queue j.kv_documentation_queue)
          (compare_default_queues P D k.kv_default_queue j.kv_default_queue
            ++ compare_restriction_queue P D k.kv_restrictions_queue j.kv_restrictions_queue)
          outer.1 in
      let last =
        nothing_of (compare_default_queues P D k.kv_default_queue j.kv_default_queue)
          (compare_restriction_queue P D k.kv_restrictions_queue j.kv_restrictions_queue) inner.1 in
      record {
        value = eqb-zero (value_compare P k.kv_value j.kv_value) (ground (arith, outer.0));
        documented =
            documentation-Each P D k.kv_documentation_queue j.kv_documentation_queue inner.0;
        defaults = default-Each P D k.kv_default_queue j.kv_default_queue last.0;
        restricted = restriction-First P D k.kv_restrictions_queue j.kv_restrictions_queue last.1;
      }
  keyvals-Same _ k j h = record {
    value = eqb-zero (value_compare P k.kv_value j.kv_value) (ground arith);
    documented = tt;
    defaults = tt;
    restricted = tt;
  }

  pub Same-keyvals :
      (root : ContextType) (k j : Keyval P D)
      → SameKeyval P D root k j
      → compare_keyvals P D root k j ≡ []
  Same-keyvals mold_type k j s = rw (zero-eqb (value_compare P k.kv_value j.kv_value) s.value) (
      nothing_and
        (compare_documentation_queues P D k.kv_documentation_queue j.kv_documentation_queue)
        (compare_default_queues P D k.kv_default_queue j.kv_default_queue
          ++ compare_restriction_queue P D k.kv_restrictions_queue j.kv_restrictions_queue)
        (Each-documentation P D k.kv_documentation_queue j.kv_documentation_queue s.documented)
        (nothing_and (compare_default_queues P D k.kv_default_queue j.kv_default_queue)
          (compare_restriction_queue P D k.kv_restrictions_queue j.kv_restrictions_queue)
          (Each-default P D k.kv_default_queue j.kv_default_queue s.defaults)
          (First-restriction P D k.kv_restrictions_queue j.kv_restrictions_queue s.restricted)))
  Same-keyvals _ k j s = rw (zero-eqb (value_compare P k.kv_value j.kv_value) s.value)

  pub sections-Same :
      (root : ContextType) (s t : Section P D)
      → compare_sections P D root s t ≡ []
      → SameSection P D root s t
  sections-Same mold_type s t h =
      let both =
        nothing_of
          (compare_documentation_queues P D s.se_documentation_queue t.se_documentation_queue)
          (compare_restriction_queue P D s.se_restrictions_queue t.se_restrictions_queue) h in
      record {
        documented =
            documentation-Each P D s.se_documentation_queue t.se_documentation_queue both.0;
        restricted = restriction-First P D s.se_restrictions_queue t.se_restrictions_queue both.1;
      }
  sections-Same _ s t h = record { documented = tt; restricted = tt }

  pub Same-sections :
      (root : ContextType) (s t : Section P D)
      → SameSection P D root s t
      → compare_sections P D root s t ≡ []
  Same-sections mold_type s t h =
      nothing_and
        (compare_documentation_queues P D s.se_documentation_queue t.se_documentation_queue)
        (compare_restriction_queue P D s.se_restrictions_queue t.se_restrictions_queue)
        (Each-documentation P D s.se_documentation_queue t.se_documentation_queue h.documented)
        (First-restriction P D s.se_restrictions_queue t.se_restrictions_queue h.restricted)
  Same-sections _ s t h = refl
