-- ===== src/Tests/Comparisons.antt =====
-- Configs whose elements stand in another order, and what the comparison of a mold leaves out.
use disir_c.Prelude.{ℕ, ◌≡◌, refl, ◌↔◌, true, none, some, List, [], ◌∷◌, arith}
use disir_c.Prelude.Int.{ℤ, pos}
use disir_c.Status.{ok, conflict}
use disir_c.Value.{Value, integer}
use disir_c.Version.{version}
use disir_c.Restriction.{exc_value_range}
use disir_c.Compare.{
  Element, keyval, end, element, Context, config, mold, RestrictionEntry, Difference,
  different_value, not_in_lhs,
}
use disir_c.Compare.Queues.{
  compare_documentation_queues, compare_default_queues, compare_restriction_queue,
}
use disir_c.Compare.Loops.{compare_lhs, mark, compare_rhs}
use disir_c.Compare.Contexts.{compare, compare_element, comparators}
use disir_c.Compare.Alike.{AlikeContexts}
use disir_c.Compare.Whole.{compare-AlikeContexts}
use disir_c.Compare.Report.{Report, Granted, report_add}
use disir_c.Compare.Report.Grows.{Represents, Added, report_add-Added}
use disir_c.Tests.Values.{platform}
use disir_c.Tests.Restrictions.{doubles}

abbrev whole : ℤ → Value platform
whole n = record {
  dv_type = integer;
  dv_string = none;
  dv_boolean = 0;
  dv_float = pos 0;
  dv_integer = n;
  dv_size = 0;
}

abbrev range : ℤ → RestrictionEntry platform doubles
range high = record {
  re_introduced = version 1 0;
  re_deprecated = version 0 0;
  re_documentation_queue = [];
  re_type = exc_value_range;
  re_value_string = none;
  re_value_numeric = pos 0;
  re_value_min = pos 1;
  re_value_max = high;
}

abbrev item : ℕ → ℤ → List (RestrictionEntry platform doubles) → Element platform doubles
item c n rules = keyval (record {
  kv_name = c ∷ [];
  kv_value = whole n;
  kv_documentation_queue = [];
  kv_default_queue = [];
  kv_restrictions_queue = rules;
})

abbrev two : ℕ → ℤ → ℕ → ℤ → Context platform doubles
two a m b n = config (element (item a m []) (element (item b n []) end))

compare-AlikeContexts_example :
    (compare platform doubles
        (some (two 97 (pos 1) 98 (pos 2)))
        (some (two 98 (pos 2) 97 (pos 1)))
        true
      ≡ (ok, none))
    ↔ AlikeContexts platform doubles (two 97 (pos 1) 98 (pos 2)) (two 98 (pos 2) 97 (pos 1))
compare-AlikeContexts_example =
    compare-AlikeContexts platform doubles (two 97 (pos 1) 98 (pos 2)) (two 98 (pos 2) 97 (pos 1))

reordered :
    compare platform doubles
      (some (two 97 (pos 1) 98 (pos 2)))
      (some (two 98 (pos 2) 97 (pos 1)))
      true
    ≡ (ok, none)
unfolding compare_element comparators compare_lhs mark compare_rhs
reordered = refl

changed :
    compare platform doubles
      (some (two 97 (pos 1) 98 (pos 2)))
      (some (two 97 (pos 3) 99 (pos 2)))
      true
    ≡ (
      conflict,
      some (
          different_value (97 ∷ []) (97 ∷ [])
          ∷ Difference.not_found (67 ∷ 79 ∷ 78 ∷ 70 ∷ 73 ∷ 71 ∷ [])
          ∷ not_in_lhs (99 ∷ [])
          ∷ []),
    )
unfolding compare_element comparators compare_lhs mark compare_rhs
changed = refl

-- Molds that differ in a second restriction only compare as equal.
unseen :
    compare platform doubles
      (some (mold [] (element (item 97 (pos 0) (range (pos 5) ∷ range (pos 6) ∷ [])) end)))
      (some (mold [] (element (item 97 (pos 0) (range (pos 5) ∷ range (pos 9) ∷ [])) end)))
      true
    ≡ (ok, none)
unfolding compare_element comparators compare_lhs mark compare_rhs compare_documentation_queues
    compare_default_queues compare_restriction_queue
unseen = refl

abbrev full_report : Report
full_report = record {
  dr_internal_allocated = 1;
  dr_entries = 1;
  dr_diff_string = some (97 ∷ []) ∷ [];
}

full_report-Represents : Represents full_report ((97 ∷ []) ∷ [])
full_report-Represents = record {
  rest = [];
  stored = refl;
  counted = refl;
  backed = refl;
  started = omega arith;
}

abbrev granted : Granted
granted = record { array = true; text = true; longer = true }

report_add-Added_example :
    Added (report_add 2 granted (some (98 ∷ [])) full_report) ((97 ∷ []) ∷ []) (some (98 ∷ []))
report_add-Added_example =
    report_add-Added full_report ((97 ∷ []) ∷ []) granted (some (98 ∷ [])) full_report-Represents
