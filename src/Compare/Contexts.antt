-- ===== src/Compare/Contexts.antt =====
-- diff_compare_contexts_with_report and dc_compare of lib/compare.c.
use disir_c.Prelude.{
  ℕ, Bool, true, false, not, List, [], ◌∷◌, ◌++◌, ◌==◌, if◌then◌else◌, Option, none, some,
}
use disir_c.Status.{Status, ok, invalid_argument, no_memory, conflict, not_supported, is_ok}
use disir_c.Value.{Platform, ValueType, type_number, unknown}
use disir_c.Restriction.{Doubles}
use disir_c.Context.{
  ContextType, config_type, mold_type, section_type, keyval_type, documentation_type, default_type,
  restriction_type, unknown_type, context_number,
}
use disir_c.Compare.{
  Difference, different_root, different_type, different_value_type, different_value, Keyval,
  Section, Element, Elements, keyval, section, end, element, Context, config, mold, below, other,
  name_of,
}
use disir_c.Compare.Queues.{
  values_differ, compare_documentation_queues, compare_default_queues, compare_restriction_queue,
}
use disir_c.Compare.Loops.{Comparator, compare_all_elements}

-- dc_context_type_string
abbrev pub type_text : ContextType → List ℕ
type_text config_type = 67 ∷ 79 ∷ 78 ∷ 70 ∷ 73 ∷ 71 ∷ []
type_text mold_type = 77 ∷ 79 ∷ 76 ∷ 68 ∷ []
type_text section_type = 83 ∷ 69 ∷ 67 ∷ 84 ∷ 73 ∷ 79 ∷ 78 ∷ []
type_text keyval_type = 75 ∷ 69 ∷ 89 ∷ 86 ∷ 65 ∷ 76 ∷ []
type_text documentation_type = 68 ∷ 79 ∷ 67 ∷ 85 ∷ 77 ∷ 69 ∷ 78 ∷ 84 ∷ 65 ∷ 84 ∷ 73 ∷ 79 ∷ 78 ∷ []
type_text default_type = 68 ∷ 69 ∷ 70 ∷ 65 ∷ 85 ∷ 76 ∷ 84 ∷ []
type_text restriction_type = 82 ∷ 69 ∷ 83 ∷ 84 ∷ 82 ∷ 73 ∷ 67 ∷ 84 ∷ 73 ∷ 79 ∷ 78 ∷ []
type_text unknown_type = 85 ∷ 78 ∷ 75 ∷ 78 ∷ 79 ∷ 87 ∷ 78 ∷ []

-- What a comparison reads of a context before the switch: cx_root_context->cx_type, cx_type,
-- dc_value_type and dx_context_name.
pub record Head : Type 0 where
  pub root : ContextType
  pub kind : ContextType
  pub value_type : ValueType
  pub name : List ℕ

-- The three tests before the switch; `body` is what the switch adds.
abbrev pub guarded : Head → Head → List Difference → List Difference
guarded l r body =
    if not (context_number l.root == context_number r.root)
    then different_root l.name l.root r.name r.root ∷ []
    else if not (context_number l.kind == context_number r.kind)
    then different_type l.name l.kind r.name r.kind ∷ []
    else if not (type_number l.value_type == type_number r.value_type)
    then different_value_type l.name l.value_type r.name r.value_type ∷ []
    else body

abbrev pub is_mold : ContextType → Bool
is_mold mold_type = true
is_mold _ = false

-- Behind the tests, the switch is reached only where they report nothing.
abbrev pub unless_stopped : List Difference → Status × List Difference → Status × List Difference
unless_stopped [] body = body
unless_stopped (d ∷ ds) body = (ok, d ∷ ds)

-- The end of dc_compare: the status, and what *report is set to.
abbrev pub compare_report : Status × List Difference → Status × Option (List Difference)
compare_report (s, []) = (s, none)
compare_report (s, d ∷ ds) = (if is_ok s then conflict else s, some (d ∷ ds))

module _ (P : Platform) (D : Doubles) where
  abbrev pub element_head : ContextType → Element P D → Head
  element_head root (keyval k) = record {
    root = root;
    kind = keyval_type;
    value_type = k.kv_value.dv_type;
    name = k.kv_name;
  }
  element_head root (section s es) = record {
    root = root;
    kind = section_type;
    value_type = unknown;
    name = s.se_name;
  }

  abbrev pub listed : Elements P D → List (Element P D)
  listed end = []
  listed (element e es) = e ∷ listed es

  -- The case KEYVAL of the switch.
  abbrev pub compare_keyvals : ContextType → Keyval P D → Keyval P D → List Difference
  compare_keyvals root k j =
      (if values_differ P k.kv_value j.kv_value
        then different_value k.kv_name j.kv_name ∷ []
        else [])
      ++ (if is_mold root
          then compare_documentation_queues P D k.kv_documentation_queue j.kv_documentation_queue
            ++ (compare_default_queues P D k.kv_default_queue j.kv_default_queue
                ++ compare_restriction_queue P D k.kv_restrictions_queue j.kv_restrictions_queue)
          else [])

  -- The case SECTION, in front of the elements.
  abbrev pub compare_sections : ContextType → Section P D → Section P D → List Difference
  compare_sections root s t =
      if is_mold root
      then compare_documentation_queues P D s.se_documentation_queue t.se_documentation_queue
        ++ compare_restriction_queue P D s.se_restrictions_queue t.se_restrictions_queue
      else []

  -- The switch on an element of the right side, which the tests have found to be of the same type.
  abbrev pub against_keyval : ContextType → Keyval P D → Element P D → List Difference
  against_keyval root k (keyval j) = compare_keyvals root k j
  against_keyval root k (section t fs) = []

  abbrev pub against_section :
      ContextType
      → Section P D
      → List (Comparator (Element P D) (name_of P D))
      → Element P D
      → List Difference
  against_section root s cs (keyval j) = []
  against_section root s cs (section t fs) =
      compare_sections root s t
      ++ compare_all_elements (Element P D) (name_of P D) s.se_name cs (listed fs)

  unfoldable mutual
    -- diff_compare_contexts_with_report on two elements, whose roots have these types
    pub compare_element : Element P D → ContextType → ContextType → Element P D → List Difference
    compare_element (keyval k) lroot rroot e =
        guarded (element_head lroot (keyval k)) (element_head rroot e) (against_keyval lroot k e)
    compare_element (section s es) lroot rroot e =
        guarded (element_head lroot (section s es)) (element_head rroot e)
          (against_section lroot s (comparators es lroot rroot) e)

    pub comparators :
        Elements P D → ContextType → ContextType → List (Comparator (Element P D) (name_of P D))
    comparators end lroot rroot = []
    comparators (element e es) lroot rroot =
        record { name = name_of P D e; against = compare_element e lroot rroot }
        ∷ comparators es lroot rroot

  abbrev pub head : Context P D → Head
  head (config es) = record {
    root = config_type;
    kind = config_type;
    value_type = unknown;
    name = type_text config_type;
  }
  head (mold ds es) = record {
    root = mold_type;
    kind = mold_type;
    value_type = unknown;
    name = type_text mold_type;
  }
  head (below root e) = element_head root e
  head (other root kind value_type) = record {
    root = root;
    kind = kind;
    value_type = value_type;
    name = type_text kind;
  }

  -- The elements of a config or a mold on both sides
  abbrev pub compare_elements : ContextType → Elements P D → Elements P D → List Difference
  compare_elements root es fs =
      compare_all_elements (Element P D) (name_of P D) (type_text root) (comparators es root root)
        (listed fs)

  -- The switch; behind the tests both sides are of the same type.
  abbrev pub compare_bodies : Context P D → Context P D → Status × List Difference
  compare_bodies (config es) (config fs) = (ok, compare_elements config_type es fs)
  compare_bodies (mold ds es) (mold ts fs) =
      (ok, compare_documentation_queues P D ds ts ++ compare_elements mold_type es fs)
  compare_bodies l r = (not_supported, [])

  -- diff_compare_contexts_with_report
  abbrev pub compare_contexts : Context P D → Context P D → Status × List Difference
  compare_contexts (below root e) (below root' f) = (ok, compare_element e root root' f)
  compare_contexts l r = unless_stopped (guarded (head l) (head r) []) (compare_bodies l r)

  -- dc_compare; a context may be NULL, and `created` says that the report is allocated.
  abbrev pub compare :
      Option (Context P D) → Option (Context P D) → Bool → Status × Option (List Difference)
  compare none r created = (invalid_argument, none)
  compare (some l) none created = (invalid_argument, none)
  compare (some l) (some r) false = (no_memory, none)
  compare (some l) (some r) true = compare_report (compare_contexts l r)
