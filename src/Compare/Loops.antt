-- ===== src/Compare/Loops.antt =====
-- compare_all_in_name and compare_all_elements of lib/compare.c. An element of the left side is given
-- by its name and its comparison, diff_compare_contexts_with_report with it on the left. The
-- statuses on the way are DISIR_STATUS_OK; `who` is the name of the left side.
use disir_c.Prelude.{ℕ, Bool, false, ◌||◌, List, [], ◌∷◌, ◌++◌, if◌then◌else◌}
use disir_c.Restriction.Exclusive.{same_text}
use disir_c.Compare.{Difference, not_found, extra_entry, missing_entry, not_in_lhs}

-- multimap_contains_key on the names that were handled
abbrev pub contains : List ℕ → List (List ℕ) → Bool
contains n [] = false
contains n (m ∷ ms) = same_text n m || contains n ms

module _ (E : Type 0) (name_of : E → List ℕ) where
  pub record Comparator : Type 0 where
    pub name : List ℕ
    pub against : E → List Difference

  -- dc_find_elements on each side
  abbrev pub find_comparators : List ℕ → List Comparator → List Comparator
  find_comparators n [] = []
  find_comparators n (c ∷ cs) =
      if same_text n c.name then c ∷ find_comparators n cs else find_comparators n cs

  abbrev pub find_elements : List ℕ → List E → List E
  find_elements n [] = []
  find_elements n (e ∷ es) =
      if same_text n (name_of e) then e ∷ find_elements n es else find_elements n es

  -- The two loops over the collections of a name.
  abbrev pub compare_entries : List ℕ → List Comparator → List E → List Difference
  compare_entries who [] [] = []
  compare_entries who [] (e ∷ es) = missing_entry who ∷ compare_entries who [] es
  compare_entries who (c ∷ cs) [] = extra_entry who ∷ compare_entries who cs []
  compare_entries who (c ∷ cs) (e ∷ es) = c.against e ++ compare_entries who cs es

  -- NOT_EXIST of dc_find_elements on the right side
  abbrev pub compare_found : List ℕ → List Comparator → List E → List Difference
  compare_found who cs [] = not_found who ∷ []
  compare_found who cs (e ∷ es) = compare_entries who cs (e ∷ es)

  abbrev pub compare_all_in_name : List ℕ → List Comparator → List E → List ℕ → List Difference
  compare_all_in_name who cs es n = compare_found who (find_comparators n cs) (find_elements n es)

  -- The first loop of compare_all_elements, with the names in the map and the elements that are left.
  unfoldable pub compare_lhs :
      List ℕ → List Comparator → List E → List (List ℕ) → List Comparator → List Difference
  compare_lhs who cs es handled [] = []
  compare_lhs who cs es handled (c ∷ left) =
      if contains c.name handled
      then compare_lhs who cs es handled left
      else compare_all_in_name who cs es c.name ++ compare_lhs who cs es (c.name ∷ handled) left

  -- The names in the map behind the first loop.
  unfoldable pub mark : List (List ℕ) → List Comparator → List (List ℕ)
  mark handled [] = handled
  mark handled (c ∷ left) =
      mark (if contains c.name handled then handled else c.name ∷ handled) left

  -- The second loop.
  unfoldable pub compare_rhs : List (List ℕ) → List E → List Difference
  compare_rhs handled [] = []
  compare_rhs handled (e ∷ es) =
      if contains (name_of e) handled
      then compare_rhs handled es
      else not_in_lhs (name_of e) ∷ compare_rhs handled es

  -- compare_all_elements
  abbrev pub compare_all_elements : List ℕ → List Comparator → List E → List Difference
  compare_all_elements who cs es = compare_lhs who cs es [] cs ++ compare_rhs (mark [] cs) es
