-- ===== src/Compare/Each.antt =====
-- The loops of lib/compare.c report nothing exactly if every name has the same elements on both sides.
use disir_c.Prelude.{
  ℕ, ◌≡◌, ◌≢◌, refl, ap, sym, ◌∙◌, true, false, ◌||◌, List, [], ◌∷◌, ◌++◌, arith, Bool-cases, inl,
  inr, if◌then◌else◌,
}
use disir_c.Restriction.Exclusive.{same_text}
use disir_c.Restriction.Texts.{same_text-eq, same_text_refl}
use disir_c.Compare.{Difference}
use disir_c.Compare.Loops.{
  Comparator, contains, find_comparators, find_elements, compare_entries, compare_found,
  compare_all_in_name, compare_lhs, mark, compare_rhs, compare_all_elements,
}

-- Nothing is added to the report by either part.
pub nothing_of : (ds es : List Difference) → ds ++ es ≡ [] → (ds ≡ []) × (es ≡ [])
nothing_of [] es h = (refl, h)
nothing_of (d ∷ ds) es h = cc

pub nothing_and : (ds es : List Difference) → ds ≡ [] → es ≡ [] → ds ++ es ≡ []
nothing_and ds es h k = cc

contains-insert :
    (n m : List ℕ) (h : List (List ℕ))
    → contains n (if contains m h then h else m ∷ h) ≡ (same_text n m || contains n h)
contains-insert n m h = elim (Bool-cases (same_text n m)) [
  | inl same ↦
      let e : n ≡ m = same_text-eq n m same in
      ground (arith, same_text_refl m, ap (λ k. contains k h) e)
  | inr other ↦ ground arith
]

module _ (E : Type 0) (name_of : E → List ℕ) where
  abbrev names : List (Comparator E name_of) → List (List ℕ)
  names [] = []
  names (c ∷ cs) = c.name ∷ names cs

  -- The comparisons find the entries alike one by one.
  abbrev pub Paired : List (Comparator E name_of) → List E → Type 0
  Paired [] [] = Unit
  Paired [] (e ∷ es) = ⊥
  Paired (c ∷ cs) [] = ⊥
  Paired (c ∷ cs) (e ∷ es) = (c.against e ≡ []) × Paired cs es

  entries-Paired :
      (who : List ℕ) (cs : List (Comparator E name_of)) (es : List E)
      → compare_entries E name_of who cs es ≡ []
      → Paired cs es
  entries-Paired who [] [] h = tt
  entries-Paired who [] (e ∷ es) h = cc
  entries-Paired who (c ∷ cs) [] h = cc
  entries-Paired who (c ∷ cs) (e ∷ es) h =
      let both = nothing_of (c.against e) (compare_entries E name_of who cs es) h in
      (both.0, entries-Paired who cs es both.1)

  Paired-entries :
      (who : List ℕ) (cs : List (Comparator E name_of)) (es : List E)
      → Paired cs es
      → compare_entries E name_of who cs es ≡ []
  Paired-entries who [] [] p = refl
  Paired-entries who [] (e ∷ es) p = absurd p
  Paired-entries who (c ∷ cs) [] p = absurd p
  Paired-entries who (c ∷ cs) (e ∷ es) p =
      nothing_and (c.against e) (compare_entries E name_of who cs es) p.0
        (Paired-entries who cs es p.1)

  contains-mark :
      (n : List ℕ) (h : List (List ℕ)) (cs : List (Comparator E name_of))
      → contains n (mark E name_of h cs) ≡ (contains n h || contains n (names cs))
  unfolding mark
  contains-mark n h [] = ground arith
  contains-mark n h (c ∷ cs) = ground (
    arith,
    contains-mark n (if contains c.name h then h else c.name ∷ h) cs,
    contains-insert n c.name h,
  )

  absent_comparators :
      (n : List ℕ) (cs : List (Comparator E name_of))
      → contains n (names cs) ≡ false
      → find_comparators E name_of n cs ≡ []
  absent_comparators n [] h = refl
  absent_comparators n (c ∷ cs) h = ground (arith, absent_comparators n cs)

  present_comparators :
      (n : List ℕ) (cs : List (Comparator E name_of)) (es : List E)
      → contains n (names cs) ≡ true
      → Paired (find_comparators E name_of n cs) es
      → es ≢ []
  present_comparators n [] es h p = absurd cc
  present_comparators n (c ∷ cs) [] h p = elim (Bool-cases (same_text n c.name)) [
    | inl same ↦ absurd (rw same at p)
    | inr other ↦ present_comparators n cs [] (ground arith) (rw other at p)
  ]
  present_comparators n (c ∷ cs) (e ∷ es) h p = cc

  none-Paired : (n : List ℕ) (es : List E) → Paired [] es → es ≡ []
  none-Paired n [] p = refl
  none-Paired n (e ∷ es) p = absurd p

  found-Paired :
      (who : List ℕ) (cs : List (Comparator E name_of)) (es : List E)
      → compare_found E name_of who cs es ≡ []
      → Paired cs es
  found-Paired who cs [] h = cc
  found-Paired who cs (e ∷ es) h = entries-Paired who cs (e ∷ es) h

  Paired-found :
      (who : List ℕ) (cs : List (Comparator E name_of)) (es : List E)
      → es ≢ []
      → Paired cs es
      → compare_found E name_of who cs es ≡ []
  Paired-found who cs [] some_e p = absurd (some_e refl)
  Paired-found who cs (e ∷ es) some_e p = Paired-entries who cs (e ∷ es) p

  compare_lhs-found :
      (who : List ℕ) (all : List (Comparator E name_of)) (es : List E) (h : List (List ℕ))
      → (cs : List (Comparator E name_of)) → compare_lhs E name_of who all es h cs ≡ []
      → (n : List ℕ) → contains n h ≡ false
      → contains n (names cs) ≡ true
      → compare_all_in_name E name_of who all es n ≡ []
  unfolding compare_lhs
  compare_lhs-found who all es h [] nil n out here = absurd cc
  compare_lhs-found who all es h (c ∷ cs) nil n out here = elim (Bool-cases (contains c.name h)) [
    | inl old ↦ elim (Bool-cases (same_text n c.name)) [
      | inl same ↦
          let e : n ≡ c.name = same_text-eq n c.name same in absurd (cc (ap (λ k. contains k h) e))
      | inr other ↦ compare_lhs-found who all es h cs (rw old at nil) n out (ground arith)
    ]
    | inr new ↦
        let both =
          nothing_of (compare_all_in_name E name_of who all es c.name)
            (compare_lhs E name_of who all es (c.name ∷ h) cs) (rw new at nil) in
        elim (Bool-cases (same_text n c.name)) [
          | inl same ↦
              ap (compare_all_in_name E name_of who all es) (same_text-eq n c.name same) ∙ both.0
          | inr other ↦
              compare_lhs-found who all es (c.name ∷ h) cs both.1 n (ground arith) (ground arith)
        ]
  ]

  found-compare_lhs :
      (who : List ℕ) (all : List (Comparator E name_of)) (es : List E) (h : List (List ℕ))
      → (cs : List (Comparator E name_of))
      → ((n : List ℕ)
          → contains n (names cs) ≡ true
          → compare_all_in_name E name_of who all es n ≡ [])
      → compare_lhs E name_of who all es h cs ≡ []
  unfolding compare_lhs
  found-compare_lhs who all es h [] ok = refl
  found-compare_lhs who all es h (c ∷ cs) ok =
      let later = λ (n : List ℕ) (k : contains n (names cs) ≡ true). ok n (ground arith) in
      elim (Bool-cases (contains c.name h)) [
        | inl old ↦ rw old (found-compare_lhs who all es h cs later)
        | inr new ↦ rw new (
            nothing_and (compare_all_in_name E name_of who all es c.name)
              (compare_lhs E name_of who all es (c.name ∷ h) cs)
              (ok c.name (ground (arith, same_text_refl c.name)))
              (found-compare_lhs who all es (c.name ∷ h) cs later))
      ]

  compare_rhs-absent :
      (h : List (List ℕ)) (es : List E)
      → compare_rhs E name_of h es ≡ []
      → (n : List ℕ) → contains n h ≡ false
      → find_elements E name_of n es ≡ []
  unfolding compare_rhs
  compare_rhs-absent h [] nil n out = refl
  compare_rhs-absent h (e ∷ es) nil n out = elim (Bool-cases (contains (name_of e) h)) [
    | inl old ↦ elim (Bool-cases (same_text n (name_of e))) [
      | inl same ↦ cc (ap (λ k. contains k h) (same_text-eq n (name_of e) same))
      | inr other ↦ rw other (compare_rhs-absent h es (rw old at nil) n out)
    ]
    | inr new ↦ cc
  ]

  absent-compare_rhs :
      (h : List (List ℕ)) (es : List E)
      → ((n : List ℕ) → contains n h ≡ false → find_elements E name_of n es ≡ [])
      → compare_rhs E name_of h es ≡ []
  unfolding compare_rhs
  absent-compare_rhs h [] ok = refl
  absent-compare_rhs h (e ∷ es) ok = elim (Bool-cases (contains (name_of e) h)) [
    | inl old ↦ rw old (absent-compare_rhs h es (λ n out. ground (arith, ok n out)))
    | inr new ↦ ground (arith, ok (name_of e) new, same_text_refl (name_of e))
  ]

  -- The two loops add nothing to the report exactly if the elements of each name are paired.
  pub compare_all_elements-Paired :
      (who : List ℕ) (cs : List (Comparator E name_of)) (es : List E)
      → compare_all_elements E name_of who cs es ≡ []
      → (n : List ℕ) → Paired (find_comparators E name_of n cs) (find_elements E name_of n es)
  compare_all_elements-Paired who cs es nil n =
      let both =
        nothing_of (compare_lhs E name_of who cs es [] cs)
          (compare_rhs E name_of (mark E name_of [] cs) es) nil in
      elim (Bool-cases (contains n (names cs))) [
        | inl here ↦
            found-Paired who (find_comparators E name_of n cs) (find_elements E name_of n es)
              (compare_lhs-found who cs es [] cs both.0 n refl here)
        | inr out ↦ rw (absent_comparators n cs out) (
            rw (compare_rhs-absent (mark E name_of [] cs) es both.1 n (contains-mark n [] cs ∙ out))
              tt)
      ]

  pub Paired-compare_all_elements :
      (who : List ℕ) (cs : List (Comparator E name_of)) (es : List E)
      → ((n : List ℕ) → Paired (find_comparators E name_of n cs) (find_elements E name_of n es))
      → compare_all_elements E name_of who cs es ≡ []
  Paired-compare_all_elements who cs es paired =
      nothing_and (compare_lhs E name_of who cs es [] cs)
        (compare_rhs E name_of (mark E name_of [] cs) es)
        (found-compare_lhs who cs es [] cs (λ n here.
          Paired-found who (find_comparators E name_of n cs) (find_elements E name_of n es)
            (present_comparators n cs (find_elements E name_of n es) here (paired n)) (paired n)))
        (absent-compare_rhs (mark E name_of [] cs) es (λ n out.
          none-Paired n (find_elements E name_of n es)
            (rw (absent_comparators n cs (sym (contains-mark n [] cs) ∙ out)) at (paired n))))
