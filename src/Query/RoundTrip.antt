-- ===== src/Query/RoundTrip.antt =====
-- query_resolve_name_to_context of lib/query.c on the written path of a context.
use disir_c.Prelude.{
  ℕ, zero, suc, ◌<◌, ◌≤◌, ◌≡◌, refl, ap, sym, ◌∙◌, Bool, true, false, ◌&&◌, Option, none, some,
  List, [], ◌∷◌, ◌++◌, ltb, length, get_elem?, inl, inr, ◌⊎◌, Bool-cases, Option-cases, arith,
}
use disir_c.Prelude.Int.{pos}
use disir_c.Status.{Status, ok, is_ok}
use disir_c.Query.{
  Resolved, Context, leaf, branch, named, pick, find_element, descend, resolve_name,
  resolve_to_context,
}
use mathlib.Core.Path.{subst}
use disir_c.Query.Component.{is_key, component, behind, resolve_name-Reads}

-- The path of components, with their indices.
abbrev pub path_text : List ℕ × ℕ → List (List ℕ × ℕ) → List ℕ
path_text (name, i) [] = component name i ++ behind none
path_text (name, i) (p ∷ ps) = component name i ++ behind (some (path_text p ps))

-- The element with the name that stands at the index among those with the name.
abbrev pub element_at : Context → List ℕ → ℕ → Option Context
element_at (leaf a) name i = none
element_at (branch a es) name i = get_elem? (named name es) i

-- The context that the path leads to.
abbrev pub walk : Context → List ℕ × ℕ → List (List ℕ × ℕ) → Option Context
walk c (name, i) [] = element_at c name i
walk c (name, i) (p ∷ ps) = elim (element_at c name i) [ none ↦ none | some d ↦ walk d p ps ]

-- Each name can stand in a path, and each index is an int.
abbrev pub is_path : List ℕ × ℕ → List (List ℕ × ℕ) → Bool
is_path (name, i) [] = is_key name && ltb i 2147483648
is_path (name, i) (p ∷ ps) = (is_key name && ltb i 2147483648) && is_path p ps

abbrev pub is_present {ℓ} : {A : Type ℓ} → Option A → Bool
is_present none = false
is_present (some a) = true

-- The context and a status that is OK exactly where there is one.
pub record Answers (c : Option Context) (answer : Option (Status × Option Context)) : Type 0 where
  pub status : Status
  pub answered : answer ≡ some (status, c)
  pub exact : is_ok status ≡ is_present c

get_elem?-past : (cs : List Context) (i : ℕ) → length cs ≤ i → get_elem? cs i ≡ none
get_elem?-past [] i h = refl
get_elem?-past (c ∷ cs) zero h = absurd (omega (arith, h))
get_elem?-past (c ∷ cs) (suc i) h = get_elem?-past cs i (omega (arith, h))

get_elem?-present : (cs : List Context) (i : ℕ) → i < length cs → is_present (get_elem? cs i) ≡ true
get_elem?-present [] i h = absurd (omega (arith, h))
get_elem?-present (c ∷ cs) zero h = refl
get_elem?-present (c ∷ cs) (suc i) h = get_elem?-present cs i (omega (arith, h))

pick-get_elem? : (cs : List Context) (i : ℕ) → (pick cs i).1 ≡ get_elem? cs i
pick-get_elem? [] i = refl
pick-get_elem? (c ∷ cs) i = elim (Bool-cases (ltb (length cs) i)) [
  | inl e ↦
      let past : length (c ∷ cs) ≤ i = ground (arith, e) in
      rw e (sym (get_elem?-past (c ∷ cs) i past))
  | inr e ↦ rw e refl
]

pick-is_ok : (cs : List Context) (i : ℕ) → is_ok (pick cs i).0 ≡ is_present (get_elem? cs i)
pick-is_ok [] i = refl
pick-is_ok (c ∷ cs) i = elim (Bool-cases (ltb (length cs) i)) [
  | inl e ↦
      let past : length (c ∷ cs) ≤ i = ground (arith, e) in
      rw (e, get_elem?-past (c ∷ cs) i past) refl
  | inr e ↦
      let inside : i < length (c ∷ cs) = ground (arith, e) in
      rw (e, get_elem?-present (c ∷ cs) i inside) refl
]

find_element-element_at :
    (c : Context) (name : List ℕ) (i : ℕ) → (find_element c name (pos i)).1 ≡ element_at c name i
find_element-element_at (leaf a) name i = refl
find_element-element_at (branch a es) name i = pick-get_elem? (named name es) i

find_element-is_ok :
    (c : Context) (name : List ℕ) (i : ℕ)
    → is_ok (find_element c name (pos i)).0 ≡ is_present (element_at c name i)
find_element-is_ok (leaf a) name i = refl
find_element-is_ok (branch a es) name i = pick-is_ok (named name es) i

module _ (below : Context → List ℕ → List ℕ → Option (Status × Option Context)) where
  descend-found :
      (c : Context) (r : Resolved) (name : List ℕ) (i : ℕ)
      → r.status ≡ ok
      → r.name ≡ name
      → r.index ≡ pos i
      → (element_at c name i ≡ none) ⊎ (r.next ≡ none)
      → descend below c r ≡ some (find_element c name (pos i))
  descend-found c r name i e en ei h =
      ground (arith, e, en, ei, h, find_element-element_at c name i)

  descend-below :
      (c d : Context) (r : Resolved) (name : List ℕ) (i : ℕ) (t : List ℕ)
      → r.status ≡ ok
      → r.name ≡ name
      → r.index ≡ pos i
      → element_at c name i ≡ some d
      → r.next ≡ some t
      → descend below c r ≡ below d t r.resolved
  descend-below c d r name i t e en ei h et =
      ground (arith, e, en, ei, h, et, find_element-element_at c name i)

-- What dc_find_element answers, as the result of the whole resolution.
found_Answers :
    (c : Context) (name : List ℕ) (i : ℕ) (e : Option Context)
    → element_at c name i ≡ e
    → Answers e (some (find_element c name (pos i)))
found_Answers c name i e h = record {
  status = (find_element c name (pos i)).0;
  answered =
      ap (λ o. some ((find_element c name (pos i)).0, o)) (find_element-element_at c name i ∙ h);
  exact = find_element-is_ok c name i ∙ ap is_present h;
}

walk-step :
    (c : Context) (name : List ℕ) (i : ℕ) (p : List ℕ × ℕ) (ps : List (List ℕ × ℕ))
    (e : Option Context)
    → element_at c name i ≡ e
    → walk c (name, i) (p ∷ ps) ≡ elim e [ none ↦ none | some d ↦ walk d p ps ]
walk-step c name i p ps none h = ground (arith, h)
walk-step c name i p ps (some d) h = ground (arith, h)

Answers-moves :
    (a b : Option Context) (r s : Option (Status × Option Context))
    → a ≡ b
    → r ≡ s
    → Answers b s
    → Answers a r
Answers-moves a b r s e f h = subst (λ o. Answers o r) (sym e) (subst (Answers b) (sym f) h)

-- The written path of a context resolves to it, and one that leads to no context resolves to none with
-- a status other than OK; each name has characters, none of them a separator, and each index is an int.
pub resolve_to_context-Answers :
    (c : Context) (p : List ℕ × ℕ) (ps : List (List ℕ × ℕ)) (resolved : List ℕ)
    → is_path p ps ≡ true
    → Answers (walk c p ps) (resolve_to_context (suc (length ps)) c (path_text p ps) resolved)
unfolding resolve_to_context
resolve_to_context-Answers c (name, i) [] resolved h =
    let r = resolve_name-Reads name i none resolved (ground (arith, h)) (ground (arith, h)) in
    subst (Answers (element_at c name i))
      (sym (
        descend-found (resolve_to_context zero) c
          (resolve_name (component name i ++ behind none) resolved) name i r.resolves r.same_name
          r.same_index (inr r.same_next)))
      (found_Answers c name i (element_at c name i) refl)
resolve_to_context-Answers c (name, i) (p ∷ ps) resolved h =
    let rest : List ℕ = path_text p ps in
    let read : Resolved = resolve_name (component name i ++ behind (some rest)) resolved in
    let key : is_key name ≡ true = ground (arith, h) in
    let small : i < 2147483648 = ground (arith, h) in
    let tail : is_path p ps ≡ true = ground (arith, h) in
    let r = resolve_name-Reads name i (some rest) resolved key small in
    elim (Option-cases (element_at c name i)) [
      | inl e ↦
          Answers-moves _ none _ _ (walk-step c name i p ps none e)
            (descend-found (resolve_to_context (suc (length ps))) c read name i r.resolves
              r.same_name r.same_index (inl e))
            (found_Answers c name i none e)
      | inr (d, e) ↦
          Answers-moves _ (walk d p ps) _ _ (walk-step c name i p ps (some d) e)
            (descend-below (resolve_to_context (suc (length ps))) c d read name i rest r.resolves
              r.same_name r.same_index e r.same_next)
            (resolve_to_context-Answers d p ps read.resolved tail)
    ]
