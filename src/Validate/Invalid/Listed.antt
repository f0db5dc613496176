-- ===== src/Validate/Invalid/Listed.antt =====
-- dx_invalid_elements of lib/validate.c lists the contexts in the state INVALID.
use disir_c.Prelude.{
  ◌≡◌, refl, ◌∙◌, Bool, true, false, ◌||◌, List, [], ◌∷◌, ◌++◌, filter, arith, if◌then◌else◌,
}
use disir_c.Status.{ok, invalid_context}
use disir_c.Restriction.{Doubles}
use disir_c.Restriction.Permits.{any}
use disir_c.Validate.{Node, Nodes, keyval, section, end, node, Config}
use disir_c.Validate.Invalid.{
  Found, root, below, is_invalid, invalid_round, invalid_rounds, invalid_elements,
}

filter-append :
    {A : Type 0} (p : A → Bool) (xs ys : List A) → filter p (xs ++ ys) ≡ filter p xs ++ filter p ys
filter-append p [] ys = refl
filter-append p (x ∷ xs) ys = ground (arith, filter-append p xs ys)

any-append :
    {A : Type 0} (p : A → Bool) (xs ys : List A) → any p (xs ++ ys) ≡ (any p xs || any p ys)
any-append p [] ys = refl
any-append p (x ∷ xs) ys = ground (arith, any-append p xs ys)

module _ (D : Doubles) where
  unfoldable mutual
    -- A context and all below it, in the order of the tree
    pub contexts : Node D → List (Found D)
    contexts (keyval f k) = below (keyval f k) ∷ []
    contexts (section f s ns) = below (section f s ns) ∷ all_contexts ns

    pub all_contexts : Nodes D → List (Found D)
    all_contexts end = []
    all_contexts (node n ns) = contexts n ++ all_contexts ns

  -- The state of the config, or of a context below it
  abbrev pub in_state : Bool → Found D → Bool
  in_state b root = b
  in_state b (below n) = is_invalid D n

  mutual
    unfolding invalid_round contexts

    round_lists :
        (b : Bool) (n : Node D)
        → (any (in_state b) (contexts n) ≡ (invalid_round D n).0)
          × (filter (in_state b) (contexts n) ≡ (invalid_round D n).1)
    round_lists b (keyval f k) = (ground arith, ground arith)
    round_lists b (section f s ns) =
        (ground (arith, (rounds_list b ns).0), ground (arith, (rounds_list b ns).1))

    rounds_list :
        (b : Bool) (ns : Nodes D)
        → (any (in_state b) (all_contexts ns) ≡ (invalid_rounds D ns).0)
          × (filter (in_state b) (all_contexts ns) ≡ (invalid_rounds D ns).1)
    rounds_list b end = (refl, refl)
    rounds_list b (node n ns) = (
      any-append (in_state b) (contexts n) (all_contexts ns)
          ∙ ground (arith, (round_lists b n).0, (rounds_list b ns).0),
      filter-append (in_state b) (contexts n) (all_contexts ns)
          ∙ ground (arith, (round_lists b n).1, (rounds_list b ns).1),
    )

  -- The config and the contexts below it, in the order of the tree.
  abbrev pub listed : Config D → List (Found D)
  listed c = root ∷ all_contexts c.cf_elements

  -- dx_invalid_elements answers INVALID_CONTEXT exactly if the config or a context below it is in the
  -- state INVALID, and OK otherwise; a collection gets these contexts, in the order of the tree.
  pub invalid_elements-filter :
      (c : Config D)
      → (invalid_elements D c true ≡ (
        if any (in_state c.flags.invalid) (listed c) then invalid_context else ok,
        filter (in_state c.flags.invalid) (listed c),
      ))
        × ((invalid_elements D c false).0 ≡ (invalid_elements D c true).0)
  unfolding contexts
  invalid_elements-filter c = (
    ground (
      arith,
      (rounds_list c.flags.invalid c.cf_elements).0,
      (rounds_list c.flags.invalid c.cf_elements).1,
    ),
    refl,
  )
