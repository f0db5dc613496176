-- ===== src/Validate/Invalid.antt =====
-- dx_invalid_elements of lib/validate.c, with dc_context_valid, on a config whose contexts are not
-- destroyed; pushing to the collection is granted its memory.
pub mod Listed
pub mod Clean
pub mod Whole
use disir_c.Prelude.{Bool, true, false, ◌||◌, List, [], ◌∷◌, ◌++◌, map, if◌then◌else◌}
use disir_c.Status.{Status, ok, invalid_context}
use disir_c.Restriction.{Doubles}
use disir_c.Validate.{Flags, Node, Nodes, keyval, section, end, node, Config}

module _ (D : Doubles) where
  -- What is pushed to the collection: the config itself, or a context below it.
  pub data Found : Type 0 where
    root : Found
    below : Node D → Found

  -- dc_context_valid on an element
  abbrev pub is_invalid : Node D → Bool
  is_invalid (keyval f k) = f.invalid
  is_invalid (section f s ns) = f.invalid

  abbrev pub found : Node D → List (Found)
  found n = if is_invalid n then below n ∷ [] else []

  unfoldable mutual
    -- A round of the loop: whether the variable `invalid` is set, and what is pushed. The call for a
    -- section begins with its own state.
    pub invalid_round : Node D → Bool × List (Found)
    invalid_round (keyval f k) = (f.invalid, found (keyval f k))
    invalid_round (section f s ns) = (
      f.invalid || (f.invalid || (invalid_rounds ns).0),
      found (section f s ns) ++ (invalid_rounds ns).1,
    )

    -- The loop over the elements
    pub invalid_rounds : Nodes D → Bool × List (Found)
    invalid_rounds end = (false, [])
    invalid_rounds (node n ns) =
        ((invalid_round n).0 || (invalid_rounds ns).0, (invalid_round n).1 ++ (invalid_rounds ns).1)

  -- dx_invalid_elements on a config; the flag says that there is a collection, and the list is what
  -- is pushed to it.
  abbrev pub invalid_elements : Config D → Bool → Status × List (Found)
  invalid_elements c collection = (
    if c.flags.invalid || (invalid_rounds c.cf_elements).0 then invalid_context else ok,
    if collection
        then (if c.flags.invalid then root ∷ [] else []) ++ (invalid_rounds c.cf_elements).1
        else [],
  )
