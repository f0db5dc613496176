-- ===== src/Tests/Queries.antt =====
-- The paths of a config with one section `b` that holds two keyvals `c`.
use disir_c.Prelude.{refl, some, [], ◌∷◌}
use disir_c.Query.{named, Context, leaf, branch, Elements, end, element, resolve_to_context}
use disir_c.Query.RoundTrip.{Answers, path_text, resolve_to_context-Answers}

abbrev inner : Elements
inner = element (99 ∷ []) (leaf 7) (element (99 ∷ []) (leaf 8) end)

abbrev config : Context
config = branch 1 (element (97 ∷ []) (leaf 2) (element (98 ∷ []) (branch 3 inner) end))

resolve_to_context-Answers_example :
    Answers
      (some (leaf 8))
      (resolve_to_context 2 config (path_text (98 ∷ [], 0) ((99 ∷ [], 1) ∷ [])) [])
unfolding named
resolve_to_context-Answers_example =
    resolve_to_context-Answers config (98 ∷ [], 0) ((99 ∷ [], 1) ∷ []) [] refl
