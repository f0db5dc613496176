-- ===== src/Update/Collect.antt =====
-- retrieve_all_keyvals_recursively of lib/update.c.
use disir_c.Prelude.{true, false, List, [], ◌∷◌, ◌++◌, ◌≡◌, ap, sym, ◌∙◌, arith}
use mathlib.Core.List.{append_assoc, append-nil}
use disir_c.Status.{Status, ok, exhausted, is_ok}
use disir_c.Value.{Platform}
use disir_c.Update.{Keyval, Element, Elements, keyval, section, end, element}

module _ (P : Platform) where
  unfoldable mutual
    pub retrieve : Element P → List (Keyval P) → Status × List (Keyval P)
    retrieve (keyval k) keyvals = (ok, keyvals ++ (k ∷ []))
    retrieve (section es) keyvals = retrieve_all es keyvals

    -- The loop over the elements of a config or of a section, which ends at the first status that is
    -- not OK: that of the iterator, or that of an element.
    pub retrieve_all : Elements P → List (Keyval P) → Status × List (Keyval P)
    retrieve_all end keyvals = (exhausted, keyvals)
    retrieve_all (element e es) keyvals = elim (is_ok (retrieve e keyvals).0) [
      | true ↦ retrieve_all es (retrieve e keyvals).1
      | false ↦ retrieve e keyvals
    ]

  -- The keyvals in front of the first section, then in the same way those of that section.
  unfoldable pub leading : Elements P → List (Keyval P)
  leading end = []
  leading (element (keyval k) es) = k ∷ leading es
  leading (element (section ms) es) = leading ms

  -- All keyvals of a config up to its first section are collected, then those of that section in the
  -- same way; nothing behind the section is.
  pub retrieve_all-leading :
      (es : Elements P) (keyvals : List (Keyval P))
      → retrieve_all es keyvals ≡ (exhausted, keyvals ++ leading es)
  unfolding retrieve retrieve_all leading
  retrieve_all-leading end keyvals = ap (λ ks. (exhausted, ks)) (sym (append-nil keyvals))
  retrieve_all-leading (element (keyval k) es) keyvals =
      retrieve_all-leading es (keyvals ++ (k ∷ []))
      ∙ ap (λ ks. (exhausted, ks)) (append_assoc keyvals (k ∷ []) (leading es))
  retrieve_all-leading (element (section ms) es) keyvals =
      ground (arith, retrieve_all-leading ms keyvals)
