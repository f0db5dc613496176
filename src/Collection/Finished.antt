-- ===== src/Collection/Finished.antt =====
-- dc_collection_finished on a valid collection.
use mathlib.Core.List.{append_assoc}
use disir_c.Prelude.{
  ℕ, suc, ◌+◌, ◌≡◌, refl, ap, sym, ◌∙◌, true, none, some, List, [], ◌∷◌, ◌++◌, map, arith, length,
  length-append, Bool-cases, inl, inr, get_elem?,
}
use disir_c.Context.{Contexts, Holds, release, decref}
use disir_c.Context.Counts.{Holds-decref, Holds-head}
use disir_c.Status.{ok}
use disir_c.Collection.{Slots, Collection}
use disir_c.Collection.Api.{finished, release_entries}
use disir_c.Collection.Lists.{get_elem?-middle}
use disir_c.Collection.Valid.{IsValid}

release_entries-zero : (i : ℕ) (slots : Slots) (s : Contexts) → release_entries 0 i slots s ≡ some s
unfolding release_entries
release_entries-zero i slots s = refl

release_entries-suc :
    (n : ℕ) (front back : Slots) (c : ℕ) (s : Contexts)
    → s.allocated c ≡ true
    → release_entries (suc n) (length front) (front ++ (some c ∷ back)) s
      ≡ release_entries n (length front + 1) (front ++ (some c ∷ back)) (decref c s)
unfolding release_entries
release_entries-suc n front back c s a =
    let at : get_elem? (front ++ (some c ∷ back)) (length front) ≡ some (some c) =
      get_elem?-middle front back (some c) in
    elim (Bool-cases (s.destroyed c)) [
      | inl e ↦ rw (at, a, e, release_entries)
      | inr e ↦ rw (at, a, e, release_entries)
    ]

release_entries-all :
    (cs : List ℕ) (front rest : Slots) (s : Contexts)
    → Holds s cs
    → release_entries (length cs) (length front) (front ++ (map some cs ++ rest)) s
      ≡ some (release cs s)
release_entries-all [] front rest s h = release_entries-zero (length front) (front ++ rest) s
release_entries-all (c ∷ cs) front rest s h =
    release_entries-suc (length cs) front (map some cs ++ rest) c s (Holds-head c cs h)
    ∙ ap
        (λ n.
          release_entries (length cs) n (front ++ (some c ∷ (map some cs ++ rest))) (decref c s))
        (omega (arith, length-append front (some c ∷ [])))
    ∙ ap (λ l. release_entries (length cs) (length (front ++ (some c ∷ []))) l (decref c s))
        (sym (append_assoc front (some c ∷ []) (map some cs ++ rest)))
    ∙ release_entries-all cs (front ++ (some c ∷ [])) rest (decref c s) (Holds-decref c cs h)

-- Finishing a valid collection meets no fault, drops one reference for each entry, and leaves no
-- collection.
pub finished-release :
    (s : Contexts) (k : Collection) (cs : List ℕ) (rest : Slots)
    → IsValid s k cs rest
    → finished s (some k)
      ≡ some (record { status = ok; context = none; contexts = release cs s; collection = none })
finished-release s k cs rest v =
    let all : release_entries k.cc_numentries 0 k.cc_collection s ≡ some (release cs s) =
      rw (v.entries, v.slots) (release_entries-all cs [] rest s v.held) in
    rw (all, finished)
