-- ===== src/Tests/Collections.antt =====
-- A collection of four contexts of which the third one is destroyed, with lib/collection.c run on it.
use disir_c.Prelude.{
  ℕ, ◌≡◌, refl, true, none, some, List, [], ◌∷◌, map, ◌++◌, arith, ◌==◌, replicate, ltb,
}
use disir_c.Context.{Contexts, count, Holds, release}
use disir_c.Collection.{Slots, Collection, coalesce}
use disir_c.Collection.Api.{next, finished, push_context}
use disir_c.Collection.Valid.{IsValid, coalesce-filter, coalesced}
use disir_c.Collection.Next.{next-first, next-skips, handed}
use disir_c.Collection.Walk.{walk, walk-in_use}
use disir_c.Collection.Push.{push_context-Pushed, Pushed}
use disir_c.Collection.Finished.{finished-release}
use disir_c.Status.{ok}

abbrev entries : List ℕ
entries = 11 ∷ 12 ∷ 13 ∷ 14 ∷ []

abbrev unused : Slots
unused = replicate 6 none

abbrev contexts : Contexts
contexts = record {
  allocated = λ c. true;
  destroyed = λ c. c == 13;
  refcount = λ c. count c (15 ∷ entries);
}

abbrev collection : ℕ → Collection
collection iterator = record {
  cc_collection = map some entries ++ unused;
  cc_capacity = 10;
  cc_numentries = 4;
  cc_iterator_index = iterator;
}

collection-IsValid : (iterator : ℕ) → IsValid contexts (collection iterator) entries unused
collection-IsValid iterator = record {
  slots = refl;
  entries = refl;
  capacity = refl;
  held = record { owned = λ c. omega arith; backed = λ c p. refl };
}

caller : Holds contexts (15 ∷ entries)
caller = record { owned = λ c. omega arith; backed = λ c p. refl }

coalesce-filter_example :
    coalesce contexts (collection 2)
    ≡ some (release (13 ∷ []) contexts, coalesced contexts (collection 2) entries unused)
coalesce-filter_example =
    coalesce-filter contexts (collection 2) entries unused (collection-IsValid 2)

next-first_example :
    next contexts (some (collection 2)) true
    ≡ some (
        handed
          (some 14)
          (release (13 ∷ []) contexts)
          (coalesced contexts (collection 2) entries unused))
next-first_example =
    next-first contexts (collection 2) entries unused (collection-IsValid 2) (omega arith)

-- Three contexts were handed out and then destroyed; the fourth one is left out.
abbrev three_gone : Contexts
three_gone = record contexts { destroyed = λ c. ltb c 14 }

three_gone-IsValid : IsValid three_gone (collection 3) entries unused
three_gone-IsValid = record {
  slots = refl;
  entries = refl;
  capacity = refl;
  held = record { owned = λ c. omega arith; backed = λ c p. refl };
}

next-skips_example :
    next three_gone (some (collection 3)) true
    ≡ some (
        handed none
          (release (11 ∷ 12 ∷ 13 ∷ []) three_gone)
          (coalesced three_gone (collection 3) entries unused))
next-skips_example = next-skips three_gone (collection 3) entries unused three_gone-IsValid 2 refl

push_context-Pushed_example :
    Pushed
      (release (13 ∷ []) contexts)
      (coalesced contexts (collection 2) entries unused)
      (11 ∷ 12 ∷ 14 ∷ [])
      15
      (push_context contexts (some (collection 2)) (some 15) (some (replicate 10 none)))
push_context-Pushed_example =
    push_context-Pushed contexts (collection 2) entries unused 15 (collection-IsValid 2) caller
      (replicate 10 none) refl

finished-release_example :
    finished contexts (some (collection 2))
    ≡ some (record {
      status = ok;
      context = none;
      contexts = release entries contexts;
      collection = none;
    })
finished-release_example =
    finished-release contexts (collection 2) entries unused (collection-IsValid 2)

walk-in_use_example : walk 3 contexts (collection 1) ≡ some (12 ∷ 14 ∷ [])
walk-in_use_example =
    walk-in_use (12 ∷ 14 ∷ []) contexts (collection 1) entries unused (collection-IsValid 1)
      (omega arith) refl
