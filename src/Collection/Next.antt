-- ===== src/Collection/Next.antt =====
-- dc_collection_next and dx_collection_next_noncoalesce on a valid collection.
use native.Mathlib.Nat.{suc-add}
use disir_c.Prelude.{
  ℕ, zero, suc, ◌+◌, ◌≤◌, ◌<◌, ◌≡◌, refl, ap, ◌∙◌, true, Option, none, some, List, [], ◌∷◌, ◌++◌,
  map, arith, length, Bool-cases, replicate, get_elem?, drop, ltb, inl, inr,
}
use disir_c.Context.{Contexts, release, count, incref}
use disir_c.Status.{ok, exhausted}
use disir_c.Collection.{Slots, Collection}
use disir_c.Collection.Api.{Answer, next, next_noncoalesce, yield_next}
use disir_c.Collection.Lists.{live_before, live_before-le, live_before-total}
use disir_c.Collection.Valid.{IsValid, in_use, gone, coalesced, coalesce-filter, coalesced-IsValid}

-- The answer where the iterator stands on that entry; `none` is the end.
abbrev pub handed : Option ℕ → Contexts → Collection → Answer
handed none s k = record { status = exhausted; context = none; contexts = s; collection = some k }
handed (some c) s k = record {
  status = ok;
  context = some c;
  contexts = incref c s;
  collection = some (record k { cc_iterator_index = k.cc_iterator_index + 1 });
}

get_elem?-past : (cs : List ℕ) (i : ℕ) → length cs ≤ i → get_elem? cs i ≡ none
get_elem?-past [] i le = refl
get_elem?-past (c ∷ cs) zero le = absurd (omega arith)
get_elem?-past (c ∷ cs) (suc i) le = get_elem?-past cs i (omega arith)

-- Inside of the entries, the slot holds a context that the list counts.
entry_at :
    (cs : List ℕ) (rest : Slots) (i : ℕ)
    → i < length cs
    → (c : ℕ) × (get_elem? cs i ≡ some c)
      × (get_elem? (map some cs ++ rest) i ≡ some (some c))
      × (0 < count c cs)
entry_at [] rest i lt = absurd (omega arith)
entry_at (c ∷ cs) rest zero lt = (c, refl, refl, ground arith)
entry_at (c ∷ cs) rest (suc i) lt =
    let (d, e, f, p) = entry_at cs rest i (omega arith) in (d, e, f, ground arith)

module _ (s : Contexts) (k : Collection) (cs : List ℕ) (rest : Slots)
    (v : IsValid s k cs rest) where
  yield_inside :
      (c : ℕ)
      → k.cc_iterator_index < k.cc_numentries
      → get_elem? k.cc_collection k.cc_iterator_index ≡ some (some c)
      → s.allocated c ≡ true
      → yield_next s k ≡ some (handed (some c) s k)
  yield_inside c lt e a = ground arith

  pub yield_handed : yield_next s k ≡ some (handed (get_elem? cs k.cc_iterator_index) s k)
  yield_handed = elim (Bool-cases (ltb k.cc_iterator_index (length cs))) [
    | inl lt ↦
        let (c, e, f, p) = entry_at cs rest k.cc_iterator_index (ground arith) in
        rw e (
          yield_inside c (ground (arith, v.entries))
            (ap (λ l. get_elem? l k.cc_iterator_index) v.slots ∙ f)
            (v.held.backed c (omega (arith, p, v.held.owned c))))
    | inr ge ↦
        let past : length cs ≤ k.cc_iterator_index = ground arith in
        rw (get_elem?-past cs k.cc_iterator_index past) (ground (arith, v.entries))
  ]

get_elem?-drop :
    (s : Contexts) (cs : List ℕ) (n i : ℕ)
    → get_elem? (in_use s cs) (live_before s n cs + i) ≡ get_elem? (in_use s (drop n cs)) i
get_elem?-drop s cs zero i = ap (get_elem? (in_use s cs)) (omega arith)
get_elem?-drop s [] (suc n) i = refl
get_elem?-drop s (c ∷ cs) (suc n) i = elim (Bool-cases (s.destroyed c)) [
  | inl e ↦ rw e (get_elem?-drop s cs n i)
  | inr e ↦
      rw e (
        ap (get_elem? (c ∷ in_use s cs)) (suc-add (live_before s n cs) i) ∙ get_elem?-drop s cs n i)
]

module _ (s : Contexts) (k : Collection) (cs : List ℕ) (rest : Slots)
    (v : IsValid s k cs rest) where
  -- Without coalescing, the iterator hands out the entry that it stands on.
  pub next_noncoalesce-handed :
      next_noncoalesce s (some k) true ≡ some (handed (get_elem? cs k.cc_iterator_index) s k)
  next_noncoalesce-handed = yield_handed s k cs rest v

  next-coalesced :
      next s (some k) true
      ≡ some (
          handed
            (get_elem? (in_use s cs) (coalesced s k cs rest).cc_iterator_index)
            (release (gone s cs) s)
            (coalesced s k cs rest))
  next-coalesced =
      rw (coalesce-filter s k cs rest v, next)
        (yield_handed (release (gone s cs) s) (coalesced s k cs rest) (in_use s cs)
          (replicate (length (gone s cs)) none ++ rest) (coalesced-IsValid s k cs rest v))

  at_drop :
      (i : ℕ)
      → (coalesced s k cs rest).cc_iterator_index ≡ live_before s k.cc_iterator_index cs + i
      → next s (some k) true
        ≡ some (
            handed
              (get_elem? (in_use s (drop k.cc_iterator_index cs)) i)
              (release (gone s cs) s)
              (coalesced s k cs rest))
  at_drop i e =
      next-coalesced
      ∙ ap (λ o. some (handed o (release (gone s cs) s) (coalesced s k cs rest)))
          (ap (get_elem? (in_use s cs)) e ∙ get_elem?-drop s cs k.cc_iterator_index i)

  -- On a valid collection, while the iterator stands at most at the number of the contexts in
  -- use, the first context in use from the iterator on is handed out with one more reference, and
  -- the end is answered if there is none.
  pub next-first :
      k.cc_iterator_index ≤ length (in_use s cs)
      → next s (some k) true
        ≡ some (
            handed
              (get_elem? (in_use s (drop k.cc_iterator_index cs)) 0)
              (release (gone s cs) s)
              (coalesced s k cs rest))
  next-first le = at_drop 0 (omega (arith, le, live_before-le s k.cc_iterator_index cs))

  -- On a valid collection whose iterator stands `d` entries beyond the number of the contexts in
  -- use, the first `d` contexts in use that it has not handed out yet are left out.
  pub next-skips :
      (d : ℕ)
      → k.cc_iterator_index ≡ length (in_use s cs) + d
      → next s (some k) true
        ≡ some (
            handed
              (get_elem? (in_use s (drop k.cc_iterator_index cs)) d)
              (release (gone s cs) s)
              (coalesced s k cs rest))
  next-skips d e = at_drop d (omega (arith, e, live_before-total s k.cc_iterator_index cs))
