-- ===== src/Collection/Walk.antt =====
-- Calling dc_collection_next until it answers that the collection is exhausted.
use native.Mathlib.Nat.{suc-add}
use disir_c.Prelude.{
  ℕ, zero, suc, ◌+◌, ◌≤◌, ◌<◌, ◌≡◌, refl, ap, ◌∙◌, true, false, Option, none, some, List, [], ◌∷◌,
  ◌++◌, arith, length, Bool-cases, replicate, get_elem?, drop, inl, inr,
}
use disir_c.Context.{Contexts, Holds, release, count, incref}
use disir_c.Context.Counts.{count-here, destroyed-release}
use disir_c.Collection.{Slots, Collection}
use disir_c.Collection.Api.{next}
use disir_c.Collection.Lists.{live_before, live_before-le}
use disir_c.Collection.Valid.{IsValid, in_use, gone, coalesced, coalesced-IsValid}
use disir_c.Collection.Next.{handed, next-first}

-- The contexts that are handed out, in order; `none` is a fault or too few rounds.
unfoldable pub walk : ℕ → Contexts → Collection → Option (List ℕ)
walk zero s k = none
walk (suc rounds) s k = elim (next s (some k) true) [
  | none ↦ none
  | some a ↦ elim a.context [
    | none ↦ some []
    | some c ↦ elim a.collection [
      | none ↦ none
      | some k' ↦ elim (walk rounds a.contexts k') [ none ↦ none | some cs ↦ some (c ∷ cs) ]
    ]
  ]
]

walk-end :
    (rounds : ℕ) (s s' : Contexts) (k k' : Collection)
    → next s (some k) true ≡ some (handed none s' k')
    → walk (suc rounds) s k ≡ some []
unfolding walk
walk-end rounds s s' k k' e = rw (e, walk) refl

walk-go :
    (rounds : ℕ) (s s' : Contexts) (k k' : Collection) (c : ℕ) (cs : List ℕ)
    → next s (some k) true ≡ some (handed (some c) s' k')
    → walk rounds (incref c s') (record k' { cc_iterator_index = k'.cc_iterator_index + 1 })
      ≡ some cs
    → walk (suc rounds) s k ≡ some (c ∷ cs)
unfolding walk
walk-go rounds s s' k k' c cs e f = rw (e, walk, f) refl

in_use-same : (s t : Contexts) (cs : List ℕ) → t.destroyed ≡ s.destroyed → in_use t cs ≡ in_use s cs
in_use-same s t cs e = ap (λ d. in_use (record s { destroyed = d }) cs) e

-- None of the contexts is destroyed.
abbrev AllUsed : Contexts → List ℕ → Type 0
AllUsed s [] = Unit
AllUsed s (c ∷ cs) = (s.destroyed c ≡ false) × AllUsed s cs

module _ (s : Contexts) where
  in_use-AllUsed : (cs : List ℕ) → AllUsed s (in_use s cs)
  in_use-AllUsed [] = tt
  in_use-AllUsed (c ∷ cs) = elim (Bool-cases (s.destroyed c)) [
    | inl e ↦ rw e (in_use-AllUsed cs)
    | inr e ↦ rw e (e, in_use-AllUsed cs)
  ]

  AllUsed-drop : (n : ℕ) (cs : List ℕ) → AllUsed s cs → AllUsed s (drop n cs)
  AllUsed-drop zero cs a = a
  AllUsed-drop (suc n) [] a = tt
  AllUsed-drop (suc n) (c ∷ cs) a = AllUsed-drop n cs a.1

  in_use-whole : (cs : List ℕ) → AllUsed s cs → in_use s cs ≡ cs
  in_use-whole [] a = refl
  in_use-whole (c ∷ cs) a = rw a.0 (ap (λ l. c ∷ l) (in_use-whole cs a.1))

  drop-in_use :
      (n : ℕ) (cs : List ℕ) → drop (live_before s n cs) (in_use s cs) ≡ in_use s (drop n cs)
  drop-in_use zero cs = refl
  drop-in_use (suc n) [] = refl
  drop-in_use (suc n) (c ∷ cs) = elim (Bool-cases (s.destroyed c)) [
    | inl e ↦ rw e (drop-in_use n cs)
    | inr e ↦ rw e (drop-in_use n cs)
  ]

  length-in_use :
      (n : ℕ) (cs : List ℕ)
      → length (in_use s cs) ≡ live_before s n cs + length (in_use s (drop n cs))
  length-in_use zero cs = omega arith
  length-in_use (suc n) [] = omega arith
  length-in_use (suc n) (c ∷ cs) = ground (arith, length-in_use n cs)

count-drop : (c n : ℕ) (xs : List ℕ) → count c (drop n xs) ≤ count c xs
count-drop c zero xs = omega arith
count-drop c (suc n) [] = omega arith
count-drop c (suc n) (x ∷ xs) = omega (arith, count-drop c n xs)

drop-suc :
    (m : ℕ) (xs : List ℕ) (c : ℕ) (later : List ℕ) → drop m xs ≡ c ∷ later → drop (m + 1) xs ≡ later
drop-suc zero xs c later e = ap (λ l. drop 1 l) e
drop-suc (suc m) [] c later e = absurd (grind (arith, e))
drop-suc (suc m) (x ∷ xs) c later e =
    ap (λ n. drop n (x ∷ xs)) (suc-add m 1) ∙ drop-suc m xs c later e

Holds-again :
    (s : Contexts) (xs : List ℕ) (c : ℕ) → Holds s xs → 0 < count c xs → Holds (incref c s) xs
Holds-again s xs c h k =
    let a : s.allocated c ≡ true = h.backed c (omega (arith, k, h.owned c)) in
    record { owned = λ d. ground (arith, h.owned d); backed = λ d p. ground (arith, h.backed d) }

module _ (s : Contexts) (k : Collection) (cs : List ℕ) (rest : Slots) (v : IsValid s k cs rest)
    (within : k.cc_iterator_index ≤ length (in_use s cs)) (c : ℕ) (later : List ℕ)
    (due : in_use s (drop k.cc_iterator_index cs) ≡ c ∷ later) where
  abbrev contexts_after : Contexts
  contexts_after = incref c (release (gone s cs) s)

  abbrev collection_after : Collection
  collection_after = record (coalesced s k cs rest) {
    cc_iterator_index = (coalesced s k cs rest).cc_iterator_index + 1;
  }

  handed_on :
      next s (some k) true ≡ some (handed (some c) (release (gone s cs) s) (coalesced s k cs rest))
  handed_on =
      next-first s k cs rest v within
      ∙ ap (λ l. some (handed (get_elem? l 0) (release (gone s cs) s) (coalesced s k cs rest))) due

  due_behind : drop (live_before s k.cc_iterator_index cs) (in_use s cs) ≡ c ∷ later
  due_behind = drop-in_use s k.cc_iterator_index cs ∙ due

  after-IsValid :
      IsValid contexts_after collection_after
        (in_use s cs)
        (replicate (length (gone s cs)) none ++ rest)
  after-IsValid =
      let w = coalesced-IsValid s k cs rest v in
      record {
        slots = w.slots;
        entries = w.entries;
        capacity = w.capacity;
        held = Holds-again (release (gone s cs) s) (in_use s cs) c w.held (
            omega (
              arith,
              count-drop c (live_before s k.cc_iterator_index cs) (in_use s cs),
              ap (count c) due_behind,
              count-here c later,
            ));
      }

  after_index : collection_after.cc_iterator_index ≡ live_before s k.cc_iterator_index cs + 1
  after_index = omega (arith, within, live_before-le s k.cc_iterator_index cs)

  after_due : in_use contexts_after (drop collection_after.cc_iterator_index (in_use s cs)) ≡ later
  after_due =
      in_use-same s contexts_after (drop collection_after.cc_iterator_index (in_use s cs))
        (destroyed-release (gone s cs) s)
      ∙ in_use-whole s (drop collection_after.cc_iterator_index (in_use s cs))
          (AllUsed-drop s collection_after.cc_iterator_index (in_use s cs) (in_use-AllUsed s cs))
      ∙ ap (λ n. drop n (in_use s cs)) after_index
      ∙ drop-suc (live_before s k.cc_iterator_index cs) (in_use s cs) c later due_behind

  after_within : collection_after.cc_iterator_index ≤ length (in_use contexts_after (in_use s cs))
  after_within =
      let whole : in_use contexts_after (in_use s cs) ≡ in_use s cs =
        in_use-same s contexts_after (in_use s cs) (destroyed-release (gone s cs) s)
        ∙ in_use-whole s (in_use s cs) (in_use-AllUsed s cs) in
      omega
        (arith, after_index, ap length whole, length-in_use s k.cc_iterator_index cs, ap length due)

-- On a valid collection whose iterator stands at most at the number of contexts in use, calling
-- dc_collection_next until it answers that the collection is exhausted hands out the contexts in
-- use from the iterator on, each once and in order.
pub walk-in_use :
    (l : List ℕ) (s : Contexts) (k : Collection) (cs : List ℕ) (rest : Slots)
    → IsValid s k cs rest
    → k.cc_iterator_index ≤ length (in_use s cs)
    → in_use s (drop k.cc_iterator_index cs) ≡ l
    → walk (suc (length l)) s k ≡ some l
walk-in_use [] s k cs rest v within due =
    walk-end 0 s (release (gone s cs) s) k (coalesced s k cs rest) (
      next-first s k cs rest v within
      ∙ ap (λ l. some (handed (get_elem? l 0) (release (gone s cs) s) (coalesced s k cs rest))) due)
walk-in_use (c ∷ later) s k cs rest v within due =
    walk-go (suc (length later)) s (release (gone s cs) s) k (coalesced s k cs rest) c later
      (handed_on s k cs rest v within c later due)
      (walk-in_use later (contexts_after s k cs rest v within c later due)
        (collection_after s k cs rest v within c later due) (in_use s cs)
        (replicate (length (gone s cs)) none ++ rest)
        (after-IsValid s k cs rest v within c later due)
        (after_within s k cs rest v within c later due)
        (after_due s k cs rest v within c later due))
