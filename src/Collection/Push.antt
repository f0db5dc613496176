-- ===== src/Collection/Push.antt =====
-- dc_collection_push_context on a valid collection.
use mathlib.Core.List.{append_assoc, append-nil, map-append}
use disir_c.Prelude.{
  ℕ, ◌+◌, ◌<◌, ◌≡◌, refl, ap, sym, ◌∙◌, true, false, Option, none, some, List, [], ◌∷◌, ◌++◌, map,
  arith, length, length-append, length-set, replicate, set, ◌==◌,
}
use disir_c.Context.{Contexts, Holds, release, incref}
use disir_c.Context.Counts.{count-append, Holds-release, Holds-fewer, Holds-head}
use disir_c.Status.{ok}
use disir_c.Collection.{Slots, Collection}
use disir_c.Collection.Api.{Answer, append_entry, grow, push_entry, push_context}
use disir_c.Collection.Lists.{length-map-some, set-middle}
use disir_c.Collection.Valid.{
  IsValid, in_use, gone, coalesced, coalesce-filter, coalesced-IsValid, count-in_use,
}

-- What a push that succeeds leaves: the collection `k` is valid for `cs` with `c` behind them, and
-- `c` has one reference more.
pub record Pushed (s : Contexts) (k : Collection) (cs : List ℕ) (c : ℕ) (a : Option Answer)
    : Type 0 where
  pub collection : Collection
  pub rest : Slots
  pub answered :
      a
      ≡ some (record {
        status = ok;
        context = none;
        contexts = incref c s;
        collection = some collection;
      })
  pub valid : IsValid (incref c s) collection (cs ++ (c ∷ [])) rest
  pub iterator : collection.cc_iterator_index ≡ k.cc_iterator_index

Holds-incref :
    (s : Contexts) (cs : List ℕ) (c : ℕ)
    → Holds s cs
    → s.allocated c ≡ true
    → Holds (incref c s) (cs ++ (c ∷ []))
Holds-incref s cs c h a = record {
  owned = λ d. ground (arith, h.owned d, count-append d cs (c ∷ []));
  backed = λ d p. ground (arith, h.backed d);
}

module _ (s : Contexts) (k : Collection) (cs : List ℕ) (x : Option ℕ) (rest : Slots) (c : ℕ)
    (v : IsValid s k cs (x ∷ rest)) (a : s.allocated c ≡ true) where
  abbrev appended : Collection
  appended = record k {
    cc_collection = set k.cc_collection k.cc_numentries (some c);
    cc_numentries = k.cc_numentries + 1;
  }

  slots-appended : appended.cc_collection ≡ map some (cs ++ (c ∷ [])) ++ rest
  slots-appended =
      ap (λ n. set k.cc_collection n (some c)) (v.entries ∙ sym (length-map-some cs))
      ∙ ap (λ (l : Slots). set l (length (map some cs)) (some c)) v.slots
      ∙ set-middle (map some cs) rest x (some c)
      ∙ rw (map-append some cs (c ∷ [])) (sym (append_assoc (map some cs) (some c ∷ []) rest))

  appended-IsValid : IsValid (incref c s) appended (cs ++ (c ∷ [])) rest
  appended-IsValid = record {
    slots = slots-appended;
    entries = omega (arith, v.entries, length-append cs (c ∷ []));
    capacity = omega (arith, v.capacity, length-set k.cc_collection k.cc_numentries (some c));
    held = Holds-incref s cs c v.held a;
  }

  append_entry-Pushed : Pushed s k cs c (append_entry s k c)
  append_entry-Pushed = record {
    collection = appended;
    rest = rest;
    answered = ground (
      arith,
      v.entries,
      ap length v.slots,
      length-append (map some cs) (x ∷ rest),
      length-map-some cs,
    );
    valid = appended-IsValid;
    iterator = refl;
  }

abbrev with_slots : Collection → Slots → Collection
with_slots k added = record k {
  cc_collection = k.cc_collection ++ added;
  cc_capacity = k.cc_capacity + 10;
}

module _ (s : Contexts) (k : Collection) (cs : List ℕ) (c : ℕ) (a : s.allocated c ≡ true) where
  with_slots-IsValid :
      (added : Slots)
      → length added ≡ 10
      → IsValid s k cs []
      → IsValid s (with_slots k added) cs added
  with_slots-IsValid added ten v = record {
    slots = ap (λ (l : Slots). l ++ added) (v.slots ∙ append-nil (map some cs));
    entries = v.entries;
    capacity = omega (arith, v.capacity, ten, length-append k.cc_collection added);
    held = v.held;
  }

  grow-Pushed :
      (added : Slots)
      → length added ≡ 10
      → IsValid s k cs []
      → Pushed s k cs c (grow s k c (some added))
  grow-Pushed [] ten v = absurd (omega arith)
  grow-Pushed (x ∷ added) ten v =
      let p =
        append_entry-Pushed s (with_slots k (x ∷ added)) cs x added c
          (with_slots-IsValid (x ∷ added) ten v) a in
      record {
        collection = p.collection;
        rest = p.rest;
        answered = p.answered;
        valid = p.valid;
        iterator = p.iterator;
      }

  full : IsValid s k cs [] → k.cc_numentries ≡ k.cc_capacity
  full v = omega (
    arith,
    v.entries,
    v.capacity,
    ap length v.slots,
    length-append (map some cs) [],
    length-map-some cs,
  )

  room : (x : Option ℕ) (rest : Slots) → IsValid s k cs (x ∷ rest) → k.cc_numentries < k.cc_capacity
  room x rest v = omega (
    arith,
    v.entries,
    v.capacity,
    ap length v.slots,
    length-append (map some cs) (x ∷ rest),
    length-map-some cs,
  )

  push_entry-Pushed :
      (rest added : Slots)
      → length added ≡ 10
      → IsValid s k cs rest
      → Pushed s k cs c (push_entry s k c (some added))
  push_entry-Pushed [] added ten v =
      let e : k.cc_numentries == k.cc_capacity ≡ true = ground (arith, full v) in
      rw (e, push_entry) (grow-Pushed added ten v)
  push_entry-Pushed (x ∷ rest) added ten v =
      let e : k.cc_numentries == k.cc_capacity ≡ false = ground (arith, room x rest v) in
      rw (e, push_entry) (append_entry-Pushed s k cs x rest c v a)

module _ (s : Contexts) (k : Collection) (cs : List ℕ) (rest : Slots) (c : ℕ)
    (v : IsValid s k cs rest) (own : Holds s (c ∷ cs)) where
  still_allocated : (release (gone s cs) s).allocated c ≡ true
  still_allocated = Holds-head c (in_use s cs) (
      Holds-release (gone s cs) (c ∷ in_use s cs) (
        Holds-fewer (c ∷ cs) (gone s cs ++ (c ∷ in_use s cs))
          (λ d. omega (arith, count-append d (gone s cs) (c ∷ in_use s cs), count-in_use s cs d))
          own))

  -- On a valid collection, pushing a context that the caller holds, where realloc answers with ten
  -- more slots if it is asked, succeeds: the collection is valid for the contexts in use with the
  -- new one behind them, and the iterator is where coalescing leaves it.
  pub push_context-Pushed :
      (added : Slots)
      → length added ≡ 10
      → Pushed
          (release (gone s cs) s)
          (coalesced s k cs rest)
          (in_use s cs)
          c
          (push_context s (some k) (some c) (some added))
  push_context-Pushed added ten =
      rw (coalesce-filter s k cs rest v, push_context)
        (push_entry-Pushed (release (gone s cs) s) (coalesced s k cs rest) (in_use s cs) c
          still_allocated (replicate (length (gone s cs)) none ++ rest) added ten
          (coalesced-IsValid s k cs rest v))
