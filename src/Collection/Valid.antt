-- ===== src/Collection/Valid.antt =====
-- dx_collection_coalesce as a whole: it keeps exactly the contexts in use.
use native.Mathlib.Nat.{zero-add}
use disir_c.Prelude.{
  ℕ, ◌+◌, ◌-◌, ◌≡◌, refl, ap, ◌∙◌, Option, none, some, List, [], ◌∷◌, ◌++◌, map, min, arith, length,
  length-append, replicate, filter, length-replicate,
}
use disir_c.Context.{Contexts, Holds, release, count}
use disir_c.Context.Counts.{Holds-release, Holds-fewer, count-append}
use disir_c.Collection.{Slots, Collection, Sweep, sweep, start, finish_sweep, coalesce}
use disir_c.Collection.Lists.{is_dead, is_live, live_before, length-map-some}
use disir_c.Collection.Coalesce.State.{At, Done}
use disir_c.Collection.Coalesce.Total.{sweep-Done}

-- The collection holds the contexts `cs`, each with a reference; `rest` are the unused slots.
pub record IsValid (s : Contexts) (k : Collection) (cs : List ℕ) (rest : Slots) : Type 0 where
  pub slots : k.cc_collection ≡ map some cs ++ rest
  pub entries : k.cc_numentries ≡ length cs
  pub capacity : k.cc_capacity ≡ length k.cc_collection
  pub held : Holds s cs

module _ (s : Contexts) (cs : List ℕ) where
  abbrev pub in_use : List ℕ
  in_use = filter (is_live s) cs

  abbrev pub gone : List ℕ
  gone = filter (is_dead s) cs

-- What a collection is after coalescing.
abbrev pub coalesced : Contexts → Collection → List ℕ → Slots → Collection
coalesced s k cs rest = record k {
  cc_collection = map some (in_use s cs) ++ (replicate (length (gone s cs)) none ++ rest);
  cc_numentries = length (in_use s cs);
  cc_iterator_index =
      k.cc_iterator_index
      - (min k.cc_iterator_index (length (in_use s cs)) - live_before s k.cc_iterator_index cs);
}

length-gone : (s : Contexts) (cs : List ℕ) → length (in_use s cs) + length (gone s cs) ≡ length cs
length-gone s [] = omega arith
length-gone s (c ∷ cs) = ground (arith, length-gone s cs)

module _ (s : Contexts) (k : Collection) (cs : List ℕ) (rest : Slots)
    (v : IsValid s k cs rest) where
  start-At : At k.cc_numentries (start s k) [] [] cs rest
  start-At = record {
    slots = v.slots;
    index = refl;
    probe = omega arith;
    total = omega (arith, v.entries);
    is_gap = tt;
    held = v.held;
  }

  coalesce-done :
      (t : Sweep)
      → sweep k.cc_numentries k.cc_numentries k.cc_iterator_index (start s k) ≡ some t
      → coalesce s k ≡ some (finish_sweep k t)
  unfolding coalesce
  coalesce-done t e = ground arith

  done_coalesced :
      (t : Sweep)
      → Done k.cc_iterator_index (start s k) [] [] cs rest t
      → ◌≡◌ {A = Contexts × Collection}
          (finish_sweep k t)
          (release (gone s cs) s, coalesced s k cs rest)
  done_coalesced t d i = (
    d.contexts i,
    record k {
      cc_collection = slots i;
      cc_numentries = kept i;
      cc_iterator_index = k.cc_iterator_index - back i;
    },
  )
    where
      slots : t.slots ≡ map some (in_use s cs) ++ (replicate (length (gone s cs)) none ++ rest)
      slots =
          d.slots
          ∙ ap (λ n. map some (in_use s cs) ++ (replicate n none ++ rest))
              (zero-add (length (gone s cs)))

      kept : k.cc_numentries - t.invalid_entries_count ≡ length (in_use s cs)
      kept = omega (arith, d.invalid, v.entries, length-gone s cs)

      back :
          t.iterator_moveback
          ≡ min k.cc_iterator_index (length (in_use s cs)) - live_before s k.cc_iterator_index cs
      back =
          let same : k.cc_iterator_index - (0 + 0) ≡ k.cc_iterator_index = omega arith in
          omega (arith, d.moveback, ap (λ n. live_before s n cs) same)

  -- Coalescing a valid collection meets no fault; it leaves exactly the contexts in use, in order,
  -- with NULL behind them, drops one reference for each destroyed entry, and moves the iterator
  -- back by the contexts in use that move from behind it to before it.
  pub coalesce-filter : coalesce s k ≡ some (release (gone s cs) s, coalesced s k cs rest)
  coalesce-filter =
      let (t, e, d) =
        sweep-Done k.cc_numentries k.cc_iterator_index k.cc_numentries (start s k) [] [] cs rest
          start-At (omega (arith, v.entries)) in
      coalesce-done t e ∙ ap some (done_coalesced t d)

pub count-in_use :
    (s : Contexts) (cs : List ℕ) (c : ℕ) → count c (in_use s cs) + count c (gone s cs) ≡ count c cs
count-in_use s [] c = omega arith
count-in_use s (d ∷ cs) c = ground (arith, count-in_use s cs c)

module _ (s : Contexts) (k : Collection) (cs : List ℕ) (rest : Slots)
    (v : IsValid s k cs rest) where
  -- The collection after coalescing is valid for the contexts in use.
  pub coalesced-IsValid :
      IsValid
        (release (gone s cs) s)
        (coalesced s k cs rest)
        (in_use s cs)
        (replicate (length (gone s cs)) none ++ rest)
  coalesced-IsValid = record {
    slots = refl;
    entries = refl;
    capacity = omega (
      arith,
      v.capacity,
      ap length v.slots,
      length-append (map some cs) rest,
      length-map-some cs,
      length-append (map some (in_use s cs)) (replicate (length (gone s cs)) none ++ rest),
      length-map-some (in_use s cs),
      length-append (replicate (length (gone s cs)) none) rest,
      length-replicate {A = Option ℕ} (length (gone s cs)) none,
      length-gone s cs,
    );
    held = Holds-release (gone s cs) (in_use s cs) (
        Holds-fewer cs (gone s cs ++ in_use s cs)
          (λ c. omega (arith, count-append c (gone s cs) (in_use s cs), count-in_use s cs c))
          v.held);
  }
