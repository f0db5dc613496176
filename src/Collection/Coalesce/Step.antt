-- ===== src/Collection/Coalesce/Step.antt =====
-- One round of the outer loop of dx_collection_coalesce from any of its states.
use mathlib.Core.List.{append_assoc}
use disir_c.Prelude.{
  ℕ, suc, ◌+◌, ◌-◌, ◌≤◌, ◌<◌, ◌≡◌, ap, sym, ◌∙◌, inl, inr, true, false, none, some, List, [], ◌∷◌,
  ◌++◌, map, min, arith, set, length, length-append, Bool-cases, if◌then◌else◌, ltb, replicate,
  filter,
}
use disir_c.Context.Counts.{Holds-decref, Holds-head}
use disir_c.Collection.{Slots, Sweep, sweep_entry, drop_entry}
use disir_c.Collection.Lists.{
  somes, is_dead, is_live, set-middle, live_before, live_before-le, live_before-live_cons,
  live_before-dead_cons, Holds-tail,
}
use disir_c.Collection.Coalesce.Refill.{Hole}
use disir_c.Collection.Coalesce.Round.{refill-Round}
use disir_c.Collection.Coalesce.State.{At, Done, Round}
use disir_c.Collection.Coalesce.Entry.{advance, entry_null, entry_dead, entry_live}

-- The arithmetic of `iterator_moveback` where a context stays.
live_moveback :
    (front live before iterator old new : ℕ)
    → before ≤ iterator - (front + 0) - 1
    → new ≡ old + (min iterator (suc front + live) - (suc front + before))
    → new
      ≡ old
        + (min iterator (front + suc live)
            - (front + (if ltb 0 (iterator - (front + 0)) then suc before else 0)))
live_moveback front live before iterator old new le e = ground arith

module _ (entries iterator : ℕ) where
  abbrev pub Stepped : Sweep → Slots → Slots → List ℕ → Slots → Type 0
  Stepped s front gap todo rest =
      (s' : Sweep) × (sweep_entry entries iterator s ≡ some s')
      × Round entries iterator s front gap todo rest s'

  step_null :
      (s : Sweep) (front gap : Slots) (todo : List ℕ) (rest : Slots)
      → At entries s front (none ∷ gap) todo rest
      → Stepped s front (none ∷ gap) todo rest
  step_null s front gap todo rest at =
      let hole : Hole entries (advance s) front gap todo rest = record {
        slots = at.slots;
        index = omega (arith, at.index);
        probe = omega (arith, at.index, at.probe);
        total = omega (arith, at.total);
      } in
      let (s', e, r) =
        refill-Round entries iterator (advance s) front gap todo rest hole at.is_gap at.held in
      (
        s',
        entry_null entries iterator s front (gap ++ (map some todo ++ rest)) at.slots at.index ∙ e,
        record {
          front' = r.front';
          gap' = r.gap';
          todo' = r.todo';
          at = r.at;
          fewer = r.fewer;
          back = λ t d.
              let b = r.back t d in
              record {
                contexts = b.contexts;
                slots = b.slots;
                invalid = b.invalid;
                moveback = b.moveback;
              };
        },
      )

  step_dead :
      (s : Sweep) (front gap : Slots) (d : ℕ) (todo : List ℕ) (rest : Slots)
      → At entries s front (some d ∷ gap) todo rest
      → Stepped s front (some d ∷ gap) todo rest
  step_dead s front gap d todo rest at =
      let h : Sweep = drop_entry d (advance s) in
      let hole : Hole entries h front gap todo rest = record {
        slots =
            ap (λ i. set s.slots i none) (omega (arith, at.index))
            ∙ ap (λ (l : Slots). set l (length front) none) at.slots
            ∙ set-middle front (gap ++ (map some todo ++ rest)) (some d) none;
        index = omega (arith, at.index);
        probe = omega (arith, at.index, at.probe);
        total = omega (arith, at.total);
      } in
      let (s', e, r) =
        refill-Round entries iterator h front gap todo rest hole at.is_gap.1
          (Holds-decref d (somes gap ++ todo) at.held) in
      (
        s',
        entry_dead entries iterator s front (gap ++ (map some todo ++ rest)) d at.slots at.index
              (Holds-head d (somes gap ++ todo) at.held) at.is_gap.0
            ∙ e,
        record {
          front' = r.front';
          gap' = r.gap';
          todo' = r.todo';
          at = r.at;
          fewer = r.fewer;
          back = λ t b.
              let b' = r.back t b in
              record {
                contexts = b'.contexts;
                slots = b'.slots;
                invalid = omega (arith, b'.invalid);
                moveback = b'.moveback;
              };
        },
      )

  live_back :
      (s : Sweep) (front : Slots) (c : ℕ) (todo : List ℕ) (rest : Slots)
      → s.contexts.destroyed c ≡ false
      → (t : Sweep) → Done iterator (advance s) (front ++ (some c ∷ [])) [] todo rest t
      → Done iterator s front [] (c ∷ todo) rest t
  live_back s front c todo rest living t d = record {
    contexts = rw living d.contexts;
    slots = rw living (d.slots ∙ append_assoc front (some c ∷ []) _);
    invalid = rw living d.invalid;
    moveback =
        rw (live_before-live_cons s.contexts (iterator - (length front + 0)) c todo living, living)
          (live_moveback (length front) (length (filter (is_live s.contexts) todo))
            (live_before s.contexts (iterator - (length front + 0) - 1) todo) iterator
            s.iterator_moveback t.iterator_moveback
            (live_before-le s.contexts (iterator - (length front + 0) - 1) todo)
            (d.moveback ∙ λ i.
              s.iterator_moveback
              + (min iterator (length-front i + length (filter (is_live s.contexts) todo))
                  - (length-front i + live_before s.contexts (same_index i) todo))));
  }
    where
      length-front : length (front ++ (some c ∷ [])) ≡ suc (length front)
      length-front = omega (arith, length-append front (some c ∷ []))

      same_index :
          iterator - (length (front ++ (some c ∷ [])) + 0) ≡ iterator - (length front + 0) - 1
      same_index = omega (arith, length-append front (some c ∷ []))

  one_more : (n : ℕ) → 1 + n ≡ 0 + suc n
  one_more n = omega arith

  open_back :
      (s : Sweep) (front : Slots) (c : ℕ) (todo : List ℕ) (rest : Slots)
      → s.contexts.destroyed c ≡ true
      → (t : Sweep) → Done iterator s front (some c ∷ []) todo rest t
      → Done iterator s front [] (c ∷ todo) rest t
  open_back s front c todo rest gone t d = record {
    contexts = rw gone d.contexts;
    slots = rw gone (
        d.slots
        ∙ ap
            (λ n.
              front ++ (map some (filter (is_live s.contexts) todo) ++ (replicate n none ++ rest)))
            (one_more (length (filter (is_dead s.contexts) todo))));
    invalid = rw gone (omega (arith, d.invalid));
    moveback =
        rw (live_before-dead_cons s.contexts (iterator - (length front + 0)) c todo gone, gone)
          (d.moveback
            ∙ ap
                (λ n.
                  s.iterator_moveback
                  + (min iterator (length front + length (filter (is_live s.contexts) todo))
                      - (length front + live_before s.contexts n todo)))
                (omega arith));
  }

  -- Where no gap is open, a context in use stays where it is.
  step_live :
      (s : Sweep) (front : Slots) (c : ℕ) (todo : List ℕ) (rest : Slots)
      → At entries s front [] (c ∷ todo) rest
      → s.contexts.destroyed c ≡ false
      → Stepped s front [] (c ∷ todo) rest
  step_live s front c todo rest at living = (
    advance s,
    entry_live entries iterator s front (map some todo ++ rest) c at.slots at.index
        (Holds-head c todo at.held) living,
    record {
      front' = front ++ (some c ∷ []);
      gap' = [];
      todo' = todo;
      at = record {
        slots = at.slots ∙ sym (append_assoc front (some c ∷ []) (map some todo ++ rest));
        index = omega (arith, at.index, length-append front (some c ∷ []));
        probe = omega (arith, at.index, at.probe, length-append front (some c ∷ []));
        total = omega (arith, at.total, length-append front (some c ∷ []));
        is_gap = tt;
        held = Holds-tail s.contexts c todo at.held;
      };
      fewer = omega arith;
      back = live_back s front c todo rest living;
    },
  )

  -- An open gap of no entry, at a destroyed context, is a gap of that entry.
  step_open :
      (s : Sweep) (front : Slots) (c : ℕ) (todo : List ℕ) (rest : Slots)
      → At entries s front [] (c ∷ todo) rest
      → s.contexts.destroyed c ≡ true
      → Stepped s front [] (c ∷ todo) rest
  step_open s front c todo rest at gone =
      let (s', e, r) = step_dead s front [] c todo rest (record {
        slots = at.slots;
        index = at.index;
        probe = omega (arith, at.probe);
        total = omega (arith, at.total);
        is_gap = (gone, tt);
        held = at.held;
      }) in
      (
        s',
        e,
        record {
          front' = r.front';
          gap' = r.gap';
          todo' = r.todo';
          at = r.at;
          fewer = omega (arith, r.fewer);
          back = λ t d. open_back s front c todo rest gone t (r.back t d);
        },
      )

  pub step :
      (s : Sweep) (front gap : Slots) (todo : List ℕ) (rest : Slots)
      → At entries s front gap todo rest
      → 0 < length gap + length todo
      → Stepped s front gap todo rest
  step s front (none ∷ gap) todo rest at more = step_null s front gap todo rest at
  step s front (some d ∷ gap) todo rest at more = step_dead s front gap d todo rest at
  step s front [] [] rest at more = absurd (omega arith)
  step s front [] (c ∷ todo) rest at more = elim (Bool-cases (s.contexts.destroyed c)) [
    | inl gone ↦ step_open s front c todo rest at gone
    | inr living ↦ step_live s front c todo rest at living
  ]
