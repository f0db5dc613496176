-- ===== src/Collection/Coalesce/Round.antt =====
-- One round of the outer loop of dx_collection_coalesce behind an invalid entry.
use mathlib.Core.List.{append_assoc, append-nil}
use native.Mathlib.Nat.{suc-add, add-zero}
use disir_c.Prelude.{
  ℕ, suc, ◌+◌, ◌-◌, ◌≤◌, ◌≡◌, ap, ◌∙◌, inl, inr, none, some, List, [], ◌∷◌, ◌++◌, map, min, arith,
  length, length-append, if◌then◌else◌, ltb, leb, ◌&&◌, replicate, filter,
}
use disir_c.Context.{Holds, count}
use disir_c.Context.Counts.{count-append, Holds-fewer}
use disir_c.Collection.{Slots, Sweep, refill}
use disir_c.Collection.Lists.{
  AllDead, IsGap, IsGap-append, IsGap-AllDead, somes, somes-append, somes-map-some, is_dead,
  is_live, length-map-some, FirstLive, first_live, filter-dead, filter-dead_live, filter_dead-split,
  filter_live-split, live_before, live_before-dead, live_before-le, live_before-split,
}
use disir_c.Collection.Coalesce.Refill.{Hole, refill_none, refill_live, moved, length-split}
use disir_c.Collection.Coalesce.State.{At, Done, Round}

-- The arithmetic of `iterator_moveback` over a round that moves a context.
moveback_step :
    (front gap dead live before iterator old new : ℕ)
    → before ≤ iterator - (front + suc gap) - suc dead
    → new
      ≡ (if leb iterator (suc (front + gap) + dead) && ltb front iterator then old + 1 else old)
        + (min iterator (suc front + live) - (suc front + before))
    → new
      ≡ old
        + (min iterator (front + suc live)
            - (front + (if ltb dead (iterator - (front + suc gap)) then suc before else 0)))
moveback_step front gap dead live before iterator old new le e = ground arith

module _ (entries iterator : ℕ) (h : Sweep) (front gap : Slots) (todo : List ℕ) (rest : Slots)
    (hole : Hole entries h front gap todo rest) (is_gap : IsGap h.contexts gap)
    (held : Holds h.contexts (somes gap ++ todo)) where
  module _ (a : AllDead h.contexts todo) where
    abbrev stay : Sweep
    stay = record h { probe = entries }

    stay-At : At entries stay (front ++ (none ∷ [])) (gap ++ map some todo) [] rest
    stay-At = record {
      slots = hole.slots ∙ simp (append_assoc);
      index = omega (arith, hole.index, length-append front (none ∷ []));
      probe = omega (
        arith,
        hole.total,
        hole.index,
        length-append front (none ∷ []),
        length-append gap (map some todo),
        length-map-some todo,
      );
      total = omega (
        arith,
        hole.total,
        length-append front (none ∷ []),
        length-append gap (map some todo),
        length-map-some todo,
      );
      is_gap = IsGap-append h.contexts gap (map some todo) is_gap (IsGap-AllDead h.contexts todo a);
      held = simp (append-nil, somes-append, somes-map-some) held;
    }

    stay_back :
        (t : Sweep)
        → Done iterator stay (front ++ (none ∷ [])) (gap ++ map some todo) [] rest t
        → Done iterator h front (none ∷ gap) todo rest t
    stay_back t d = record {
      contexts =
          rw (filter-dead h.contexts todo a)
            (simp (append-nil, somes-append, somes-map-some) at d.contexts);
      slots =
          rw (filter-dead h.contexts todo a, filter-dead_live h.contexts todo a, suc-add)
            (simp (append_assoc, length-append {0}, length-map-some, add-zero) at d.slots);
      invalid =
          rw (filter-dead h.contexts todo a)
            (simp (somes-append, somes-map-some, length-append {0}, add-zero) at d.invalid);
      moveback =
          rw (filter-dead_live h.contexts todo a, live_before-dead h.contexts _ todo a)
            (omega (arith, d.moveback, length-append front (none ∷ [])));
    }

  module _ (f : FirstLive h.contexts todo) where
    abbrev go : Sweep
    go = moved entries iterator h front gap todo rest hole f

    abbrev front_go : Slots
    front_go = front ++ (some f.found ∷ [])

    abbrev gap_go : Slots
    gap_go = gap ++ (map some f.dead ++ (none ∷ []))

    abbrev length_todo : length todo ≡ length f.dead + suc (length f.later)
    length_todo = length-split entries iterator h front gap todo rest hole f

    length-gap_go : length gap_go ≡ length gap + suc (length f.dead)
    length-gap_go = omega (
      arith,
      length-append gap (map some f.dead ++ (none ∷ [])),
      length-append (map some f.dead) (none ∷ []),
      length-map-some f.dead,
    )

    dead_todo : filter (is_dead h.contexts) todo ≡ f.dead ++ filter (is_dead h.contexts) f.later
    dead_todo =
        ap (filter (is_dead h.contexts)) f.split
        ∙ filter_dead-split h.contexts f.dead f.found f.later f.all_dead f.living

    live_todo : filter (is_live h.contexts) todo ≡ f.found ∷ filter (is_live h.contexts) f.later
    live_todo =
        ap (filter (is_live h.contexts)) f.split
        ∙ filter_live-split h.contexts f.dead f.found f.later f.all_dead f.living

    before_todo :
        (n : ℕ)
        → live_before h.contexts n todo ≡ (
            if ltb (length f.dead) n
            then suc (live_before h.contexts (n - suc (length f.dead)) f.later)
            else 0)
    before_todo n =
        ap (live_before h.contexts n) f.split
        ∙ live_before-split h.contexts n f.dead f.found f.later f.all_dead f.living

    somes_go : somes gap_go ≡ somes gap ++ f.dead
    somes_go = simp (somes-append, somes-map-some, append-nil)

    count-todo : (c : ℕ) → count c (somes gap_go ++ f.later) ≤ count c (somes gap ++ todo)
    count-todo c =
        rw (somes_go, f.split)
          (omega (
            arith,
            count-append c (somes gap ++ f.dead) f.later,
            count-append c (somes gap) f.dead,
            count-append c (somes gap) (f.dead ++ (f.found ∷ f.later)),
            count-append c f.dead (f.found ∷ f.later),
          ))

    go-At : At entries go front_go gap_go f.later rest
    go-At = record {
      slots = simp (append_assoc);
      index = omega (arith, hole.index, length-append front (some f.found ∷ []));
      probe =
          omega
            (arith, hole.total, hole.index, length-append front (some f.found ∷ []), length-gap_go);
      total =
          omega (
            arith,
            hole.total,
            length-append front (some f.found ∷ []),
            length-gap_go,
            length_todo,
          );
      is_gap = IsGap-append h.contexts gap (map some f.dead ++ (none ∷ [])) is_gap (
          IsGap-append h.contexts (map some f.dead) (none ∷ [])
            (IsGap-AllDead h.contexts f.dead f.all_dead) tt);
      held = Holds-fewer (somes gap ++ todo) (somes gap_go ++ f.later) count-todo held;
    }

    abbrev dead_later : List ℕ
    dead_later = filter (is_dead h.contexts) f.later

    nulls : length gap_go + length dead_later ≡ suc (length gap) + length (f.dead ++ dead_later)
    nulls = omega (arith, length-gap_go, length-append f.dead dead_later)

    abbrev live_later : List ℕ
    live_later = filter (is_live h.contexts) f.later

    same_index :
        iterator - (length front_go + length gap_go)
        ≡ iterator - (length front + suc (length gap)) - suc (length f.dead)
    same_index = omega (arith, length-gap_go, length-append front (some f.found ∷ []))

    length-front_go : length front_go ≡ suc (length front)
    length-front_go = omega (arith, length-append front (some f.found ∷ []))

    same_moveback :
        go.iterator_moveback
          + (min iterator (length front_go + length live_later)
              - (length front_go
                  + live_before h.contexts (iterator - (length front_go + length gap_go)) f.later))
        ≡ go.iterator_moveback
          + (min iterator (suc (length front) + length live_later)
              - (suc (length front)
                  + live_before h.contexts
                      (iterator - (length front + suc (length gap)) - suc (length f.dead))
                      f.later))
    same_moveback i =
        go.iterator_moveback
        + (min iterator (length-front_go i + length live_later)
            - (length-front_go i + live_before h.contexts (same_index i) f.later))

    go_back :
        (t : Sweep)
        → Done iterator go front_go gap_go f.later rest t
        → Done iterator h front (none ∷ gap) todo rest t
    go_back t d = record {
      contexts = rw dead_todo (simp (somes_go, append_assoc) at d.contexts);
      slots =
          rw (dead_todo, live_todo)
            (d.slots
              ∙ append_assoc front (some f.found ∷ []) (
                  map some live_later
                  ++ (replicate (length gap_go + length dead_later) none ++ rest))
              ∙ ap
                  (λ n.
                    front ++ (some f.found ∷ (map some live_later ++ (replicate n none ++ rest))))
                  nulls);
      invalid = rw dead_todo (
          omega (
            arith,
            d.invalid,
            ap length somes_go,
            length-append (somes gap) f.dead,
            length-append f.dead dead_later,
          ));
      moveback =
          rw (live_todo, before_todo)
            (moveback_step (length front) (length gap) (length f.dead) (length live_later)
              (live_before h.contexts
                (iterator - (length front + suc (length gap)) - suc (length f.dead)) f.later)
              iterator h.iterator_moveback t.iterator_moveback
              (live_before-le h.contexts
                (iterator - (length front + suc (length gap)) - suc (length f.dead)) f.later)
              (d.moveback ∙ same_moveback));
    }

  -- The round that begins at an invalid entry.
  pub refill-Round :
      (s' : Sweep) × (refill entries iterator h ≡ some s')
      × Round entries iterator h front (none ∷ gap) todo rest s'
  refill-Round = elim (first_live h.contexts todo held_todo) [
    | inl a ↦ (
      stay a,
      refill_none entries iterator h front gap todo rest hole a,
      record {
        front' = front ++ (none ∷ []);
        gap' = gap ++ map some todo;
        todo' = [];
        at = stay-At a;
        fewer = omega (arith, length-append gap (map some todo), length-map-some todo);
        back = stay_back a;
      },
    )
    | inr f ↦ (
      go f,
      refill_live entries iterator h front gap todo rest hole f,
      record {
        front' = front_go f;
        gap' = gap_go f;
        todo' = f.later;
        at = go-At f;
        fewer = omega (arith, length-gap_go f, length_todo f);
        back = go_back f;
      },
    )
  ]
    where
      held_todo : Holds h.contexts todo
      held_todo =
          Holds-fewer (somes gap ++ todo) todo (λ c. omega (arith, count-append c (somes gap) todo))
            held
