-- ===== src/Collection/Coalesce/Refill.antt =====
-- One slot of the compacted front: the next context in use moves in, or NULL stays.
use mathlib.Core.List.{append_assoc, map-append}
use mathlib.Core.Path.{ap₂}
use disir_c.Prelude.{
  ℕ, suc, ◌+◌, ◌-◌, ◌≡◌, refl, ap, sym, ◌∙◌, Option, none, some, List, ◌∷◌, ◌++◌, map, max, arith,
  set, length, length-append, if◌then◌else◌, ltb, leb, ◌&&◌,
}
use disir_c.Collection.{Slots, Sweep, seek, refill, move}
use disir_c.Collection.Lists.{AllDead, set-middle, set-behind, FirstLive}
use disir_c.Collection.Coalesce.Seek.{seek_none, seek_live}

-- The state behind an invalid entry: its slot is NULL, `gap` and `todo` are still to be swept.
pub record Hole (entries : ℕ) (s : Sweep) (front gap : Slots) (todo : List ℕ) (rest : Slots)
    : Type 0 where
  pub slots : s.slots ≡ front ++ (none ∷ (gap ++ (map some todo ++ rest)))
  pub index : s.index ≡ suc (length front)
  pub probe : max s.probe s.index ≡ suc (length front + length gap)
  pub total : entries ≡ suc (length front + length gap) + length todo

module _ (entries iterator : ℕ) (s : Sweep) (front gap : Slots) (todo : List ℕ) (rest : Slots)
    (h : Hole entries s front gap todo rest) where
  around : Slots
  around = front ++ (none ∷ gap)

  length-around : length around ≡ suc (length front + length gap)
  unfolding around
  length-around = omega (arith, length-append front (none ∷ gap))

  around-slots : s.slots ≡ around ++ (map some todo ++ rest)
  unfolding around
  around-slots = h.slots ∙ sym (append_assoc front (none ∷ gap) (map some todo ++ rest))

  pub refill_none :
      AllDead s.contexts todo → refill entries iterator s ≡ some (record s { probe = entries })
  refill_none a =
      ap₂ (λ n m. seek n iterator (record s { probe = m })) (omega (arith, h.probe, h.total))
        (h.probe ∙ sym length-around)
      ∙ seek_none iterator (record s { probe = length around }) around rest todo around-slots refl a
      ∙ ap (λ m. some (record s { probe = m })) (omega (arith, length-around, h.total))

  module _ (f : FirstLive s.contexts todo) where
    -- where the next context in use stands
    found_at : ℕ
    found_at = length around + length f.dead

    behind : Slots
    behind = map some f.later ++ rest

    split-slots : s.slots ≡ around ++ (map some f.dead ++ (some f.found ∷ behind))
    unfolding behind
    split-slots =
        around-slots
        ∙ ap (λ (l : List ℕ). around ++ (map some l ++ rest)) f.split
        ∙ ap (λ (l : Slots). around ++ (l ++ rest)) (map-append some f.dead (f.found ∷ f.later))
        ∙ ap (λ (l : Slots). around ++ l)
            (append_assoc (map some f.dead) (some f.found ∷ map some f.later) rest)

    -- the array after the move
    abbrev filled : Slots
    filled =
        front ++ (some f.found ∷ (gap ++ (map some f.dead ++ (none ∷ (map some f.later ++ rest)))))

    set_found : set s.slots found_at none ≡ around ++ (map some f.dead ++ (none ∷ behind))
    unfolding found_at
    set_found =
        ap (λ (l : Slots). set l (length around + length f.dead) none) split-slots
        ∙ set-behind around f.dead behind (some f.found) none

    set_front : set (set s.slots found_at none) (length front) (some f.found) ≡ filled
    unfolding around behind
    set_front =
        ap (λ (l : Slots). set l (length front) (some f.found))
          (set_found ∙ append_assoc front (none ∷ gap) (map some f.dead ++ (none ∷ behind)))
        ∙ set-middle front (gap ++ (map some f.dead ++ (none ∷ behind))) none (some f.found)

    pub length-split : length todo ≡ length f.dead + suc (length f.later)
    length-split = rw f.split (length-append f.dead (f.found ∷ f.later))

    -- what the move adds to iterator_moveback
    abbrev pub moved_back : ℕ
    moved_back =
        if leb iterator (suc (length front + length gap) + length f.dead)
          && ltb (length front) iterator
        then s.iterator_moveback + 1
        else s.iterator_moveback

    abbrev pub moved : Sweep
    moved = record s {
      slots = filled;
      probe = suc (suc (length front + length gap) + length f.dead);
      iterator_moveback = moved_back;
    }

    abbrev as_moved : ℕ → ℕ → ℕ → Slots → Option Sweep
    as_moved from index probe l = some (record s {
      slots = l;
      probe = probe;
      iterator_moveback =
          if leb iterator from && ltb index iterator
          then s.iterator_moveback + 1
          else s.iterator_moveback;
    })

    index-slot : s.index - 1 ≡ length front
    index-slot = omega (arith, h.index)

    written :
        set (set s.slots (length around + length f.dead) none) (s.index - 1) (some f.found) ≡ filled
    unfolding found_at
    written = ap (λ i. set (set s.slots found_at none) i (some f.found)) index-slot ∙ set_front

    move-moved :
        ◌≡◌ {A = Option Sweep}
          (some (move iterator f.found (record s { probe = length around + length f.dead })))
          (some moved)
    move-moved i = as_moved (from i) (index-slot i) (next i) (written i)
      where
        from : length around + length f.dead ≡ suc (length front + length gap) + length f.dead
        from = omega (arith, length-around)

        next :
            length around + length f.dead + 1
            ≡ suc (suc (length front + length gap) + length f.dead)
        next = omega (arith, length-around)

    pub refill_live : refill entries iterator s ≡ some moved
    refill_live =
        ap₂ (λ n m. seek n iterator (record s { probe = m }))
          (omega (arith, h.probe, h.total, length-split)) (h.probe ∙ sym length-around)
        ∙ seek_live iterator (length f.later) (record s { probe = length around }) around behind
            f.dead f.found split-slots refl f.all_dead f.allocated f.living
        ∙ move-moved
