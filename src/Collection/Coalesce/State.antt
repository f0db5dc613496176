-- ===== src/Collection/Coalesce/State.antt =====
-- The states of the outer loop of dx_collection_coalesce, and what the rounds leave.
use disir_c.Prelude.{
  ℕ, suc, ◌+◌, ◌-◌, ◌≡◌, none, some, List, ◌++◌, map, max, min, length, replicate, filter,
}
use disir_c.Context.{Holds, release}
use disir_c.Collection.{Slots, Sweep}
use disir_c.Collection.Lists.{IsGap, somes, is_dead, is_live, live_before}

-- The state before a round: `front` is swept, `gap` holds no context in use, `todo` is untouched.
pub record At (entries : ℕ) (s : Sweep) (front gap : Slots) (todo : List ℕ) (rest : Slots)
    : Type 0 where
  pub slots : s.slots ≡ front ++ (gap ++ (map some todo ++ rest))
  pub index : s.index ≡ length front
  pub probe : max s.probe (suc s.index) ≡ max (length front + length gap) (suc (length front))
  pub total : entries ≡ length front + length gap + length todo
  pub is_gap : IsGap s.contexts gap
  pub held : Holds s.contexts (somes gap ++ todo)

-- What the rounds from `s` on leave in `t`.
pub record Done (iterator : ℕ) (s : Sweep) (front gap : Slots) (todo : List ℕ) (rest : Slots)
    (t : Sweep) : Type 0 where
  pub contexts : t.contexts ≡ release (somes gap ++ filter (is_dead s.contexts) todo) s.contexts
  pub slots :
      t.slots
      ≡ front
        ++ (map some (filter (is_live s.contexts) todo)
            ++ (replicate (length gap + length (filter (is_dead s.contexts) todo)) none ++ rest))
  pub invalid :
      t.invalid_entries_count
      ≡ s.invalid_entries_count + (length (somes gap) + length (filter (is_dead s.contexts) todo))
  pub moveback :
      t.iterator_moveback
      ≡ s.iterator_moveback
        + (min iterator (length front + length (filter (is_live s.contexts) todo))
            - (length front + live_before s.contexts (iterator - (length front + length gap)) todo))

-- The state after a round, and how what is left from there is what is left from `s`.
pub record Round (entries iterator : ℕ) (s : Sweep) (front gap : Slots) (todo : List ℕ)
    (rest : Slots) (s' : Sweep) : Type 0 where
  pub front' : Slots
  pub gap' : Slots
  pub todo' : List ℕ
  pub at : At entries s' front' gap' todo' rest
  pub fewer : suc (length gap' + length todo') ≡ length gap + length todo
  pub back :
      (t : Sweep)
      → Done iterator s' front' gap' todo' rest t
      → Done iterator s front gap todo rest t
