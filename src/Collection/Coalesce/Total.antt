-- ===== src/Collection/Coalesce/Total.antt =====
-- The outer loop of dx_collection_coalesce from any of its states to the end.
use disir_c.Prelude.{ℕ, zero, suc, ◌+◌, ◌≡◌, refl, ◌∙◌, some, List, [], ◌∷◌, arith, length}
use disir_c.Collection.{Slots, Sweep, sweep_entry, sweep}
use disir_c.Collection.Coalesce.State.{At, Done}
use disir_c.Collection.Coalesce.Step.{step}

module _ (entries iterator : ℕ) where
  nothing_left :
      (s : Sweep) (front : Slots) (rest : Slots)
      → At entries s front [] [] rest
      → Done iterator s front [] [] rest s
  nothing_left s front rest at = record {
    contexts = refl;
    slots = at.slots;
    invalid = omega arith;
    moveback = omega arith;
  }

  sweep-zero : (s : Sweep) → sweep zero entries iterator s ≡ some s
  unfolding sweep
  sweep-zero s = refl

  sweep_next :
      (rounds : ℕ) (s s' : Sweep)
      → sweep_entry entries iterator s ≡ some s'
      → sweep (suc rounds) entries iterator s ≡ sweep rounds entries iterator s'
  unfolding sweep
  sweep_next rounds s s' e = ground arith

  pub sweep-Done :
      (rounds : ℕ) (s : Sweep) (front gap : Slots) (todo : List ℕ) (rest : Slots)
      → At entries s front gap todo rest
      → rounds ≡ length gap + length todo
      → (t : Sweep) × (sweep rounds entries iterator s ≡ some t)
        × Done iterator s front gap todo rest t
  sweep-Done zero s front [] [] rest at n = (s, sweep-zero s, nothing_left s front rest at)
  sweep-Done zero s front (g ∷ gap) todo rest at n = absurd (omega arith)
  sweep-Done zero s front [] (c ∷ todo) rest at n = absurd (omega arith)
  sweep-Done (suc rounds) s front gap todo rest at n =
      let (s', e, r) = step entries iterator s front gap todo rest at (omega arith) in
      let (t, e', d) =
        sweep-Done rounds s' r.front' r.gap' r.todo' rest r.at (omega (arith, r.fewer)) in
      (t, sweep_next rounds s s' e ∙ e', r.back t d)
