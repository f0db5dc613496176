-- ===== src/Collection/Coalesce/Entry.antt =====
-- The body of the outer loop of dx_collection_coalesce on each kind of entry.
use disir_c.Prelude.{ℕ, ◌+◌, ◌≡◌, true, false, none, some, ◌∷◌, ◌++◌, arith, get_elem?, length}
use disir_c.Collection.{Slots, Sweep, refill, sweep_entry, drop_entry}
use disir_c.Collection.Lists.{get_elem?-middle}

abbrev pub advance : Sweep → Sweep
advance s = record s { index = s.index + 1 }

module _ (entries iterator : ℕ) where
  -- the entry at `index` is the one behind `front`
  pub entry_null :
      (s : Sweep) (front back : Slots)
      → s.slots ≡ front ++ (none ∷ back)
      → s.index ≡ length front
      → sweep_entry entries iterator s ≡ refill entries iterator (advance s)
  unfolding sweep_entry
  entry_null s front back e p =
      let at : get_elem? s.slots s.index ≡ some none =
        rw (e, p) (get_elem?-middle front back none) in
      ground arith

  pub entry_dead :
      (s : Sweep) (front back : Slots) (d : ℕ)
      → s.slots ≡ front ++ (some d ∷ back)
      → s.index ≡ length front
      → s.contexts.allocated d ≡ true
      → s.contexts.destroyed d ≡ true
      → sweep_entry entries iterator s ≡ refill entries iterator (drop_entry d (advance s))
  unfolding sweep_entry
  entry_dead s front back d e p a x =
      let at : get_elem? s.slots s.index ≡ some (some d) =
        rw (e, p) (get_elem?-middle front back (some d)) in
      ground arith

  pub entry_live :
      (s : Sweep) (front back : Slots) (c : ℕ)
      → s.slots ≡ front ++ (some c ∷ back)
      → s.index ≡ length front
      → s.contexts.allocated c ≡ true
      → s.contexts.destroyed c ≡ false
      → sweep_entry entries iterator s ≡ some (advance s)
  unfolding sweep_entry
  entry_live s front back c e p a x =
      let at : get_elem? s.slots s.index ≡ some (some c) =
        rw (e, p) (get_elem?-middle front back (some c)) in
      ground arith
