-- ===== src/Collection/Coalesce/Seek.antt =====
-- The inner loop of dx_collection_coalesce: it stops behind the first context in use.
use mathlib.Core.List.{append_assoc}
use mathlib.Core.Path.{ap₂}
use native.Mathlib.Nat.{suc-add}
use disir_c.Prelude.{
  ℕ, zero, suc, ◌+◌, ◌≡◌, ap, sym, ◌∙◌, true, false, some, List, [], ◌∷◌, ◌++◌, map, arith,
  get_elem?, length, length-append,
}
use disir_c.Collection.{Slots, Sweep, seek, move}
use disir_c.Collection.Lists.{AllDead, get_elem?-middle, length-map-some}

module _ (iterator : ℕ) where
  seek_step :
      (rounds : ℕ) (s : Sweep) (d : ℕ)
      → get_elem? s.slots s.probe ≡ some (some d)
      → s.contexts.allocated d ≡ true
      → s.contexts.destroyed d ≡ true
      → seek (suc rounds) iterator s ≡ seek rounds iterator (record s { probe = s.probe + 1 })
  unfolding seek
  seek_step rounds s d e a x = ground arith

  seek_stop :
      (rounds : ℕ) (s : Sweep) (c : ℕ)
      → get_elem? s.slots s.probe ≡ some (some c)
      → s.contexts.allocated c ≡ true
      → s.contexts.destroyed c ≡ false
      → seek (suc rounds) iterator s ≡ some (move iterator c s)
  unfolding seek
  seek_stop rounds s c e a x = ground arith

  -- Over destroyed contexts only `probe` moves.
  seek_dead :
      (rounds : ℕ) (s : Sweep) (front back : Slots) (ds : List ℕ)
      → s.slots ≡ front ++ (map some ds ++ back)
      → s.probe ≡ length front
      → AllDead s.contexts ds
      → seek (length ds + rounds) iterator s
        ≡ seek rounds iterator (record s { probe = length front + length ds })
  seek_dead rounds s front back [] e p a =
      ap₂ (λ n m. seek n iterator (record s { probe = m })) (omega arith) (omega arith)
  seek_dead rounds s front back (d ∷ ds) e p a =
      let at : get_elem? s.slots s.probe ≡ some (some d) =
        rw (e, p) (get_elem?-middle front (map some ds ++ back) (some d)) in
      let next : Sweep = record s { probe = s.probe + 1 } in
      rw suc-add (
        seek_step (length ds + rounds) s d at a.0 a.1
        ∙ seek_dead rounds next (front ++ (some d ∷ [])) back ds
            (e ∙ sym (append_assoc front (some d ∷ []) (map some ds ++ back)))
            (omega (arith, length-append front (some d ∷ []))) a.2
        ∙ ap (λ m. seek rounds iterator (record s { probe = m }))
            (omega (arith, length-append front (some d ∷ []))))

  -- No context in use is left: the inner loop runs to the end.
  pub seek_none :
      (s : Sweep) (front back : Slots) (ds : List ℕ)
      → s.slots ≡ front ++ (map some ds ++ back)
      → s.probe ≡ length front
      → AllDead s.contexts ds
      → seek (length ds) iterator s ≡ some (record s { probe = length front + length ds })
  unfolding seek
  seek_none s front back ds e p a =
      ap (λ n. seek n iterator s) (omega arith) ∙ seek_dead zero s front back ds e p a

  -- The first context in use, behind the destroyed ones, is moved.
  pub seek_live :
      (rounds : ℕ) (s : Sweep) (front back : Slots) (ds : List ℕ) (c : ℕ)
      → s.slots ≡ front ++ (map some ds ++ (some c ∷ back))
      → s.probe ≡ length front
      → AllDead s.contexts ds
      → s.contexts.allocated c ≡ true
      → s.contexts.destroyed c ≡ false
      → seek (length ds + suc rounds) iterator s
        ≡ some (move iterator c (record s { probe = length front + length ds }))
  seek_live rounds s front back ds c e p a x y =
      let at : get_elem? s.slots (length front + length ds) ≡ some (some c) = rw e (
        rw (← length-map-some ds) (
          rw (← length-append front (map some ds)) (
            rw (← append_assoc front (map some ds) (some c ∷ back))
              (get_elem?-middle (front ++ map some ds) back (some c))))) in
      seek_dead (suc rounds) s front (some c ∷ back) ds e p a
      ∙ seek_stop rounds (record s { probe = length front + length ds }) c at x y
