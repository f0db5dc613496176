-- ===== src/Update/Turns.antt =====
-- One turn of the loop of dx_update_config_with_changes of lib/update.c.
use disir_c.Prelude.{
  ℕ, suc, ◌+◌, ◌<◌, Bool, true, false, not, ◌&&◌, ◌||◌, Option, none, some, List, [], ◌∷◌, ◌≡◌,
  refl, inl, inr, ◌⊎◌, Bool-cases, Option-cases, length, arith,
}
use disir_c.Status.{Status, ok, conflict, restriction_violated, is_ok}
use disir_c.Value.{Platform, Value}
use disir_c.Version.{Version}
use disir_c.Update.{Keyval, Update}
use disir_c.Update.Run.{
  keep, replace, clash, and_then, fate, passes_by, signal, text_of, run, update_continue,
  update_resolve,
}
use disir_c.Update.Drive.{
  is_conflict, is_restriction_violated, Turn, go, leave, resolve_turn, conflict_turn,
}

module _ (P : Platform) where
  -- The update with its conflict removed.
  abbrev cleared : Update P → Update P
  cleared u = record u {
    up_updated = u.up_updated + 1;
    up_keyval = none;
    up_config_value = none;
    up_mold_value = none;
  }

  resolve-ok :
      (u : Update P) (k : Keyval P) (s : Status)
      → u.up_keyval ≡ some k
      → is_ok s ≡ true
      → update_resolve P s (some u) ≡ (ok, some (cleared u))
  resolve-ok u k s e h = rw (e, update_resolve) (rw h refl)

  resolve-fails :
      (u : Update P) (k : Keyval P) (s : Status)
      → u.up_keyval ≡ some k
      → is_ok s ≡ false
      → update_resolve P s (some u) ≡ (s, some u)
  resolve-fails u k s e h = ground (arith, e, h)

  -- A run does not stop at a conflict, or it leaves less than `n` keyvals.
  abbrev pub Shrinks : Option (Status × Update P) → ℕ → Type 0
  Shrinks none n = Unit {0}
  Shrinks (some (s, w)) n = (is_conflict s ≡ false) ⊎ (length w.up_collection < n)

  Shrinks-suc : (r : Option (Status × Update P)) (n : ℕ) → Shrinks r n → Shrinks r (suc n)
  Shrinks-suc none n h = tt
  Shrinks-suc (some (s, w)) n (inl h) = inl h
  Shrinks-suc (some (s, w)) n (inr h) = inr (omega (arith, h))

  module _ (introduced : ℕ → Version) (de_value : ℕ → Value P) (rounds : ℕ) (memory : List ℕ) where
    signal-Shrinks :
        (u : Update P) (k : Keyval P) (ks : List (Keyval P)) (d : ℕ)
        → Shrinks (signal P introduced de_value rounds memory u k ks d) (suc (length ks))
    signal-Shrinks u k ks d =
        elim (Option-cases (text_of P introduced de_value rounds memory k.kv_value)) [
          | inl e ↦ rw (e, signal) tt
          | inr (mine, e) ↦
              elim (Option-cases (text_of P introduced de_value rounds memory (de_value d))) [
                | inl f ↦ rw (e, signal) (rw f tt)
                | inr (theirs, f) ↦ rw (e, signal) (rw f (inr (omega arith)))
              ]
        ]

    run-Shrinks :
        (u : Update P) (ks : List (Keyval P))
        → Shrinks (run P introduced de_value rounds memory u ks) (length ks)
    unfolding run
    run-Shrinks u [] = inl refl
    run-Shrinks u (k ∷ ks) =
        elim (Option-cases (fate P introduced de_value rounds u.up_target u.cf_version k)) [
          | inl e ↦ rw (e, run) tt
          | inr (keep, e) ↦
              rw (e, run)
                (Shrinks-suc _ _ (run-Shrinks (passes_by P introduced de_value rounds u k ks) ks))
          | inr (replace v, e) ↦
              rw (e, run)
                (Shrinks-suc _ _ (
                  run-Shrinks
                    (record (passes_by P introduced de_value rounds u (record k { kv_value = v })
                      ks) { up_updated = u.up_updated + 1 })
                    ks))
          | inr (clash d, e) ↦ rw (e, run) (signal-Shrinks u k ks d)
        ]

    module _ (discard : Bool) (assign : Keyval P → List ℕ → Status) where
      -- Setting the config's own text succeeds, or ends the loop, or the text of the mold's default
      -- can be set.
      abbrev pub is_resolved : Keyval P → List ℕ → List ℕ → Bool
      is_resolved k mine theirs =
          is_ok (assign k mine)
          || (not (is_restriction_violated (assign k mine) && discard) || is_ok (assign k theirs))

      -- One turn either leaves, or goes on with no conflict and the same keyvals to come.
      abbrev pub Clears : ℕ → Option (Turn P) → Type 0
      Clears n none = Unit {0}
      Clears n (some (leave t)) = Unit {0}
      Clears n (some (go v)) = (v.up_keyval ≡ none) × (length v.up_collection ≡ n)

      resolve_turn-Clears :
          (u : Update P) (k : Keyval P) (mine theirs : List ℕ)
          → u.up_keyval ≡ some k
          → is_resolved k mine theirs ≡ true
          → Clears (length u.up_collection) (some (resolve_turn P discard assign u k mine theirs))
      resolve_turn-Clears u k mine theirs e h = elim (Bool-cases (is_ok (assign k mine))) [
        | inl a ↦ rw (resolve-ok u k (assign k mine) e a, resolve_turn) (refl, refl)
        | inr a ↦ elim (Bool-cases (is_restriction_violated (assign k mine) && discard)) [
          | inl b ↦
              let c : is_ok (assign k theirs) ≡ true = ground (arith, a, b, h) in
              rw (resolve-fails u k (assign k mine) e a, resolve_turn)
                (rw (a, b) (rw (resolve-ok u k (assign k theirs) e c) (refl, refl)))
          | inr b ↦ rw (resolve-fails u k (assign k mine) e a, resolve_turn) (rw (a, b) tt)
        ]
      ]

      pub resolve_turn-stays :
          (u : Update P) (k : Keyval P) (mine theirs : List ℕ)
          → u.up_keyval ≡ some k
          → assign k mine ≡ restriction_violated
          → discard ≡ true
          → is_ok (assign k theirs) ≡ false
          → resolve_turn P discard assign u k mine theirs ≡ go u
      resolve_turn-stays u k mine theirs e a d f =
          rw (resolve-fails u k (assign k mine) e (rw a refl), resolve_turn)
            (rw (a, d) (rw (resolve-fails u k (assign k theirs) e f) refl))

      pub continue-stays :
          (u : Update P) (k : Keyval P)
          → u.up_keyval ≡ some k
          → update_continue P introduced de_value rounds memory (some u) ≡ some (conflict, some u)
      continue-stays u k e = ground (arith, e)

      no_mine :
          (u : Update P) (k : Keyval P)
          → u.up_keyval ≡ some k
          → u.up_config_value ≡ none
          → conflict_turn P discard assign u ≡ none
      no_mine u k e em = ground (arith, e, em)

      no_theirs :
          (u : Update P) (k : Keyval P) (mine : List ℕ)
          → u.up_keyval ≡ some k
          → u.up_config_value ≡ some mine
          → u.up_mold_value ≡ none
          → conflict_turn P discard assign u ≡ none
      no_theirs u k mine e em eh = ground (arith, e, em, eh)

      pub turn_of :
          (u : Update P) (k : Keyval P) (mine theirs : List ℕ)
          → u.up_keyval ≡ some k
          → u.up_config_value ≡ some mine
          → u.up_mold_value ≡ some theirs
          → conflict_turn P discard assign u ≡ some (resolve_turn P discard assign u k mine theirs)
      turn_of u k mine theirs e em eh = ground (arith, e, em, eh)

      pub conflict_turn-Clears :
          (u : Update P)
          → ((k : Keyval P) (mine theirs : List ℕ) → is_resolved k mine theirs ≡ true)
          → Clears (length u.up_collection) (conflict_turn P discard assign u)
      conflict_turn-Clears u h = elim (Option-cases u.up_keyval) [
        | inl e ↦ simp (e, conflict_turn) tt
        | inr (k, e) ↦ elim (Option-cases u.up_config_value) [
          | inl em ↦ rw (no_mine u k e em) tt
          | inr (mine, em) ↦ elim (Option-cases u.up_mold_value) [
            | inl eh ↦ rw (no_theirs u k mine e em eh) tt
            | inr (theirs, eh) ↦
                rw (turn_of u k mine theirs e em eh)
                  (resolve_turn-Clears u k mine theirs e (h k mine theirs))
          ]
        ]
      ]

      abbrev pub Follows : Option (Status × Option (Update P)) → ℕ → Type 0
      Follows none n = Unit {0}
      Follows (some (s, none)) n = Unit {0}
      Follows (some (s, some w)) n = (is_conflict s ≡ false) ⊎ (length w.up_collection < n)

      Follows-lift :
          (r : Option (Status × Update P)) (n : ℕ)
          → Shrinks r n
          → Follows (and_then r (λ q. some (q.0, some q.1))) n
      Follows-lift none n h = tt
      Follows-lift (some (s, w)) n h = h

      continue-runs :
          (v : Update P)
          → v.up_keyval ≡ none
          → update_continue P introduced de_value rounds memory (some v)
            ≡ and_then
                (run P introduced de_value rounds memory v v.up_collection)
                (λ q. some (q.0, some q.1))
      continue-runs v e = simp (e, update_continue) refl

      pub continue-Follows :
          (v : Update P)
          → v.up_keyval ≡ none
          → Follows
              (update_continue P introduced de_value rounds memory (some v))
              (length v.up_collection)
      continue-Follows v e = rw (continue-runs v e) (
          Follows-lift (run P introduced de_value rounds memory v v.up_collection)
            (length v.up_collection) (run-Shrinks v v.up_collection))
