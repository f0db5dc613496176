-- ===== src/Update/Drive.antt =====
-- dx_update_config_with_changes of lib/update.c: an update that resolves its conflicts by itself.
use disir_c.Prelude.{ℕ, zero, suc, Bool, true, false, ◌&&◌, Option, none, some, List, if◌then◌else◌}
use disir_c.Status.{Status, conflict, no_can_do, restriction_violated, is_ok}
use disir_c.Value.{Platform, Value}
use disir_c.Version.{Version}
use disir_c.Update.{Keyval, Elements, Update}
use disir_c.Update.Run.{and_then, update_continue, update_config, update_resolve}

abbrev pub is_conflict : Status → Bool
is_conflict conflict = true
is_conflict _ = false

abbrev pub is_restriction_violated : Status → Bool
is_restriction_violated restriction_violated = true
is_restriction_violated _ = false

module _ (P : Platform) where
  -- How a run ends: the function returns, a fault happens, or the rounds are used up.
  pub data Ending : Type 0 where
    ended : Status → Option (Update P) → Ending
    faulted : Ending
    running : Ending

  abbrev pub is_running : Ending → Bool
  is_running running = true
  is_running _ = false

  -- The loop goes on with an update, or leaves for the label `error`.
  pub data Turn : Type 0 where
    go : Update P → Turn
    leave : Status → Turn

  abbrev pub after_resolve : Status × Option (Update P) → Update P → Update P
  after_resolve (s, none) u = u
  after_resolve (s, some v) u = v

  -- Both calls of disir_update_resolve. `assign` is the status of setting a text as the value of a
  -- keyval in the config for the target; of the second call the status is not looked at.
  abbrev pub resolve_turn :
      Bool → (Keyval P → List ℕ → Status) → Update P → Keyval P → List ℕ → List ℕ → Turn
  resolve_turn discard assign u k mine theirs =
      let first : Status × Option (Update P) = update_resolve P (assign k mine) (some u) in
      if is_ok first.0
      then go (after_resolve first u)
      else if is_restriction_violated first.0 && discard
      then go (
          after_resolve (update_resolve P (assign k theirs) (some (after_resolve first u)))
            (after_resolve first u))
      else leave first.0

  -- The call of disir_update_conflict, and the turn; a text that is NULL is a fault.
  abbrev pub conflict_turn : Bool → (Keyval P → List ℕ → Status) → Update P → Option Turn
  conflict_turn discard assign u = elim u.up_keyval [
    | none ↦ some (leave no_can_do)
    | some k ↦ and_then u.up_config_value (λ mine.
        and_then u.up_mold_value (λ theirs. some (resolve_turn discard assign u k mine theirs)))
  ]

  module _ (introduced : ℕ → Version) (de_value : ℕ → Value P) (rounds : ℕ) (memory : List ℕ)
      (discard : Bool) (assign : Keyval P → List ℕ → Status) (finished : Status) where
    -- The loop, with a number of rounds. Behind it the function returns `finished`, the status of
    -- disir_config_finished on the config before the update.
    unfoldable pub drive : ℕ → Status → Update P → Ending
    drive zero s u = running
    drive (suc n) s u = elim (is_conflict s) [
      | false ↦ ended finished (some u)
      | true ↦ elim (conflict_turn discard assign u) [
        | none ↦ faulted
        | some (leave t) ↦ ended t (some u)
        | some (go v) ↦ elim (update_continue P introduced de_value rounds memory (some v)) [
          | none ↦ faulted
          | some (t, none) ↦ ended finished none
          | some (t, some w) ↦ drive n t w
        ]
      ]
    ]

    -- dx_update_config_with_changes, which updates to the version of the mold; without a conflict it
    -- returns at once.
    abbrev pub update_config_with_changes : ℕ → Status → Version → Version → Elements P → Ending
    update_config_with_changes n generated old mo_version es =
        elim (update_config P introduced de_value rounds memory generated old mo_version es
          (some mo_version)) [
            | none ↦ faulted
            | some (s, none) ↦ ended s none
            | some (s, some u) ↦ elim (is_conflict s) [
              | false ↦ ended s (some u)
              | true ↦ drive n s u
            ]
          ]
