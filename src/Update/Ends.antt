-- ===== src/Update/Ends.antt =====
-- Whether dx_update_config_with_changes of lib/update.c returns.
use disir_c.Prelude.{ℕ, zero, suc, ◌+◌, ◌<◌, Bool, true, false, some, List, ◌≡◌, refl, ◌⊎◌, length}
use disir_c.Status.{Status, conflict, restriction_violated, is_ok}
use disir_c.Value.{Platform, Value}
use disir_c.Version.{Version}
use disir_c.Update.{Keyval, Update}
use disir_c.Update.Turns.{resolve_turn-stays, continue-stays, turn_of}
use disir_c.Update.Drive.{running, is_conflict, drive}

module _ (P : Platform) (introduced : ℕ → Version) (de_value : ℕ → Value P) (rounds : ℕ)
    (memory : List ℕ) (discard : Bool) (assign : Keyval P → List ℕ → Status)
    (finished : Status) where
  -- Where the texts of a conflict are both refused, the one of the config for a violated restriction,
  -- and violations are to be discarded, no number of rounds ends the loop.
  pub drive-loops :
      (u : Update P) (k : Keyval P) (mine theirs : List ℕ)
      → u.up_keyval ≡ some k
      → u.up_config_value ≡ some mine
      → u.up_mold_value ≡ some theirs
      → assign k mine ≡ restriction_violated
      → discard ≡ true
      → is_ok (assign k theirs) ≡ false
      → (n : ℕ)
      → drive P introduced de_value rounds memory discard assign finished n conflict u ≡ running
  unfolding drive
  drive-loops u k mine theirs e em eh a d f zero = refl
  drive-loops u k mine theirs e em eh a d f (suc n) =
      rw
        (
          turn_of P introduced de_value rounds memory discard assign u k mine theirs e em eh,
          resolve_turn-stays P introduced de_value rounds memory discard assign u k mine theirs e a
              d f,
          drive,
        )
        (rw (continue-stays P introduced de_value rounds memory discard assign u k e)
          (drive-loops u k mine theirs e em eh a d f n))

  -- Rounds enough for what is left: one for the end, and one for each conflict.
  Enough : ℕ → Status → Update P → Type 0
  Enough n s u = ((is_conflict s ≡ false) × (0 < n)) ⊎ (length u.up_collection + 1 < n)
