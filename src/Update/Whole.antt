-- ===== src/Update/Whole.antt =====
-- A run of disir_update_continue of lib/update.c over the keyvals that are still to come.
use disir_c.Prelude.{ℕ, true, some, List, [], ◌∷◌, ◌++◌, ◌≡◌, refl, sym, ◌∙◌}
use mathlib.Core.List.{append_assoc, append-nil}
use disir_c.Status.{ok, conflict}
use disir_c.Value.{Platform, Value}
use disir_c.Value.Copy.{IsPlatform}
use disir_c.Version.{Version}
use disir_c.Update.{Keyval, Update}
use disir_c.Update.Run.{passes_by, text_of, signal, run}
use disir_c.Update.Merge.{
  IsReady, IsCopied, AllMerged, none_left, merged, AllCalm, calm_end, calm, is_clash,
}
use disir_c.Update.Steps.{calm_step, run-clash, fate-clashes}

module _ (P : Platform) (introduced : ℕ → Version) (de_value : ℕ → Value P) (rounds : ℕ) where
  -- The run ends with OK: the config has the version of the target, each keyval is merged, and none is
  -- left.
  pub record Updated (memory : List ℕ) (target old : Version) (u : Update P) (ks : List (Keyval P))
      : Type 0 where
    pub final : Update P
    pub answered : run P introduced de_value rounds memory u ks ≡ some (ok, final)
    pub version : final.cf_version ≡ target
    pub left : List (Keyval P)
    pub passed : final.passed ≡ u.passed ++ left
    pub all : AllMerged P introduced de_value rounds target old ks left
    pub nothing : final.up_collection ≡ []
    pub no_conflict : final.up_keyval ≡ u.up_keyval

  -- The run ends at a keyval that clashes: the keyvals before it are merged, those behind it are still
  -- to come, and the config keeps its version.
  pub record Stopped (memory : List ℕ) (target old : Version) (u : Update P)
      (before : List (Keyval P)) (k : Keyval P) (after : List (Keyval P)) : Type 0 where
    pub final : Update P
    pub answered :
        run P introduced de_value rounds memory u (before ++ (k ∷ after)) ≡ some (conflict, final)
    pub version : final.cf_version ≡ old
    pub left : List (Keyval P)
    pub passed : final.passed ≡ u.passed ++ (left ++ (k ∷ []))
    pub all : AllMerged P introduced de_value rounds target old before left
    pub rest : final.up_collection ≡ after
    pub found : final.up_keyval ≡ some k

  module _ (laws : IsPlatform P)
      (copied : (d : ℕ) → IsCopied P introduced de_value rounds (de_value d)) (memory : List ℕ)
      (target old : Version) where
    -- Where no keyval clashes, each is ready, the values of the defaults can be copied, and the
    -- platform fulfils its laws, the run ends with OK: the config has the version of the target, each
    -- keyval is merged, and none is left. A keyval is ready that has a default in force at both
    -- versions and a sound value of its type, where the versions fit in an int.
    pub run-Updated :
        (u : Update P) (ks : List (Keyval P))
        → u.up_target ≡ target
        → u.cf_version ≡ old
        → AllCalm P introduced de_value rounds target old ks
        → Updated memory target old u ks
    unfolding run
    run-Updated u [] et eo calm_end = record {
      final = record u { cf_version = u.up_target; up_collection = [] };
      answered = refl;
      version = et;
      left = [];
      passed = sym (append-nil u.passed);
      all = none_left;
      nothing = refl;
      no_conflict = refl;
    }
    run-Updated u (k ∷ ks) et eo (calm _ _ r h c) =
        let g = calm_step P introduced de_value rounds laws copied memory target old k r h in
        let (n, step) = g.goes u ks et eo in
        let next : Update P = record (passes_by P introduced de_value rounds u g.left ks) {
          up_updated = n;
        } in
        let w = run-Updated next ks et eo c in
        record {
          final = w.final;
          answered = step ∙ w.answered;
          version = w.version;
          left = g.left ∷ w.left;
          passed = w.passed ∙ append_assoc u.passed (g.left ∷ []) w.left;
          all = merged k g.left ks w.left r g.is_merged w.all;
          nothing = w.nothing;
          no_conflict = w.no_conflict;
        }

    -- Where a keyval clashes and those before it do not, all are ready, the values of the defaults can
    -- be copied, the platform fulfils its laws, and the two values can be printed, the run merges the
    -- keyvals before it and stops there with CONFLICT, the config keeps its version, and those behind
    -- it are still to come.
    pub run-Stopped :
        (u : Update P) (before : List (Keyval P)) (k : Keyval P) (after : List (Keyval P))
        → u.up_target ≡ target
        → u.cf_version ≡ old
        → AllCalm P introduced de_value rounds target old before
        → (r : IsReady P introduced de_value rounds target old k)
        → is_clash P introduced de_value rounds old r.theirs r.base k ≡ true
        → (mine theirs : List ℕ)
        → text_of P introduced de_value rounds memory k.kv_value ≡ some mine
        → text_of P introduced de_value rounds memory (de_value r.theirs) ≡ some theirs
        → Stopped memory target old u before k after
    run-Stopped u [] k after et eo calm_end r h mine theirs em eh = record {
      final = record (passes_by P introduced de_value rounds u k after) {
        up_keyval = some k;
        up_config_value = some mine;
        up_mold_value = some theirs;
      };
      answered =
          run-clash P introduced de_value rounds laws copied memory u k after r.theirs (
            rw (et, eo)
              (fate-clashes P introduced de_value rounds laws copied memory target old k r h))
          ∙ rw (em, signal) (rw eh refl);
      version = eo;
      left = [];
      passed = refl;
      all = none_left;
      rest = refl;
      found = refl;
    }
    run-Stopped u (b ∷ bs) k after et eo (calm _ _ q c cs) r h mine theirs em eh =
        let g = calm_step P introduced de_value rounds laws copied memory target old b q c in
        let (n, step) = g.goes u (bs ++ (k ∷ after)) et eo in
        let next : Update P =
          record (passes_by P introduced de_value rounds u g.left (bs ++ (k ∷ after))) {
            up_updated = n;
          } in
        let w = run-Stopped next bs k after et eo cs r h mine theirs em eh in
        record {
          final = w.final;
          answered = step ∙ w.answered;
          version = w.version;
          left = g.left ∷ w.left;
          passed = w.passed ∙ append_assoc u.passed (g.left ∷ []) (w.left ++ (k ∷ []));
          all = merged b g.left bs w.left q g.is_merged w.all;
          rest = w.rest;
          found = w.found;
        }
