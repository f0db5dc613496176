-- ===== src/Tests/Updates.antt =====
-- Updates of a config of version 1.0 to 2.0. The keyvals have the default 1 from 1.0 and 2 from 2.0.
use disir_c.Prelude.{
  ℕ, ◌≡◌, refl, true, none, some, List, [], ◌∷◌, ◌++◌, arith, ◌==◌, if◌then◌else◌, replicate,
}
use disir_c.Prelude.Int.{ℤ, pos}
use disir_c.Status.{ok, conflict, exhausted, restriction_violated}
use disir_c.Value.{Value}
use disir_c.Value.Stored.{IsSound}
use disir_c.Version.{version}
use disir_c.Update.{Keyval, Elements, keyval, section, end, element, Update}
use disir_c.Queue.{find_from}
use disir_c.Update.Run.{active}
use disir_c.Update.Collect.{leading, retrieve_all, retrieve_all-leading}
use disir_c.Update.Merge.{IsReady, IsCopied, AllCalm, calm, calm_end}
use disir_c.Update.Whole.{Updated, Stopped, run-Updated, run-Stopped}
use disir_c.Update.Drive.{drive, running}
use disir_c.Update.Ends.{drive-loops}
use disir_c.Tests.Values.{platform, platform-IsPlatform, integer_value}
use disir_c.Tests.Defaults.{introduced, introduced-Fits, two}

abbrev de_value : ℕ → Value platform
de_value d = integer_value (if d == 22 then pos 2 else pos 1)

abbrev holding : ℕ → ℤ → Keyval platform
holding c n = record { kv_name = c ∷ []; kv_value = integer_value n; kv_default_queue = two }

abbrev tree : Elements platform
tree = element (keyval (holding 97 (pos 1))) (
    element (section (element (keyval (holding 98 (pos 1))) end))
      (element (keyval (holding 99 (pos 1))) end))

retrieve_all-leading_example :
    retrieve_all platform tree [] ≡ (exhausted, holding 97 (pos 1) ∷ (holding 98 (pos 1) ∷ []))
unfolding leading
retrieve_all-leading_example = retrieve_all-leading platform tree []

abbrev update : List (Keyval platform) → Update platform
update ks = record {
  up_target = version 2 0;
  cf_version = version 1 0;
  passed = [];
  up_collection = ks;
  up_updated = 0;
  up_keyval = none;
  up_config_value = none;
  up_mold_value = none;
}

de_value-IsCopied : (d : ℕ) → IsCopied platform introduced de_value 3 (de_value d)
de_value-IsCopied d = record {
  sound = record { fits = λ b e. absurd cc; no_size = λ e. refl };
  known = λ e. cc;
  present = λ e. absurd cc;
  finite = λ e. refl;
}

at_target :
    (c : ℕ) (n : ℤ) → active platform introduced de_value 3 (holding c n) (version 2 0) ≡ some 22
unfolding find_from
at_target c n = refl

at_old :
    (c : ℕ) (n : ℤ) → active platform introduced de_value 3 (holding c n) (version 1 0) ≡ some 21
unfolding find_from
at_old c n = refl

holding-IsSound : (n : ℤ) → IsSound platform (integer_value n)
holding-IsSound n = record { fits = λ b e. absurd cc; no_size = λ e. refl }

abbrev holding-IsReady :
    (c : ℕ) (n : ℤ)
    → IsReady platform introduced de_value 3 (version 2 0) (version 1 0) (holding c n)
holding-IsReady c n = record {
  theirs = 22;
  base = 21;
  at_target = at_target c n;
  at_old = at_old c n;
  sound = holding-IsSound n;
  fits = introduced-Fits 22;
  fits_old = record { major = omega arith; minor = omega arith };
  same_type = refl;
}

abbrev plain : List (Keyval platform)
plain = holding 97 (pos 1) ∷ []

plain-AllCalm : AllCalm platform introduced de_value 3 (version 2 0) (version 1 0) plain
plain-AllCalm = calm (holding 97 (pos 1)) [] (holding-IsReady 97 (pos 1)) refl calm_end

run-Updated_example :
    Updated platform introduced de_value 3
      (replicate 8 0)
      (version 2 0)
      (version 1 0)
      (update plain)
      plain
run-Updated_example =
    run-Updated platform introduced de_value 3 platform-IsPlatform de_value-IsCopied (replicate 8 0)
      (version 2 0) (version 1 0) (update plain) plain refl refl plain-AllCalm

run-Stopped_example :
    Stopped platform introduced de_value 3
      (replicate 2 0)
      (version 2 0)
      (version 1 0)
      (update (plain ++ (holding 98 (pos 7) ∷ [])))
      plain
      (holding 98 (pos 7))
      []
run-Stopped_example =
    run-Stopped platform introduced de_value 3 platform-IsPlatform de_value-IsCopied (replicate 2 0)
      (version 2 0) (version 1 0) (update (plain ++ (holding 98 (pos 7) ∷ []))) plain
      (holding 98 (pos 7)) [] refl refl plain-AllCalm (holding-IsReady 98 (pos 7)) refl
      (48 ∷ (0 ∷ [])) (48 ∷ (0 ∷ [])) refl refl

abbrev stuck : Update platform
stuck = record (update plain) {
  up_keyval = some (holding 98 (pos 7));
  up_config_value = some (55 ∷ []);
  up_mold_value = some (50 ∷ []);
}

drive-loops_example :
    drive platform introduced de_value 3
      (replicate 2 0)
      true
      (λ k t. restriction_violated)
      ok
      9
      conflict
      stuck
    ≡ running
drive-loops_example =
    drive-loops platform introduced de_value 3 (replicate 2 0) true (λ k t. restriction_violated) ok
      stuck (holding 98 (pos 7)) (55 ∷ []) (50 ∷ []) refl refl refl refl refl refl 9
