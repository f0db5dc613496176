-- ===== src/Update/Steps.antt =====
-- One keyval in the loop of disir_update_continue of lib/update.c.
use disir_c.Prelude.{
  ℕ, ◌+◌, true, false, some, List, ◌∷◌, ◌≡◌, refl, inl, inr, ◌⊎◌, Bool-cases, arith,
}
use disir_c.Prelude.Int.{pos}
use disir_c.Value.{Platform, Value, value_compare}
use disir_c.Value.Copy.{IsPlatform, value_copy-Copies}
use disir_c.Version.{Version}
use disir_c.Update.{Keyval, Update}
use disir_c.Update.Run.{
  keep, replace, clash, is_older, has_value, overwrite, changed_fate, fate_at, fate, passes_by,
  signal, run,
}
use disir_c.Update.Merge.{
  IsReady, IsCopied, Merged, is_clash, is_newer, has_value-zero, is_older-newer,
}

module _ (P : Platform) (introduced : ℕ → Version) (de_value : ℕ → Value P) (rounds : ℕ) where
  module _ (laws : IsPlatform P)
      (copied : (d : ℕ) → IsCopied P introduced de_value rounds (de_value d)) where
    overwrite-Copies :
        (k : Keyval P) (target old : Version)
        (r : IsReady P introduced de_value rounds target old k)
        → (v : Value P) × (overwrite P introduced de_value rounds k.kv_value (de_value r.theirs)
            ≡ some v)
          × (value_compare P v (de_value r.theirs) ≡ pos 0)
    overwrite-Copies k target old r =
        let c = copied r.theirs in
        let w =
          value_copy-Copies P laws k.kv_value (de_value r.theirs) r.sound c.sound r.same_type
            c.known c.present c.finite in
        (w.value, ground (arith, w.answered), w.equal)

    -- What the loop goes on with behind a keyval that does not clash.
    pub record Goes (memory : List ℕ) (target old : Version) (k : Keyval P) (d : ℕ) : Type 0 where
      pub left : Keyval P
      pub is_merged : Merged P introduced de_value rounds old d k left
      pub goes :
          (u : Update P) (ks : List (Keyval P))
          → u.up_target ≡ target
          → u.cf_version ≡ old
          → (n : ℕ) × (run P introduced de_value rounds memory u (k ∷ ks)
              ≡ run P introduced de_value rounds memory
                  (record (passes_by P introduced de_value rounds u left ks) { up_updated = n })
                  ks)

    run-keep :
        (memory : List ℕ) (u : Update P) (k : Keyval P) (ks : List (Keyval P))
        → fate P introduced de_value rounds u.up_target u.cf_version k ≡ some keep
        → run P introduced de_value rounds memory u (k ∷ ks)
          ≡ run P introduced de_value rounds memory
              (passes_by P introduced de_value rounds u k ks)
              ks
    unfolding run
    run-keep memory u k ks e = rw (e, run) refl

    run-replace :
        (memory : List ℕ) (u : Update P) (k : Keyval P) (ks : List (Keyval P)) (v : Value P)
        → fate P introduced de_value rounds u.up_target u.cf_version k ≡ some (replace v)
        → run P introduced de_value rounds memory u (k ∷ ks)
          ≡ run P introduced de_value rounds memory
              (record (passes_by P introduced de_value rounds u (record k { kv_value = v }) ks) {
                up_updated = u.up_updated + 1;
              })
              ks
    unfolding run
    run-replace memory u k ks v e = rw (e, run) refl

    pub run-clash :
        (memory : List ℕ) (u : Update P) (k : Keyval P) (ks : List (Keyval P)) (d : ℕ)
        → fate P introduced de_value rounds u.up_target u.cf_version k ≡ some (clash d)
        → run P introduced de_value rounds memory u (k ∷ ks)
          ≡ signal P introduced de_value rounds memory u k ks d
    unfolding run
    run-clash memory u k ks d e = rw (e, run) refl

    module _ (memory : List ℕ) (target old : Version) where
      fate-keeps :
          (k : Keyval P) (r : IsReady P introduced de_value rounds target old k)
          → (is_older P introduced de_value rounds old r.theirs ≡ true)
            ⊎ (has_value P introduced de_value rounds k r.theirs ≡ true)
          → fate P introduced de_value rounds target old k ≡ some keep
      fate-keeps k r h =
          rw (r.at_target, fate)
            (elim h [
              | inl e ↦ rw (e, fate_at) refl
              | inr e ↦ elim (Bool-cases (is_older P introduced de_value rounds old r.theirs)) [
                | inl o ↦ rw (o, fate_at) refl
                | inr n ↦ rw (n, e, fate_at) refl
              ]
            ])

      fate-replaces :
          (k : Keyval P) (r : IsReady P introduced de_value rounds target old k) (v : Value P)
          → is_older P introduced de_value rounds old r.theirs ≡ false
          → has_value P introduced de_value rounds k r.theirs ≡ false
          → has_value P introduced de_value rounds k r.base ≡ true
          → overwrite P introduced de_value rounds k.kv_value (de_value r.theirs) ≡ some v
          → fate P introduced de_value rounds target old k ≡ some (replace v)
      fate-replaces k r v newer other same e =
          rw (r.at_target, fate)
            (rw (newer, other, fate_at) (rw r.at_old (rw (same, e, changed_fate) refl)))

      pub fate-clashes :
          (k : Keyval P) (r : IsReady P introduced de_value rounds target old k)
          → is_clash P introduced de_value rounds old r.theirs r.base k ≡ true
          → fate P introduced de_value rounds target old k ≡ some (clash r.theirs)
      fate-clashes k r h =
          rw (r.at_target, fate)
            (ground (
              arith,
              r.at_old,
              h,
              is_older-newer P introduced de_value rounds old r.theirs r.fits r.fits_old,
            ))

      older_Merged :
          (k : Keyval P) (d : ℕ)
          → is_newer P introduced de_value rounds old d ≡ false
          → Merged P introduced de_value rounds old d k k
      older_Merged k d e = record {
        same_name = refl;
        same_defaults = refl;
        unchanged = λ h. refl;
        raised = λ h. absurd cc;
      }

      equal_Merged :
          (k k' : Keyval P) (d : ℕ)
          → is_newer P introduced de_value rounds old d ≡ true
          → k'.kv_name ≡ k.kv_name
          → k'.kv_default_queue ≡ k.kv_default_queue
          → value_compare P k'.kv_value (de_value d) ≡ pos 0
          → Merged P introduced de_value rounds old d k k'
      equal_Merged k k' d newer name defaults e = record {
        same_name = name;
        same_defaults = defaults;
        unchanged = λ h. absurd cc;
        raised = λ h. e;
      }

      pub calm_step :
          (k : Keyval P) (r : IsReady P introduced de_value rounds target old k)
          → is_clash P introduced de_value rounds old r.theirs r.base k ≡ false
          → Goes memory target old k r.theirs
      calm_step k r h =
          let flip = is_older-newer P introduced de_value rounds old r.theirs r.fits r.fits_old in
          elim (Bool-cases (is_older P introduced de_value rounds old r.theirs)) [
            | inl o ↦ record {
              left = k;
              is_merged = older_Merged k r.theirs (ground (arith, flip, o));
              goes = λ u ks et eo.
                  (u.up_updated, run-keep memory u k ks (rw (et, eo) (fate-keeps k r (inl o))));
            }
            | inr n ↦ elim (Bool-cases (has_value P introduced de_value rounds k r.theirs)) [
              | inl e ↦ record {
                left = k;
                is_merged =
                    equal_Merged k k r.theirs (ground (arith, flip, n)) refl refl
                      (has_value-zero P introduced de_value rounds k r.theirs e);
                goes = λ u ks et eo.
                    (u.up_updated, run-keep memory u k ks (rw (et, eo) (fate-keeps k r (inr e))));
              }
              | inr e ↦
                  let (v, copy, equal) = overwrite-Copies k target old r in
                  let same : has_value P introduced de_value rounds k r.base ≡ true =
                    ground (arith, flip, n, e, h) in
                  record {
                    left = record k { kv_value = v };
                    is_merged =
                        equal_Merged k (record k { kv_value = v }) r.theirs
                          (ground (arith, flip, n)) refl refl equal;
                    goes = λ u ks et eo. (
                      u.up_updated + 1,
                      run-replace memory u k ks v (rw (et, eo) (fate-replaces k r v n e same copy)),
                    );
                  }
            ]
          ]
