-- ===== src/Update/Run.antt =====
-- disir_update_continue, disir_update_config and the functions on a conflict, of lib/update.c.
use disir_c.Prelude.{
  ℕ, ◌+◌, Bool, true, false, not, Option, none, some, List, [], ◌∷◌, ◌++◌, if◌then◌else◌,
}
use disir_c.Prelude.Int.{ℤ, pos, ltb_ℤ, leb_ℤ, eqb_ℤ}
use disir_c.Status.{Status, ok, invalid_argument, conflicting_semver, conflict, no_can_do, is_ok}
use disir_c.Value.{Platform, Value, value_compare, value_copy, value_stringify}
use disir_c.Version.{Version, version_compare}
use disir_c.Default.{default_get_active}
use disir_c.Update.{Keyval, Elements, Update}
use disir_c.Update.Collect.{retrieve_all}

-- What the loop makes of a keyval. `clash` has the default entry of the target.
pub data Fate (P : Platform) : Type 0 where
  keep : Fate P
  replace : Value P → Fate P
  clash : ℕ → Fate P

-- A call whose `none` is a fault: a NULL or an unset pointer is read, a write is out of bounds.
abbrev pub and_then {ℓ ℓ'} : {A : Type ℓ} {B : Type ℓ'} → Option A → (A → Option B) → Option B
and_then none f = none
and_then (some a) f = f a

module _ (P : Platform) (introduced : ℕ → Version) (de_value : ℕ → Value P) (rounds : ℕ) where
  -- The default entry that is in force at a version; without one the pointer is not set.
  abbrev pub active : Keyval P → Version → Option ℕ
  active k v = elim (default_get_active introduced rounds k.kv_default_queue (some v)) [
    | none ↦ none
    | some found ↦ found
  ]

  -- The default is not introduced after the version of the config.
  abbrev pub is_older : Version → ℕ → Bool
  is_older v d = leb_ℤ (version_compare (introduced d) v) (pos 0)

  abbrev pub has_value : Keyval P → ℕ → Bool
  has_value k d = eqb_ℤ (value_compare P k.kv_value (de_value d)) (pos 0)

  -- dx_value_copy to a destination that is no NULL pointer, its status not looked at
  abbrev pub overwrite : Value P → Value P → Option (Value P)
  overwrite v source = elim (value_copy P (some v) source true) [
    | none ↦ none
    | some (s, left) ↦ left
  ]

  -- Behind the first two tests: the value is that of the default in force at the config's version, or
  -- not.
  abbrev pub changed_fate : Keyval P → ℕ → ℕ → Option (Fate P)
  changed_fate k target config = elim (has_value k config) [
    | true ↦ and_then (overwrite k.kv_value (de_value target)) (λ v. some (replace v))
    | false ↦ some (clash target)
  ]

  -- The body of the loop, up to what it does to the update.
  abbrev pub fate_at : Version → Keyval P → ℕ → Option (Fate P)
  fate_at old k d =
      if is_older old d
      then some keep
      else if has_value k d
      then some keep
      else and_then (active k old) (λ config. changed_fate k d config)

  abbrev pub fate : Version → Version → Keyval P → Option (Fate P)
  fate target old k = and_then (active k target) (λ d. fate_at old k d)

  abbrev pub passes_by : Update P → Keyval P → List (Keyval P) → Update P
  passes_by u k ks = record u { passed = u.passed ++ (k ∷ []); up_collection = ks }

  -- The text of a value in a new buffer, which holds `memory` at first.
  abbrev pub text_of : List ℕ → Value P → Option (List ℕ)
  text_of memory v = elim (value_stringify P v memory) [
    | none ↦ none
    | some (s, buffer, size) ↦ some buffer
  ]

  -- The branch of the conflict.
  abbrev pub signal :
      List ℕ → Update P → Keyval P → List (Keyval P) → ℕ → Option (Status × Update P)
  signal memory u k ks d = and_then (text_of memory k.kv_value) (λ mine.
      and_then (text_of memory (de_value d)) (λ theirs. some (
        conflict,
        record (passes_by u k ks) {
          up_keyval = some k;
          up_config_value = some mine;
          up_mold_value = some theirs;
        },
      )))

  -- The loop of disir_update_continue over the keyvals that are still to come; at the end the config
  -- gets the version of the target.
  unfoldable pub run : List ℕ → Update P → List (Keyval P) → Option (Status × Update P)
  run memory u [] = some (ok, record u { cf_version = u.up_target; up_collection = [] })
  run memory u (k ∷ ks) = elim (fate u.up_target u.cf_version k) [
    | none ↦ none
    | some keep ↦ run memory (passes_by u k ks) ks
    | some (replace v) ↦
        run memory
          (record (passes_by u (record k { kv_value = v }) ks) { up_updated = u.up_updated + 1 }) ks
    | some (clash d) ↦ signal memory u k ks d
  ]

  -- disir_update_continue
  abbrev pub update_continue : List ℕ → Option (Update P) → Option (Status × Option (Update P))
  update_continue memory none = some (invalid_argument, none)
  update_continue memory (some u) = elim u.up_keyval [
    | some k ↦ some (conflict, some u)
    | none ↦ and_then (run memory u u.up_collection) (λ r. some (r.0, some r.1))
  ]

  -- disir_update_config on a config and an update that are no NULL pointers; `generated` is the status
  -- of generating the config for the target. An update that is not created is `none`.
  abbrev pub start :
      List ℕ → Status → Version → Elements P → Version → Option (Status × Option (Update P))
  start memory generated old es target =
      if not (is_ok generated)
      then some (generated, none)
      else update_continue memory (
          some (record {
            up_target = target;
            cf_version = old;
            passed = [];
            up_collection = (retrieve_all P es []).1;
            up_updated = 0;
            up_keyval = none;
            up_config_value = none;
            up_mold_value = none;
          }))

  abbrev pub update_config :
      List ℕ
      → Status
      → Version
      → Version
      → Elements P
      → Option Version
      → Option (Status × Option (Update P))
  update_config memory generated old mo_version es wanted =
      let target : Version = elim wanted [ none ↦ mo_version | some v ↦ v ] in
      let res : ℤ = version_compare old target in
      if ltb_ℤ (pos 0) res
      then some (conflicting_semver, none)
      else if eqb_ℤ res (pos 0)
      then some (no_can_do, none)
      else start memory generated old es target

-- disir_update_resolve; `assigned` is the status of finding the keyval in the config for the target
-- and setting its value.
abbrev pub update_resolve : (P : Platform) → Status → Option (Update P) → Status × Option (Update P)
update_resolve P assigned none = (invalid_argument, none)
update_resolve P assigned (some u) = elim u.up_keyval [
  | none ↦ (no_can_do, some u)
  | some k ↦
      if is_ok assigned
      then (
        ok,
        some (record u {
          up_updated = u.up_updated + 1;
          up_keyval = none;
          up_config_value = none;
          up_mold_value = none;
        }),
      )
      else (assigned, some u)
]
