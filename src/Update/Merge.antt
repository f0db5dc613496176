-- ===== src/Update/Merge.antt =====
-- What disir_update_continue of lib/update.c makes of the keyvals of a config: a merge of the value,
-- the default at the config's version and the default at the target's.
use disir_c.Prelude.{
  ℕ, Bool, true, false, not, ◌&&◌, none, some, List, [], ◌∷◌, ◌≡◌, ◌≢◌, ltb, ◌∙◌, ap, arith,
}
use disir_c.Prelude.Int.{ℤ, pos, negsuc, eqb_ℤ, leb_ℤ, ltb_ℤ}
use disir_c.Value.{Platform, Value, float, unknown, value_compare, holds_string}
use disir_c.Value.Stored.{IsSound}
use disir_c.Version.{Version, version_compare}
use disir_c.Version.Order.{Fits, rank, version_compare-order}
use disir_c.Update.{Keyval}
use disir_c.Update.Run.{active, is_older, has_value}

eqb_zero : (z : ℤ) → eqb_ℤ z (pos 0) ≡ true → z ≡ pos 0
eqb_zero (pos n) h = ground arith
eqb_zero (negsuc n) h = ground arith

leb_zero : (z : ℤ) → leb_ℤ z (pos 0) ≡ not (ltb_ℤ (pos 0) z)
leb_zero (pos n) = ground arith
leb_zero (negsuc n) = ground arith

module _ (P : Platform) (introduced : ℕ → Version) (de_value : ℕ → Value P) (rounds : ℕ) where
  -- The keyval has a default in force at each of the two versions, and a sound value of its type, and
  -- the versions fit in an int.
  pub record IsReady (target old : Version) (k : Keyval P) : Type 0 where
    pub theirs : ℕ
    pub base : ℕ
    pub at_target : active P introduced de_value rounds k target ≡ some theirs
    pub at_old : active P introduced de_value rounds k old ≡ some base
    pub fits : Fits (introduced theirs)
    pub fits_old : Fits old
    pub sound : IsSound P k.kv_value
    pub same_type : k.kv_value.dv_type ≡ (de_value theirs).dv_type

  -- The values of the default entries can be copied.
  pub record IsCopied (v : Value P) : Type 0 where
    pub sound : IsSound P v
    pub known : v.dv_type ≢ unknown
    pub present : holds_string P v ≡ true → v.dv_string ≢ none
    pub finite : v.dv_type ≡ float → P.is_finite v.dv_float ≡ true

  -- The default is introduced after the version of the config.
  abbrev pub is_newer : Version → ℕ → Bool
  is_newer old d = ltb (rank old) (rank (introduced d))

  -- What the keyval `k` has become: it keeps its name and defaults; where the default in force at the
  -- target is not newer than the config it is unchanged; elsewhere its value compares
  -- as equal to that default.
  pub record Merged (old : Version) (d : ℕ) (k k' : Keyval P) : Type 0 where
    pub same_name : k'.kv_name ≡ k.kv_name
    pub same_defaults : k'.kv_default_queue ≡ k.kv_default_queue
    pub unchanged : is_newer old d ≡ false → k' ≡ k
    pub raised : is_newer old d ≡ true → value_compare P k'.kv_value (de_value d) ≡ pos 0

  -- The default is newer than the config, and the value is neither that default nor the one that was
  -- in force before.
  abbrev pub is_clash : Version → ℕ → ℕ → Keyval P → Bool
  is_clash old d base k =
      is_newer old d
      && (not (eqb_ℤ (value_compare P k.kv_value (de_value d)) (pos 0))
          && not (eqb_ℤ (value_compare P k.kv_value (de_value base)) (pos 0)))

  pub data AllMerged (target old : Version) : List (Keyval P) → List (Keyval P) → Type 0 where
    none_left : AllMerged target old [] []
    merged :
        (k k' : Keyval P) (ks ks' : List (Keyval P)) (r : IsReady target old k)
        → Merged old r.theirs k k'
        → AllMerged target old ks ks'
        → AllMerged target old (k ∷ ks) (k' ∷ ks')

  -- No keyval of the list clashes.
  pub data AllCalm (target old : Version) : List (Keyval P) → Type 0 where
    calm_end : AllCalm target old []
    calm :
        (k : Keyval P) (ks : List (Keyval P)) (r : IsReady target old k)
        → is_clash old r.theirs r.base k ≡ false
        → AllCalm target old ks
        → AllCalm target old (k ∷ ks)

  pub is_older-newer :
      (old : Version) (d : ℕ)
      → Fits (introduced d)
      → Fits old
      → is_older P introduced de_value rounds old d ≡ not (is_newer old d)
  is_older-newer old d f fo =
      leb_zero (version_compare (introduced d) old)
      ∙ ap not (version_compare-order (introduced d) old f fo).2

  pub has_value-zero :
      (k : Keyval P) (d : ℕ)
      → has_value P introduced de_value rounds k d ≡ true
      → value_compare P k.kv_value (de_value d) ≡ pos 0
  has_value-zero k d h = eqb_zero (value_compare P k.kv_value (de_value d)) h
