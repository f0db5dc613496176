-- ===== src/Value/Stored.antt =====
-- dx_value_set_string and dx_value_get_string: what is stored is what is read back.
use disir_c.Prelude.{
  ℕ, ◌+◌, ◌≤◌, ◌<◌, ◌≡◌, refl, true, false, Option, none, some, List, ◌++◌, length, take, drop, set,
  replicate, length-replicate, length-append, length-take, length-set, get_elem?, arith, leb, ◌⊎◌,
  inl, inr, Bool-cases, Option-cases,
}
use disir_c.Status.{ok}
use disir_c.Value.{
  Platform, Value, Outcome, holds_string, fill_string, store_string, set_string, get_string,
}
use disir_c.Value.Memory.{length-drop, take-ended, get_elem?-ended, memcpy-put_byte}

module _ (P : Platform) where
  -- A string that is present has a buffer that is longer than its size; other types have size 0.
  pub record IsSound (v : Value P) : Type 0 where
    pub fits : (buffer : List ℕ) → v.dv_string ≡ some buffer → v.dv_size < length buffer
    pub no_size : holds_string P v ≡ false → v.dv_size ≡ 0

  -- The value that holds `size` bytes of `input`, with a zero behind them.
  pub record Stores (v : Value P) (input : List ℕ) (size : ℕ) (answer : Option (Outcome P))
      : Type 0 where
    pub value : Value P
    pub buffer : List ℕ
    pub answered : answer ≡ some (ok, some value)
    pub read_back : get_string P (some value) true ≡ (ok, some (some buffer, size))
    pub same : take size buffer ≡ take size input
    pub ended : get_elem? buffer size ≡ some 0
    pub text : value.dv_string ≡ some buffer
    pub size_kept : value.dv_size ≡ size
    pub sound : IsSound value
    pub kind : value.dv_type ≡ v.dv_type

  filled : ℕ → List ℕ → List ℕ → List ℕ
  filled size input buffer = set (take size input ++ drop size buffer) size 0

  length-filled :
      (size : ℕ) (input buffer : List ℕ)
      → size ≤ length input
      → size < length buffer
      → size < length (filled size input buffer)
  unfolding filled
  length-filled size input buffer le lt = omega (
    arith,
    length-set (take size input ++ drop size buffer) size 0,
    length-append (take size input) (drop size buffer),
    length-take size input,
    length-drop size buffer,
  )

  module _ (v : Value P) (is_string : holds_string P v ≡ true) where
    fill_string-Stores :
        (buffer input : List ℕ) (size : ℕ)
        → size ≤ length input
        → size < length buffer
        → Stores v input size (fill_string P v buffer input size)
    unfolding filled
    fill_string-Stores buffer input size le lt =
        let (copied, ended) = memcpy-put_byte buffer input size le lt in
        record {
          value = record v { dv_string = some (filled size input buffer); dv_size = size };
          buffer = filled size input buffer;
          answered = rw (copied, ended, fill_string);
          read_back = rw is_string refl;
          same = take-ended size input (drop size buffer) 0 le;
          ended =
              get_elem?-ended size input (drop size buffer) 0 le
                (omega (arith, length-drop size buffer));
          text = refl;
          size_kept = refl;
          sound = record {
            fits = λ b e. grind (arith, length-filled size input buffer le lt);
            no_size = λ e. grind arith;
          };
          kind = refl;
        }

    replaced :
        (input : List ℕ) (size : ℕ)
        → size ≤ length input
        → Stores v input size (fill_string P v (replicate (size + 1) 0) input size)
    replaced input size le =
        fill_string-Stores (replicate (size + 1) 0) input size le
          (omega (arith, length-replicate {A = ℕ} (size + 1) 0))

    store_string-new :
        (input : List ℕ) (size : ℕ)
        → (v.dv_string ≡ none) ⊎ (leb v.dv_size size ≡ true)
        → store_string P v input size true ≡ fill_string P v (replicate (size + 1) 0) input size
    store_string-new input size more = ground arith

    store_string-reuse :
        (buffer input : List ℕ) (size : ℕ)
        → v.dv_string ≡ some buffer
        → leb v.dv_size size ≡ false
        → store_string P v input size true ≡ fill_string P v buffer input size
    store_string-reuse buffer input size e less = ground arith

    store_string-Stores :
        (sound : IsSound v) (input : List ℕ) (size : ℕ)
        → size ≤ length input
        → Stores v input size (store_string P v input size true)
    store_string-Stores sound input size le = elim (Option-cases v.dv_string) [
      | inl e ↦ rw (store_string-new input size (inl e)) (replaced input size le)
      | inr (buffer, e) ↦ elim (Bool-cases (leb v.dv_size size)) [
        | inl more ↦ rw (store_string-new input size (inr more)) (replaced input size le)
        | inr less ↦
            rw (store_string-reuse buffer input size e less)
              (fill_string-Stores buffer input size le (ground (arith, sound.fits buffer e)))
      ]
    ]

    -- Setting a sound string or enum value, where memory is granted and the input has the bytes,
    -- meets no fault and leaves a sound value of the same type that reads back those bytes,
    -- with a zero behind them.
    pub set_string-Stores :
        (sound : IsSound v) (input : List ℕ) (size : ℕ)
        → size ≤ length input
        → Stores v input size (set_string P (some v) (some input) size true)
    set_string-Stores sound input size le =
        rw (is_string, set_string) (store_string-Stores sound input size le)
