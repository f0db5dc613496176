-- ===== src/Setter/Store.antt =====
-- The steps that the setters of lib/context_value.c share: the restriction check and the store.
use disir_c.Prelude.{
  ℕ, Bool, true, false, not, ◌&&◌, ◌||◌, Option, none, some, List, [], ◌∷◌, ◌++◌, ◌==◌,
  if◌then◌else◌,
}
use disir_c.Prelude.Int.{ℤ}
use disir_c.Context.{config_type}
use disir_c.Status.{
  Status, ok, internal_error, invalid_context, restriction_violated, wrong_value_type, is_ok,
}
use disir_c.Value.{Platform, Value, ValueType, integer, float, enum, holds_string, set_string}
use disir_c.Restriction.Exclusive.{Question, exclusive_value_check}
use disir_c.Validate.Settle.{is_invalid_context}
use disir_c.Setter.{Arithmetic, Context, doubles_of}
use disir_c.Setter.Checks.{is_type, value_type_of, set_value_input_check}

abbrev pub is_violated : Status → Bool
is_violated restriction_violated = true
is_violated _ = false

module _ (P : Platform) (A : Arithmetic P) where
  -- What the setter of each type asks with, and NULL for a text that it does not have; `unset` is what an unset variable of type double holds.
  abbrev pub ask :
      P.Double → Context P A → ℤ → P.Double → Option (List ℕ) → Question (doubles_of P A)
  ask unset c n x text = record {
    config_version = c.cf_version;
    value_type = value_type_of P A c;
    integer_value = n;
    float_value = x;
    string_value = text;
    unset = unset;
  }

  abbrev pub is_checked : ValueType → Bool
  is_checked integer = true
  is_checked float = true
  is_checked enum = true
  is_checked _ = false

  -- dx_restriction_exclusive_value_check on a context; without a mold it reads through NULL.
  abbrev pub exclusive_check :
      P.Double → Context P A → ℤ → P.Double → Option (List ℕ) → Option Status
  exclusive_check unset c n x text =
      if not (is_type c.root_type config_type)
      then some ok
      else if not (is_checked (value_type_of P A c))
      then some internal_error
      else elim c.kv_mold_equiv [
        | none ↦ none
        | some m ↦
            exclusive_value_check (doubles_of P A) true (ask unset c n x text)
              m.kv_restrictions_queue
      ]

  -- What a setter answers: none is a fault.
  abbrev pub Answer : Type 0
  Answer = Option (Status × Context P A)

  -- dx_value_set_integer, dx_value_set_float or dx_value_set_boolean on the storage
  abbrev pub put_number : Context P A → Status × Option (Value P) → Answer
  put_number c (s, none) = some (s, c)
  put_number c (s, some v) =
      if is_ok s then some (s, record c { value = v; holds_pointer = false }) else some (s, c)

  abbrev pub put_stored : Context P A → Option (Status × Option (Value P)) → Answer
  put_stored c none = none
  put_stored c (some (s, none)) = some (s, c)
  put_stored c (some (s, some v)) = some (s, record c { value = v })

  -- dx_value_set_string on the storage; a text has a zero behind its characters.
  abbrev pub put_string : Context P A → Option (List ℕ) → ℕ → Bool → Answer
  put_string c text size allocated =
      if not (holds_string P c.value)
      then some (wrong_value_type, c)
      else if c.holds_pointer
      then put_stored c (
          set_string P (some c.value) (elim text [ none ↦ none | some t ↦ some (t ++ 0 ∷ []) ]) size
            allocated)
      else elim text [
        | none ↦
            if c.value.dv_size == 0
            then some
                (ok, record c { value = record c.value { dv_string = none }; holds_pointer = true })
            else none
        | some t ↦ none
      ]

  -- The status behind the store: that of the checks, where the store succeeds.
  abbrev pub settle : Status → Answer → Answer
  settle s none = none
  settle s (some (t, c)) = some (if is_ok t then s else t, c)

  -- A value in violation is refused by a finalized context, and marks any other one as invalid.
  abbrev pub store_checked : Context P A → (Context P A → Answer) → Status → Answer
  store_checked c store s =
      if c.finalized && is_violated s
      then some (s, c)
      else if is_violated s
      then settle invalid_context (store (record c { invalid = true }))
      else settle s (store c)

  -- The check of a setter: not made where the context is invalid.
  abbrev pub checked_store :
      Context P A → (Context P A → Answer) → (Context P A → Option Status) → Status → Answer
  checked_store c store check s =
      if is_invalid_context s
      then store_checked c store s
      else elim (check c) [ none ↦ none | some t ↦ store_checked c store t ]

  abbrev pub lets_pass : Status → Bool
  lets_pass s = is_ok s || is_invalid_context s

  -- The setters of integers, floats and enums; the context is not NULL.
  abbrev pub set_restricted :
      ValueType → (Context P A → Answer) → (Context P A → Option Status) → Context P A → Answer
  set_restricted t store check c =
      let (s, d) = set_value_input_check P A c t in
      if lets_pass s then checked_store d store check s else some (s, d)

  -- The setters of strings and booleans
  abbrev pub set_unrestricted : ValueType → (Context P A → Answer) → Context P A → Answer
  set_unrestricted t store c =
      let (s, d) = set_value_input_check P A c t in
      if lets_pass s then settle s (store d) else some (s, d)
