-- ===== src/Setter/Checked.antt =====
-- The restriction check of the setters in lib/context_value.c, on a finalized keyval of a config.
use disir_c.Prelude.{
  ℕ, ◌≡◌, refl, ap, ◌∙◌, Bool, true, false, not, ◌&&◌, ◌||◌, arith, Option, none, some, List, [],
  ◌∷◌, ◌++◌, take, length, if◌then◌else◌,
}
use disir_c.Prelude.Int.{ℤ}
use disir_c.Status.{Status, ok, restriction_violated}
use disir_c.Value.{Platform, Value, ValueType, string, integer, float, boolean, enum, unknown}
use disir_c.Value.Stored.{IsSound}
use disir_c.Version.{Version}
use disir_c.Version.Order.{Fits}
use disir_c.Restriction.{Restriction}
use disir_c.Restriction.Exclusive.{Question, exclusive_value_check}
use disir_c.Restriction.Permits.{any, All, is_present, is_enum_entry, is_unreadable}
use disir_c.Restriction.Fulfilled.{EntryFits, in_force, exclusive_value_check-allows}
use disir_c.Setter.{Arithmetic, Context, doubles_of}
use disir_c.Setter.Store.{Answer, is_checked, store_checked, checked_store}
use disir_c.Setter.Obeys.{
  typed, finalized_keyval, question, permits, permitted, IsMold, Keeps, is_number,
}

pub take-whole : (t u : List ℕ) → take (length t) (t ++ u) ≡ t
take-whole [] u = refl
take-whole (c ∷ t) u = ap (λ l. c ∷ l) (take-whole t u)

and_false : (a b : Bool) → b ≡ false → (a && b) ≡ false
and_false a b h = ground arith

present_both : (e s t : Bool) → s ≡ true → (not e || t) ≡ true → (e && not (s && t)) ≡ false
present_both e s t h k = ground arith

abbrev pub judged : Bool → Status
judged b = if b then ok else restriction_violated

pub by_permit : {b c : Bool} → b ≡ c → ◌≡◌ {A = Option Status} (some (judged b)) (some (judged c))
by_permit h = ap (λ b. some (judged b)) h

module _ (P : Platform) (A : Arithmetic P) (unset : P.Double) where
  abbrev pub Queue : Type 0
  Queue = List (Restriction (doubles_of P A))

  pub entries_fit :
      (q : Question (doubles_of P A)) (es : Queue)
      → All (λ e. Fits e.re_introduced × Fits e.re_deprecated) es
      → All (EntryFits (doubles_of P A) q) es
  entries_fit q [] f = tt
  entries_fit q (e ∷ es) f =
      (record { introduced = f.0.0; deprecated = f.0.1 }, entries_fit q es f.1)

  -- No restriction in force compares a text that is NULL.
  no_faults :
      (q : Question (doubles_of P A)) (es : Queue)
      → All (λ e. is_unreadable (doubles_of P A) q e ≡ false) es
      → any (λ e. in_force (doubles_of P A) q e && is_unreadable (doubles_of P A) q e) es ≡ false
  no_faults q [] h = refl
  no_faults q (e ∷ es) h =
      let rest = no_faults q es h.1 in
      let here =
        and_false (in_force (doubles_of P A) q e) (is_unreadable (doubles_of P A) q e) h.0 in
      rw (here, rest) refl

  numbers-readable :
      (q : Question (doubles_of P A)) (es : Queue)
      → All (λ e. is_enum_entry e.re_type ≡ false) es
      → All (λ e. is_unreadable (doubles_of P A) q e ≡ false) es
  numbers-readable q [] h = tt
  numbers-readable q (e ∷ es) h = (ground (arith, h.0), numbers-readable q es h.1)

  texts-readable :
      (q : Question (doubles_of P A)) (es : Queue)
      → is_present q.string_value ≡ true
      → All (λ e. (not (is_enum_entry e.re_type) || is_present e.re_value_string) ≡ true) es
      → All (λ e. is_unreadable (doubles_of P A) q e ≡ false) es
  texts-readable q [] p h = tt
  texts-readable q (e ∷ es) p h = (
    present_both (is_enum_entry e.re_type) (is_present q.string_value)
        (is_present e.re_value_string) p h.0,
    texts-readable q es p h.1,
  )

  -- A setter behind its input check, where the restriction check answers
  pub checked_store-some :
      (c : Context P A) (store : Context P A → Answer P A)
      → (check : Context P A → Option Status) (t : Status) → check c ≡ some t
      → checked_store P A c store check ok ≡ store_checked P A c store t
  checked_store-some c store check t h = rw h

  module _ (es : Queue) (version : Version) (n : ℕ) where
    -- What a setter's check answers: a number is asked about without a text, an enum with one.
    pub check-permits :
        (kind : ValueType) (k : ℤ) (x : P.Double) (text : Option (List ℕ))
        → is_checked P A kind ≡ true
        → (is_number kind || is_present text) ≡ true
        → IsMold P A unset kind es version n
        → exclusive_value_check
            (doubles_of P A)
            true
            (question P A unset kind es version n k x text)
            es
          ≡ some (
              if permits P A unset kind es version n (question P A unset kind es version n k x text)
              then ok
              else restriction_violated)
    check-permits integer k x text is r mold =
        let q = question P A unset integer es version n k x text in
        exclusive_value_check-allows (doubles_of P A) q mold.fits es refl
          (entries_fit q es mold.entries)
        ∙ ap (λ b. if b then none else some (judged (permits P A unset integer es version n q)))
            (no_faults q es (numbers-readable q es (mold.numbers refl)))
    check-permits float k x text is r mold =
        let q = question P A unset float es version n k x text in
        exclusive_value_check-allows (doubles_of P A) q mold.fits es refl
          (entries_fit q es mold.entries)
        ∙ ap (λ b. if b then none else some (judged (permits P A unset float es version n q)))
            (no_faults q es (numbers-readable q es (mold.numbers refl)))
    check-permits enum k x text is r mold =
        let q = question P A unset enum es version n k x text in
        exclusive_value_check-allows (doubles_of P A) q mold.fits es refl
          (entries_fit q es mold.entries)
        ∙ ap (λ b. if b then none else some (judged (permits P A unset enum es version n q)))
            (no_faults q es (texts-readable q es r mold.texts))
    check-permits string k x text is r mold = absurd cc
    check-permits boolean k x text is r mold = absurd cc
    check-permits unknown k x text is r mold = absurd cc

    pub retyped :
        (kind : ValueType) (w : Value P)
        → w.dv_type ≡ kind
        → w ≡ typed P A unset kind es version n w
    retyped kind w h = ap (λ k. record w { dv_type = k }) h

    -- A value in violation is violation_refused.
    pub violation_refused :
        (kind : ValueType) (v : Value P) (answer : Answer P A)
        → IsSound P (typed P A unset kind es version n v)
        → permitted P A unset kind es version n v ≡ true
        → (s : Status) → answer ≡ some (s, finalized_keyval P A unset kind es version n v)
        → Keeps P A unset kind es version n v answer
    violation_refused kind v answer sound before s e = record {
      status = s;
      value = v;
      answered = e;
      sound = sound;
      permits_value = before;
      unchanged = λ h. refl;
    }
