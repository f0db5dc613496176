-- ===== src/Restriction/Edit/Suits.antt =====
-- The types that the calls of lib/context_restriction.c give to a restriction suit its parent.
use disir_c.Prelude.{
  ℕ, ◌≡◌, ◌⊎◌, ◌↔◌, refl, ap, sym, ◌∙◌, Bool, true, false, not, ◌&&◌, Option, none, some, List, [],
  ◌∷◌, arith, Bool-cases, inl, inr, if◌then◌else◌,
}
use mathlib.Core.Path.{subst}
use disir_c.Status.{Status, ok, wrong_context, context_in_wrong_state, is_ok}
use disir_c.Value.{ValueType, string, integer, float, boolean, enum, unknown}
use disir_c.Restriction.{
  Doubles, RestrictionType, inc_entry_min, inc_entry_max, exc_value_enum, exc_value_range,
  exc_value_numeric, unknown_restriction,
}
use disir_c.Restriction.Names.{group_type}
use disir_c.Restriction.Edit.{
  ParentContext, section_parent, keyval_parent, RestrictionContext, is_section, is_exclusive,
  parent_check, start_check, set_restriction_type, restriction_set_string, restriction_set_range,
  restriction_set_numeric,
}

-- Numbers of entries suit every parent, texts suit an enum, and ranges and numbers suit numbers.
abbrev pub Suits : ParentContext → RestrictionType → Type 0
Suits p inc_entry_min = Unit
Suits p inc_entry_max = Unit
Suits p exc_value_enum = p ≡ keyval_parent enum
Suits p exc_value_range = (p ≡ keyval_parent integer) ⊎ (p ≡ keyval_parent float)
Suits p exc_value_numeric = (p ≡ keyval_parent integer) ⊎ (p ≡ keyval_parent float)
Suits p unknown_restriction = ⊥

-- What dc_set_restriction_type makes of a parent and a type
abbrev outcome : ParentContext → RestrictionType → Status
outcome p t =
    if is_section p && is_exclusive (group_type t) then wrong_context else parent_check p t

enum_parent : (v : ValueType) → parent_check (keyval_parent v) exc_value_enum ≡ ok → v ≡ enum
enum_parent string h = cc
enum_parent integer h = cc
enum_parent float h = cc
enum_parent boolean h = cc
enum_parent enum h = refl
enum_parent unknown h = cc

number_parent :
    (v : ValueType)
    → parent_check (keyval_parent v) exc_value_range ≡ ok
    → (v ≡ integer) ⊎ (v ≡ float)
number_parent string h = absurd (cc)
number_parent integer h = inl refl
number_parent float h = inr refl
number_parent boolean h = absurd (cc)
number_parent enum h = absurd (cc)
number_parent unknown h = absurd (cc)

as_parent : (v : ValueType) → (v ≡ integer) ⊎ (v ≡ float) → Suits (keyval_parent v) exc_value_range
as_parent v (inl e) = inl (ap keyval_parent e)
as_parent v (inr e) = inr (ap keyval_parent e)

outcome-Suits : (p : ParentContext) (t : RestrictionType) → outcome p t ≡ ok → Suits p t
outcome-Suits p inc_entry_min h = tt
outcome-Suits p inc_entry_max h = tt
outcome-Suits section_parent exc_value_enum h = cc
outcome-Suits (keyval_parent v) exc_value_enum h = ap keyval_parent (enum_parent v h)
outcome-Suits section_parent exc_value_range h = absurd (cc)
outcome-Suits (keyval_parent v) exc_value_range h = as_parent v (number_parent v h)
outcome-Suits section_parent exc_value_numeric h = absurd (cc)
outcome-Suits (keyval_parent v) exc_value_numeric h = as_parent v (number_parent v h)
outcome-Suits section_parent unknown_restriction h = absurd (cc)
outcome-Suits (keyval_parent v) unknown_restriction h = absurd (cc)

Suits-outcome : (p : ParentContext) (t : RestrictionType) → Suits p t → outcome p t ≡ ok
Suits-outcome section_parent inc_entry_min h = refl
Suits-outcome (keyval_parent v) inc_entry_min h = refl
Suits-outcome section_parent inc_entry_max h = refl
Suits-outcome (keyval_parent v) inc_entry_max h = refl
Suits-outcome p exc_value_enum h = rw h
Suits-outcome p exc_value_range (inl e) = rw e
Suits-outcome p exc_value_range (inr e) = rw e
Suits-outcome p exc_value_numeric (inl e) = rw e
Suits-outcome p exc_value_numeric (inr e) = rw e
Suits-outcome p unknown_restriction h = absurd h

is_ok-eq : (s : Status) → is_ok s ≡ true → s ≡ ok
is_ok-eq ok h = refl
is_ok-eq _ h = cc

-- The calls that change a restriction
pub data Edit (D : Doubles) : Type 0 where
  retype : RestrictionType → Edit D
  retext : Option (List ℕ) → Edit D
  rerange : D.Double → D.Double → Edit D
  renumber : D.Double → Edit D

module _ {R : Type 0} (c d : R) where
  abbrev chosen : Bool → Bool → Bool → Bool → Status → Status → Status → Status × R
  chosen a f x y s t p =
      if a
      then (s, c)
      else if f
      then (t, c)
      else if x
      then (wrong_context, c)
      else if y
      then (ok, d)
      else (p, c)

  -- The tests of dc_set_restriction_type: the restriction is as it was, or all have passed.
  tests :
      (a f x y : Bool) (s t p : Status)
      → ((chosen a f x y s t p).1 ≡ c) ⊎ (((chosen a f x y s t p).1 ≡ d) × (x ≡ false) × (y ≡ true))
  tests true f x y s t p = inl refl
  tests false true x y s t p = inl refl
  tests false false true y s t p = inl refl
  tests false false false true s t p = inr (refl, refl, refl)
  tests false false false false s t p = inl refl

  chosen_status :
      (x : Bool) (p s t : Status)
      → (chosen false false x (is_ok p) s t p).0 ≡ (if x then wrong_context else p)
  chosen_status true p s t = refl
  chosen_status false p s t = elim (Bool-cases (is_ok p)) [
    | inl fine ↦ rw fine (sym (is_ok-eq p fine))
    | inr bad ↦ rw bad
  ]

  chosen_ok :
      (x : Bool) (p s t : Status)
      → (if x then wrong_context else p) ≡ ok
      → chosen false false x (is_ok p) s t p ≡ (ok, d)
  chosen_ok true p s t h = absurd (cc)
  chosen_ok false p s t h = rw h

module _ (D : Doubles) (truncate : D.Double → D.Double) where
  -- The call on a restriction, without its status
  abbrev pub edit : Edit D → RestrictionContext D → RestrictionContext D
  edit (retype t) c = (set_restriction_type D t c).1
  edit (retext text) c = (restriction_set_string D text c).1
  edit (rerange low high) c = (restriction_set_range D truncate low high c).1
  edit (renumber x) c = (restriction_set_numeric D truncate x c).1

  pub edits : List (Edit D) → RestrictionContext D → RestrictionContext D
  edits [] c = c
  edits (e ∷ es) c = edits es (edit e c)

  -- Its type suits its parent, or was not set yet.
  abbrev pub IsSuited : RestrictionContext D → Type 0
  IsSuited c = (c.re_type ≡ unknown_restriction) ⊎ Suits c.parent c.re_type

  -- A call that keeps the type and the parent
  abbrev Same : RestrictionContext D → RestrictionContext D → Type 0
  Same c d = (d.re_type ≡ c.re_type) × (d.parent ≡ c.parent)

  Same-IsSuited : (c d : RestrictionContext D) → Same c d → IsSuited c → IsSuited d
  Same-IsSuited c d s (inl e) = inl (s.0 ∙ e)
  Same-IsSuited c d s (inr h) =
      inr (subst (λ p. Suits p d.re_type) (sym s.1) (subst (Suits c.parent) (sym s.0) h))

  retype-IsSuited :
      (t : RestrictionType) (c : RestrictionContext D) → IsSuited c → IsSuited (edit (retype t) c)
  retype-IsSuited t c h =
      elim (tests c (record c { re_type = t }) (not (is_ok (start_check D c))) c.finalized
        (is_section c.parent && is_exclusive (group_type t)) (is_ok (parent_check c.parent t))
        (start_check D c) context_in_wrong_state (parent_check c.parent t)) [
          | inl same ↦ subst IsSuited (sym same) h
          | inr (set, inclusive_one, fine) ↦ subst IsSuited (sym set) (
              inr (
                outcome-Suits c.parent t
                  (rw inclusive_one (is_ok-eq (parent_check c.parent t) fine))))
        ]

  retext-Same : (text : Option (List ℕ)) (c : RestrictionContext D) → Same c (edit (retext text) c)
  retext-Same none c = ground arith
  retext-Same (some text) c = ground arith

  rerange-Same :
      (low high : D.Double) (c : RestrictionContext D) → Same c (edit (rerange low high) c)
  rerange-Same low high c = ground arith

  renumber-Same : (x : D.Double) (c : RestrictionContext D) → Same c (edit (renumber x) c)
  renumber-Same x c = ground arith

  edit-IsSuited : (e : Edit D) (c : RestrictionContext D) → IsSuited c → IsSuited (edit e c)
  edit-IsSuited (retype t) c h = retype-IsSuited t c h
  edit-IsSuited (retext text) c h = Same-IsSuited c (edit (retext text) c) (retext-Same text c) h
  edit-IsSuited (rerange low high) c h =
      Same-IsSuited c (edit (rerange low high) c) (rerange-Same low high c) h
  edit-IsSuited (renumber x) c h = Same-IsSuited c (edit (renumber x) c) (renumber-Same x c) h

  -- Whatever setters are called on a restriction, in any state: if its type suits its parent or was
  -- not set, then so it is afterwards. Minima and maxima suit every parent, an enum suits an enum
  -- keyval, ranges and numbers suit integer and float keyvals.
  pub edits-IsSuited :
      (es : List (Edit D)) (c : RestrictionContext D) → IsSuited c → IsSuited (edits es c)
  unfolding edits
  edits-IsSuited [] c h = h
  edits-IsSuited (e ∷ es) c h = edits-IsSuited es (edit e c) (edit-IsSuited e c h)

module _ (D : Doubles) where
  -- A living restriction that is not finalized
  pub record IsOpen (c : RestrictionContext D) : Type 0 where
    pub started : start_check D c ≡ ok
    pub building : c.finalized ≡ false

  -- On a living restriction that is not finalized, dc_set_restriction_type answers ok and sets the type,
  -- and changes nothing else, exactly where the type suits the parent.
  pub set_restriction_type-Suits :
      (t : RestrictionType) (c : RestrictionContext D)
      → IsOpen c
      → (set_restriction_type D t c ≡ (ok, record c { re_type = t })) ↔ Suits c.parent t
  set_restriction_type-Suits t c o =
      let d = record c { re_type = t } in
      let x = is_section c.parent && is_exclusive (group_type t) in
      let p = parent_check c.parent t in
      let opened : set_restriction_type D t c
          ≡ chosen c d false false x (is_ok p) (start_check D c) context_in_wrong_state p =
        λ i.
          chosen c d (not (is_ok (o.started i))) (o.building i) x (is_ok p) (start_check D c)
            context_in_wrong_state p in
      (
        λ h. outcome-Suits c.parent t (
            sym (chosen_status c d x p (start_check D c) context_in_wrong_state)
            ∙ ap (λ r. r.0) (sym opened ∙ h)),
        λ h.
            opened
            ∙ chosen_ok c d x p (start_check D c) context_in_wrong_state
                (Suits-outcome c.parent t h),
      )
