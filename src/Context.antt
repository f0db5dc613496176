-- ===== src/Context.antt =====
-- Context objects as the collections and the storage see them: lib/context_util.c (reference counts)
-- and the state bits of struct disir_context in lib/include/context_private.h.
-- A context is named by its address, a number. cx_refcount is int64_t; a context that is allocated
-- has at least one reference, so the truncated subtraction of the model is the program's.
pub mod Counts
use disir_c.Prelude.{
  ℕ, ◌+◌, ◌-◌, ◌≡◌, ◌<◌, ◌≤◌, Bool, true, false, Option, none, some, List, [], ◌∷◌, ◌==◌,
  if◌then◌else◌,
}

-- enum disir_context_type of include/disir/context.h
pub data ContextType : Type 0 where
  config_type mold_type section_type keyval_type documentation_type default_type : ContextType
  restriction_type unknown_type : ContextType

abbrev pub context_number : ContextType → ℕ
context_number config_type = 1
context_number mold_type = 2
context_number section_type = 3
context_number keyval_type = 4
context_number documentation_type = 5
context_number default_type = 6
context_number restriction_type = 7
context_number unknown_type = 8

pub record Contexts : Type 0 where
  pub allocated : ℕ → Bool
  pub destroyed : ℕ → Bool
  pub refcount : ℕ → ℕ

abbrev pub update {ℓ} : {A : Type ℓ} → (ℕ → A) → ℕ → A → ℕ → A
update f c v d = if c == d then v else f d

abbrev pub incref : ℕ → Contexts → Contexts
incref c s = record s { refcount = update s.refcount c (s.refcount c + 1) }

-- At zero references the context is freed.
abbrev pub decref : ℕ → Contexts → Contexts
decref c s =
    let left = s.refcount c - 1 in
    record s {
      refcount = update s.refcount c left;
      allocated = if left == 0 then update s.allocated c false else s.allocated;
    }

-- One reference dropped for each entry of the list, in order.
abbrev pub release : List ℕ → Contexts → Contexts
release [] s = s
release (c ∷ cs) s = release cs (decref c s)

abbrev pub count : ℕ → List ℕ → ℕ
count c [] = 0
count c (d ∷ ds) = (if c == d then 1 else 0) + count c ds

-- Every entry of the list owns a reference, and what has references is allocated.
pub record Holds (s : Contexts) (cs : List ℕ) : Type 0 where
  pub owned : (c : ℕ) → count c cs ≤ s.refcount c
  pub backed : (c : ℕ) → 0 < s.refcount c → s.allocated c ≡ true
