-- ===== src/Default.antt =====
-- The default entries of a keyval in a mold: lib/context_default.c, struct disir_default of
-- lib/include/default.h. The entries hang on kv_default_queue, a queue of Queue; an entry is named
-- by its address, and `introduced` reads its de_introduced.
pub mod Sorted
pub mod Active
pub mod Latest
use disir_c.Prelude.{ℕ, Bool, true, false, not, Option, none, some, ◌==◌, if◌then◌else◌}
use disir_c.Prelude.Int.{pos, ltb_ℤ}
use disir_c.Version.{Version, version_compare}
use disir_c.Queue.{Queue, tail, find, enqueue_conditional, remove_safe}

abbrev pub same_pointer : Option ℕ → Option ℕ → Bool
same_pointer none none = true
same_pointer none (some b) = false
same_pointer (some a) none = false
same_pointer (some a) (some b) = a == b

-- The entry in front of the one that the search found, unless that one is the first.
abbrev pub step_back : Queue → Option ℕ → Option ℕ
step_back q none = none
step_back q (some e) = if same_pointer (q.prev e) (tail q) then some e else q.prev e

abbrev pub or_tail : Queue → Option ℕ → Option ℕ
or_tail q none = tail q
or_tail q (some e) = some e

module _ (introduced : ℕ → Version) where
  -- `dc_version_compare (&entry->de_introduced, version) > 0`
  abbrev pub is_later : Version → ℕ → Bool
  is_later v e = ltb_ℤ (pos 0) (version_compare (introduced e) v)

  -- The insertion of dx_default_finalize; `none` is a NULL dereference or too few rounds.
  abbrev pub default_enqueue : ℕ → ℕ → Queue → Option Queue
  default_enqueue rounds def q = enqueue_conditional rounds def (is_later (introduced def)) q

  -- dx_default_get_active; the outer option is `none` where the rounds run out.
  abbrev pub default_get_active : ℕ → Queue → Option Version → Option (Option ℕ)
  default_get_active rounds q version = elim q.first [
    | none ↦ some none
    | some h ↦ elim version [
      | none ↦ some (tail q)
      | some v ↦ elim (find rounds (is_later v) q) [
        | none ↦ none
        | some found ↦ some (or_tail q (step_back q found))
      ]
    ]
  ]

-- The unlinking of dx_default_destroy, with the state bit DESTROYED of the parent, a keyval. The
-- flag is tested as the program tests it: the entry leaves the queue of a destroyed parent only.
abbrev pub default_unlink : ℕ → Bool → ℕ → Queue → Option Queue
default_unlink rounds destroyed def q =
    if destroyed
    then elim (remove_safe rounds def q) [ none ↦ none | some (found, left) ↦ some left ]
    else some q
