-- ===== src/Collection.antt =====
-- Collections of contexts: lib/collection.c, struct disir_collection of lib/include/collection.h.
-- Indices and counts are int32_t there; a collection of less than 2 ^ 31 entries keeps them all
-- non-negative, and where the source compares with a difference that may be -1 the comparison is
-- written without it.
pub mod Lists
pub mod Coalesce
pub mod Api
pub mod Valid
pub mod Next
pub mod Push
pub mod Finished
pub mod Walk
use disir_c.Prelude.{
  ℕ, zero, suc, ◌+◌, ◌-◌, ◌≡◌, Bool, true, false, Option, none, some, List, [], ◌∷◌, ◌++◌, max, ltb,
  leb, ◌==◌, ◌&&◌, if◌then◌else◌, get_elem?, set, replicate,
}
use disir_c.Context.{Contexts, incref, decref}
use disir_c.Status.{Status, ok, invalid_argument, exhausted, no_memory}

-- A slot of cc_collection: NULL is `none`.
abbrev pub Slots : Type 0
Slots = List (Option ℕ)

pub record Collection : Type 0 where
  pub cc_collection : Slots
  pub cc_capacity : ℕ
  pub cc_numentries : ℕ
  pub cc_iterator_index : ℕ

-- What reading the state bits through a slot meets: a slot outside of the array and a freed
-- context are faults.
pub data Seen : Type 0 where
  fault null : Seen
  dead live : ℕ → Seen

abbrev pub look_at : Contexts → ℕ → Seen
look_at s c = if s.allocated c then (if s.destroyed c then dead c else live c) else fault

abbrev pub look : Contexts → Option (Option ℕ) → Seen
look s none = fault
look s (some none) = null
look s (some (some c)) = look_at s c

-- The variables of dx_collection_coalesce.
pub record Sweep : Type 0 where
  pub contexts : Contexts
  pub slots : Slots
  pub index : ℕ
  pub probe : ℕ
  pub invalid_entries_count : ℕ
  pub iterator_moveback : ℕ

-- The context at `probe` moves to the slot at `index - 1`.
abbrev pub move : ℕ → ℕ → Sweep → Sweep
move iterator c s = record s {
  slots = set (set s.slots s.probe none) (s.index - 1) (some c);
  iterator_moveback =
      if leb iterator s.probe && ltb (s.index - 1) iterator
      then s.iterator_moveback + 1
      else s.iterator_moveback;
  probe = s.probe + 1;
}

-- The inner loop, over the entries from `probe` on: `context` is NULL when it starts, so it stops
-- behind the first entry that is not destroyed. An entry that is NULL is dereferenced.
unfoldable pub seek : ℕ → ℕ → Sweep → Option Sweep
seek zero iterator s = some s
seek (suc rounds) iterator s = elim (look s.contexts (get_elem? s.slots s.probe)) [
  | fault ↦ none
  | null ↦ none
  | dead c ↦ seek rounds iterator (record s { probe = s.probe + 1 })
  | live c ↦ some (move iterator c s)
]

-- Behind an invalid entry: `probe` is brought up to `index`, then the inner loop runs.
abbrev pub refill : ℕ → ℕ → Sweep → Option Sweep
refill entries iterator s =
    seek (entries - max s.probe s.index) iterator (record s { probe = max s.probe s.index })

abbrev pub drop_entry : ℕ → Sweep → Sweep
drop_entry c s = record s {
  contexts = decref c s.contexts;
  invalid_entries_count = s.invalid_entries_count + 1;
  slots = set s.slots (s.index - 1) none;
}

-- The body of the outer loop, on the entry at `index`, with `index` advanced.
unfoldable pub sweep_entry : ℕ → ℕ → Sweep → Option Sweep
sweep_entry entries iterator s =
    let next : Sweep = record s { index = s.index + 1 } in
    elim (look s.contexts (get_elem? s.slots s.index)) [
      | fault ↦ none
      | null ↦ refill entries iterator next
      | dead c ↦ refill entries iterator (drop_entry c next)
      | live c ↦ some next
    ]

-- The outer loop; `rounds` is what `index` lacks to the number of entries.
unfoldable pub sweep : ℕ → ℕ → ℕ → Sweep → Option Sweep
sweep zero entries iterator s = some s
sweep (suc rounds) entries iterator s = elim (sweep_entry entries iterator s) [
  | none ↦ none
  | some next ↦ sweep rounds entries iterator next
]

abbrev pub start : Contexts → Collection → Sweep
start s k = record {
  contexts = s;
  slots = k.cc_collection;
  index = 0;
  probe = 1;
  invalid_entries_count = 0;
  iterator_moveback = 0;
}

-- What the loops leave, written back.
abbrev pub finish_sweep : Collection → Sweep → Contexts × Collection
finish_sweep k s = (
  s.contexts,
  record k {
    cc_collection = s.slots;
    cc_numentries = k.cc_numentries - s.invalid_entries_count;
    cc_iterator_index = k.cc_iterator_index - s.iterator_moveback;
  },
)

-- dx_collection_coalesce on a collection that is not NULL; `none` is a fault.
unfoldable pub coalesce : Contexts → Collection → Option (Contexts × Collection)
unfolding sweep
coalesce s k = elim (sweep k.cc_numentries k.cc_numentries k.cc_iterator_index (start s k)) [
  | none ↦ none
  | some done ↦ some (finish_sweep k done)
]
