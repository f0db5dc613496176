-- ===== src/Collection/Api.antt =====
-- The public functions of lib/collection.c over dx_collection_coalesce. A pointer that may be NULL
-- is an option; what the allocator answers is an argument; `none` as a whole result is a fault.
use disir_c.Prelude.{
  ℕ, zero, suc, ◌+◌, Bool, true, false, Option, none, some, ◌++◌, ltb, leb, ◌==◌, if◌then◌else◌,
  get_elem?, set, length, replicate,
}
use disir_c.Context.{Contexts, incref, decref}
use disir_c.Status.{Status, ok, invalid_argument, exhausted, no_memory}
use disir_c.Collection.{Slots, Collection, Seen, fault, null, dead, live, look, coalesce}

-- What a call leaves: its status, the context that it hands out, and the state.
pub record Answer : Type 0 where
  pub status : Status
  pub context : Option ℕ
  pub contexts : Contexts
  pub collection : Option Collection

abbrev pub refuse : Contexts → Option Collection → Option Answer
refuse s k =
    some (record { status = invalid_argument; context = none; contexts = s; collection = k })

-- The new collection of dc_collection_create; `allocated` are the answers of the two calloc calls.
abbrev pub create : Bool → Bool → Option Collection
create false second = none
create true false = none
create true true = some (record {
  cc_collection = replicate 10 none;
  cc_capacity = 10;
  cc_numentries = 0;
  cc_iterator_index = 0;
})

-- A context is handed out with a reference of its own; a NULL or freed one cannot be.
abbrev pub hand_out : Contexts → Collection → Seen → ℕ → Option Answer
hand_out s k fault i = none
hand_out s k null i = none
hand_out s k (dead c) i = some (record {
  status = ok;
  context = some c;
  contexts = incref c s;
  collection = some (record k { cc_iterator_index = i + 1 });
})
hand_out s k (live c) i = some (record {
  status = ok;
  context = some c;
  contexts = incref c s;
  collection = some (record k { cc_iterator_index = i + 1 });
})

-- The end of dc_collection_next. With int32_t, `index > numentries - 1` is `numentries <= index`.
abbrev pub yield_next : Contexts → Collection → Option Answer
yield_next s k =
    if leb k.cc_numentries k.cc_iterator_index
    then some (record { status = exhausted; context = none; contexts = s; collection = some k })
    else hand_out s k (look s (get_elem? k.cc_collection k.cc_iterator_index)) k.cc_iterator_index

-- dx_collection_next_noncoalesce; the flag says that the output pointer is not NULL.
abbrev pub next_noncoalesce : Contexts → Option Collection → Bool → Option Answer
next_noncoalesce s none output = refuse s none
next_noncoalesce s (some k) false = refuse s (some k)
next_noncoalesce s (some k) true = yield_next s k

-- dc_collection_next
abbrev pub next : Contexts → Option Collection → Bool → Option Answer
next s none output = refuse s none
next s (some k) false = refuse s (some k)
next s (some k) true = elim (coalesce s k) [ none ↦ none | some (s', k') ↦ yield_next s' k' ]

-- dc_collection_reset
abbrev pub reset : Option Collection → Status × Option Collection
reset none = (invalid_argument, none)
reset (some k) = (ok, some (record k { cc_iterator_index = 0 }))

-- dc_collection_size, with the state that the coalescing leaves
abbrev pub size : Contexts → Option Collection → Option (ℕ × Contexts × Option Collection)
size s none = some (0, s, none)
size s (some k) = elim (coalesce s k) [
  | none ↦ none
  | some (s', k') ↦ some (k'.cc_numentries, s', some k')
]

-- The write of dc_collection_push_context; a slot outside of the array is a fault.
abbrev pub append_entry : Contexts → Collection → ℕ → Option Answer
append_entry s k c =
    if ltb k.cc_numentries (length k.cc_collection)
    then some (record {
      status = ok;
      context = none;
      contexts = incref c s;
      collection = some (record k {
        cc_collection = set k.cc_collection k.cc_numentries (some c);
        cc_numentries = k.cc_numentries + 1;
      });
    })
    else none

-- realloc answers NULL or the ten slots that it adds, whose contents are not specified.
abbrev pub grow : Contexts → Collection → ℕ → Option Slots → Option Answer
grow s k c none =
    some (record { status = no_memory; context = none; contexts = s; collection = some k })
grow s k c (some added) =
    append_entry s
      (record k { cc_collection = k.cc_collection ++ added; cc_capacity = k.cc_capacity + 10 }) c

abbrev pub push_entry : Contexts → Collection → ℕ → Option Slots → Option Answer
push_entry s k c answer =
    if k.cc_numentries == k.cc_capacity then grow s k c answer else append_entry s k c

-- dc_collection_push_context
abbrev pub push_context : Contexts → Option Collection → Option ℕ → Option Slots → Option Answer
push_context s none c answer = refuse s none
push_context s (some k) none answer = refuse s (some k)
push_context s (some k) (some c) answer = elim (coalesce s k) [
  | none ↦ none
  | some (s', k') ↦ push_entry s' k' c answer
]

-- The loop of dc_collection_finished: every entry that is not NULL gives up its reference.
unfoldable pub release_entries : ℕ → ℕ → Slots → Contexts → Option Contexts
release_entries zero index slots s = some s
release_entries (suc rounds) index slots s = elim (look s (get_elem? slots index)) [
  | fault ↦ none
  | null ↦ release_entries rounds (index + 1) slots s
  | dead c ↦ release_entries rounds (index + 1) slots (decref c s)
  | live c ↦ release_entries rounds (index + 1) slots (decref c s)
]

-- dc_collection_finished: the collection is freed, and the caller's pointer is NULL.
abbrev pub finished : Contexts → Option Collection → Option Answer
finished s none = refuse s none
finished s (some k) = elim (release_entries k.cc_numentries 0 k.cc_collection s) [
  | none ↦ none
  | some s' ↦ some (record { status = ok; context = none; contexts = s'; collection = none })
]
