-- ===== src/Lib.antt =====
-- libdisir: a model of the library's own logic in lib/*.c and lib/include/*.h.
--
-- Parts, each with the file that models it:
-- - Status: enum disir_status of include/disir/disir.h.
-- - Version: struct disir_version; the dc_version_* functions of lib/util.c,
--   dx_mold_update_version of lib/context_mold.c.
-- - Context: the reference count, the state bit DESTROYED and the allocation of a struct
--   disir_context (lib/context_util.c), as far as a holder of context pointers uses them. A context
--   is named by its address, a number.
-- - Collection: struct disir_collection and all of lib/collection.c. Collection holds
--   dx_collection_coalesce, Collection/Api the public functions over it, Collection/Valid says what
--   a valid collection is.
-- - Value: struct disir_value and the dx_value_* functions of lib/util.c. The C library and the type
--   double are the parameter Platform; Value/Copy states what it relies on (IsPlatform).
-- - Queue: the intrusive lists of lib/include/mqueue.h, on which defaults, restrictions and
--   documentation hang. Queue/Chain says which list of elements a queue represents.
-- - Default: kv_default_queue of a keyval, from lib/context_default.c, over Queue and Version.
-- - Restriction: dx_restriction_exclusive_value_check (Restriction/Exclusive; Restriction/Permits says
--   what the restrictions permit) and dx_restriction_entries_value (Restriction/Entries) of
--   lib/context_restriction.c, the names of the types (Restriction/Names), and the setters and getters
--   of a restriction (Restriction/Edit). The type double is the parameter Doubles.
-- - Validate: lib/validate.c on the contexts of a config, a tree of sections and keyvals.
--   Validate/Name, Validate/Values and Validate/Inclusive hold the checks of one context,
--   Validate/Tree the recursion over the children, Validate/Settle what dx_validate_context makes of
--   a status, Validate/Invalid dx_invalid_elements; Validate/Conforms says without statuses which
--   contexts are valid, Validate/Readable for which configs no NULL is compared.
-- - Update: lib/update.c. Update/Collect holds retrieve_all_keyvals_recursively, Update/Run the merge
--   of disir_update_continue and the functions on a conflict, Update/Drive the loop of
--   dx_update_config_with_changes; Update/Merge says what a merge is. It uses
--   dx_default_get_active of Default and the values of Value.
-- - Text: strtol and the decimal digits that printf writes; Version/Print holds dc_version_string and
--   dc_version_convert.
-- - Query: dx_query_resolve_name and query_resolve_name_to_context of lib/query.c, with
--   dc_find_element of lib/context.c. The multimap of an element storage is read as the list of its
--   elements, in the order of their insertion.
-- - Compare: lib/compare.c on contexts that are trees. Compare/Queues holds the comparison of the
--   queues, Compare/Loops the loops over the elements, Compare/Contexts the comparison of contexts
--   and dc_compare, Compare/Report the report; Compare/Alike says which contexts are alike.
-- - Setter: lib/context_value.c. Setter/Checks holds the input checks, Setter/Store the restriction
--   check and the store, Setter/Api the setters, Setter/Getters the getters; Setter/Obeys says what
--   a finalized keyval promises. It uses Value, Restriction and Text.
-- - Error: disir_error_clear and disir_error_copy of lib/error.c.
--
-- Conventions. A pointer that may be NULL is an option. A result of type Option whose `none` stands
-- for a fault (a read or a write outside of an array, a NULL or a freed pointer that is
-- dereferenced) keeps the faults of the program visible, so that a theorem that gives `some` says
-- that there is none. What malloc, calloc and realloc answer is an argument. Numbers of type
-- uint32_t wrap modulo 2 ^ 32 where the program computes with them. The loops over an array are
-- recursions on the number of rounds that their condition leaves. The loops of Queue that follow
-- pointers take a number of rounds; one more than the number of elements is enough for each of them,
-- and for an insertion that number. The loop of Update/Drive takes rounds too, as it need not end;
-- the loop around vsnprintf in Compare/Report needs two; the recursion over a name in Query takes
-- one round for each component.
--
-- Not modelled: how contexts are begun, finalized and destroyed (lib/context.c and the rest of the
-- lib/context_*.c files), the validation of the contexts of a mold, the config that an update
-- generates for its target (disir_update_finished, and what disir_update_resolve writes), the
-- queries that create contexts (dx_query_ensure_ancestors of lib/query.c), the storage of elements
-- (lib/element_storage.c), the generation of configs (lib/generate.c),
-- instances, plugins and entries (lib/disir*.c): these are to come. Left out are the C++ back ends,
-- archives and plugins (lib/fslib, lib/disir_archive*.cc, lib/disir_export.cc, plugins, cli), which
-- do input and output; logging; the vendored libraries.
pub mod Prelude
pub mod Status
pub mod Text
pub mod Version
pub mod Context
pub mod Collection
pub mod Value
pub mod Queue
pub mod Default
pub mod Restriction
pub mod Validate
pub mod Update
pub mod Query
pub mod Compare
pub mod Setter
pub mod Error
mod Tests
