-- ===== src/Query.antt =====
-- The names of contexts in queries, "first@3.second.third@1": dx_query_resolve_name and
-- query_resolve_name_to_context of lib/query.c, with dc_find_element of lib/context.c. A text is the
-- list of its characters. The buffers are long enough; what is written to the log is left out.
pub mod Cut
pub mod Component
pub mod RoundTrip
use disir_c.Prelude.{
  ℕ, zero, suc, ◌+◌, ◌-◌, ◌%◌, Bool, true, false, not, ◌&&◌, Option, none, some, List, [], ◌∷◌,
  ◌++◌, ◌==◌, ltb, length, get_elem?, if◌then◌else◌,
}
use disir_c.Prelude.Int.{ℤ, pos, negsuc, to_int32}
use disir_c.Status.{Status, ok, invalid_argument, not_exist, wrong_context, is_ok}
use disir_c.Restriction.Exclusive.{same_text}
use disir_c.Text.{strtol}

-- strchr, with the found character overwritten by a zero: what is in front of it, and what is behind.
unfoldable pub cut_at : ℕ → List ℕ → List ℕ × Option (List ℕ)
cut_at c [] = ([], none)
cut_at c (d ∷ ds) = if d == c then ([], some ds) else (d ∷ (cut_at c ds).0, (cut_at c ds).1)

abbrev pub is_empty : List ℕ → Bool
is_empty [] = true
is_empty (c ∷ cs) = false

abbrev pub is_found : Option (List ℕ) → Bool
is_found none = false
is_found (some t) = true

-- What dx_query_resolve_name leaves: its status, the text at `name`, the buffer `resolved`, *index and,
-- where the status is OK, *next.
pub record Resolved : Type 0 where
  pub status : Status
  pub name : List ℕ
  pub resolved : List ℕ
  pub index : ℤ
  pub next : Option (List ℕ)

abbrev pub refused : List ℕ → List ℕ → ℤ → Resolved
refused name resolved index = record {
  status = invalid_argument;
  name = name;
  resolved = resolved;
  index = index;
  next = none;
}

-- The index, behind the index indicator.
abbrev pub resolve_index : List ℕ → List ℕ → List ℕ → Option (List ℕ) → Resolved
resolve_index key text resolved below =
    if is_empty text then refused key resolved (pos 0) else elim (strtol text) [
      | none ↦ refused key (resolved ++ text) (pos 0)
      | some (n, end) ↦
          if is_empty end
          then (record {
            status = ok;
            name = key;
            resolved = resolved ++ text;
            index = to_int32 n;
            next = below;
          })
          else refused key (resolved ++ text) (to_int32 n)
    ]

-- The key and what stands behind the index indicator, the key separator being cut off.
abbrev pub resolve_key : List ℕ → Option (List ℕ) → List ℕ → Option (List ℕ) → Resolved
resolve_key key none resolved below = record {
  status = ok;
  name = key;
  resolved = resolved ++ key;
  index = pos 0;
  next = below;
}
resolve_key key (some text) resolved below =
    if is_empty key
    then refused key (resolved ++ (64 ∷ [])) (pos 0)
    else resolve_index key text (resolved ++ (key ++ (64 ∷ []))) below

-- dx_query_resolve_name, on a parent that is no NULL pointer
abbrev pub resolve_name : List ℕ → List ℕ → Resolved
resolve_name name resolved =
    let at_dot : List ℕ × Option (List ℕ) = cut_at 46 name in
    let at_sign : List ℕ × Option (List ℕ) = cut_at 64 at_dot.0 in
    if is_found at_dot.1 && is_empty at_dot.0
    then refused at_dot.0 (resolved ++ (46 ∷ [])) (pos 0)
    else resolve_key at_sign.0 at_sign.1
        (if is_empty resolved then resolved else resolved ++ (46 ∷ [])) at_dot.1

-- A context by its address: one without elements, and one with the elements of its storage, in the
-- order of their insertion.
mutual
  pub data Context : Type 0 where
    leaf : ℕ → Context
    branch : ℕ → Elements → Context

  pub data Elements : Type 0 where
    end : Elements
    element : List ℕ → Context → Elements → Elements

-- The collection of dx_element_storage_get.
unfoldable pub named : List ℕ → Elements → List Context
named name end = []
named name (element other c cs) = if same_text other name then c ∷ named name cs else named name cs

-- an int that is passed as an unsigned int
abbrev pub to_unsigned : ℤ → ℕ
to_unsigned (pos n) = n
to_unsigned (negsuc n) = 4294967295 - n

-- The element at an index of the collection that was found.
abbrev pub pick : List Context → ℕ → Status × Option Context
pick [] i = (not_exist, none)
pick (c ∷ cs) i = if ltb (length cs) i then (not_exist, none) else (ok, get_elem? (c ∷ cs) i)

-- dc_find_element, over dc_find_elements
abbrev pub find_element : Context → List ℕ → ℤ → Status × Option Context
find_element (leaf a) name index = (wrong_context, none)
find_element (branch a es) name index = pick (named name es) (to_unsigned index)

-- query_resolve_name_to_context behind dx_query_resolve_name; `below` is its call of itself.
abbrev pub descend :
    (Context → List ℕ → List ℕ → Option (Status × Option Context))
    → Context
    → Resolved
    → Option (Status × Option Context)
descend below parent r = elim (is_ok r.status) [
  | false ↦ some (r.status, none)
  | true ↦ elim (find_element parent r.name r.index).1 [
    | none ↦ some (find_element parent r.name r.index)
    | some found ↦ elim r.next [
      | none ↦ some (find_element parent r.name r.index)
      | some next_name ↦ below found next_name r.resolved
    ]
  ]
]

-- query_resolve_name_to_context, with a number of rounds; `none` where they are used up.
unfoldable pub resolve_to_context : ℕ → Context → List ℕ → List ℕ → Option (Status × Option Context)
resolve_to_context zero parent name resolved = none
resolve_to_context (suc n) parent name resolved =
    descend (resolve_to_context n) parent (resolve_name name resolved)
