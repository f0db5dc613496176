-- ===== src/Query/Component.antt =====
-- dx_query_resolve_name of lib/query.c on a component of a path that is written out.
use disir_c.Prelude.{
  ℕ, suc, ◌+◌, ◌/◌, ◌%◌, ◌<◌, ◌≡◌, refl, ap, sym, ◌∙◌, Bool, true, false, not, ◌&&◌, Option, none,
  some, List, [], ◌∷◌, ◌++◌, ltb, if◌then◌else◌, inl, inr, Bool-cases, arith,
}
use mathlib.Core.List.{append-nil}
use disir_c.Prelude.Int.{pos, to_int32}
use disir_c.Status.{ok}
use disir_c.Text.{strtol, decimal, digits_from, positive}
use disir_c.Text.Digits.{strtol-decimal}
use disir_c.Query.{cut_at, is_empty, is_found, Resolved, resolve_index, resolve_name}
use disir_c.Query.Cut.{lacks, lacks-append, cut_at-found, cut_at-lacks, digits_from-lacks}

-- A name that can stand in a path: it has characters, none of them `.` or `@`.
abbrev pub is_key : List ℕ → Bool
is_key name = not (is_empty name) && (lacks 46 name && lacks 64 name)

-- The component as it is written, with its index.
abbrev pub component : List ℕ → ℕ → List ℕ
component name index = name ++ (64 ∷ decimal index)

-- What stands behind a component: nothing, or a period and the rest of the path.
abbrev pub behind : Option (List ℕ) → List ℕ
behind none = []
behind (some rest) = 46 ∷ rest

-- The name is found, the index is read, and the rest of the path is next.
pub record Reads (name : List ℕ) (index : ℕ) (rest : Option (List ℕ)) (r : Resolved) : Type 0 where
  pub resolves : r.status ≡ ok
  pub same_name : r.name ≡ name
  pub same_index : r.index ≡ pos index
  pub same_next : r.next ≡ rest

component-lacks :
    (name : List ℕ) (index : ℕ) → lacks 46 name ≡ true → lacks 46 (component name index) ≡ true
component-lacks name index h =
    lacks-append 46 name (64 ∷ decimal index) h (digits_from-lacks 46 refl (suc index) index)

cut-component :
    (name : List ℕ) (index : ℕ) (rest : Option (List ℕ))
    → lacks 46 name ≡ true
    → cut_at 46 (component name index ++ behind rest) ≡ (component name index, rest)
cut-component name index none h =
    ap (cut_at 46) (append-nil (component name index))
    ∙ cut_at-lacks 46 (component name index) (component-lacks name index h)
cut-component name index (some t) h =
    cut_at-found 46 (component name index) t (component-lacks name index h)

strtol-index : (index : ℕ) → strtol (decimal index) ≡ some (positive index, [])
strtol-index index = ap strtol (sym (append-nil (decimal index))) ∙ strtol-decimal index [] refl

to_int32-positive : (index : ℕ) → index < 2147483648 → to_int32 (positive index) ≡ pos index
to_int32-positive index lt = ground arith

snoc-filled : (xs : List ℕ) (d : ℕ) → is_empty (xs ++ (d ∷ [])) ≡ false
snoc-filled [] d = refl
snoc-filled (x ∷ xs) d = refl

decimal-filled : (n : ℕ) → is_empty (decimal n) ≡ false
unfolding digits_from
decimal-filled n = elim (Bool-cases (ltb n 10)) [
  | inl e ↦ rw e refl
  | inr e ↦ rw e (snoc-filled (digits_from n (n / 10)) (48 + n % 10))
]

index_Reads :
    (name : List ℕ) (index : ℕ) (resolved : List ℕ) (rest : Option (List ℕ))
    → index < 2147483648
    → Reads name index rest (resolve_index name (decimal index) resolved rest)
index_Reads name index resolved rest lt =
    let value = strtol-index index in
    let filled = decimal-filled index in
    let small = to_int32-positive index lt in
    record {
      resolves = ground (arith, value, filled);
      same_name = ground (arith, value, filled);
      same_index = ground (arith, value, filled, small);
      same_next = ground (arith, value, filled);
    }

component-filled : (name : List ℕ) (index : ℕ) → is_empty (component name index) ≡ false
component-filled [] index = refl
component-filled (c ∷ cs) index = refl

and_false : (b : Bool) → (b && false) ≡ false
and_false true = refl
and_false false = refl

key_name :
    (name : List ℕ) (index : ℕ) (rest : Option (List ℕ)) (resolved : List ℕ)
    → is_key name ≡ true
    → resolve_name (component name index ++ behind rest) resolved
      ≡ resolve_index name
          (decimal index)
          ((if is_empty resolved then resolved else resolved ++ (46 ∷ [])) ++ (name ++ (64 ∷ [])))
          rest
key_name name index rest resolved h =
    let dot = cut-component name index rest (ground (arith, h)) in
    let sign = cut_at-found 64 name (decimal index) (ground (arith, h)) in
    let filled : is_empty name ≡ false = ground (arith, h) in
    rw (dot, sign, component-filled name index, filled, resolve_name)
      (rw (and_false (is_found rest)) refl)

-- A component whose name has characters, none of them a separator, and that is written with its
-- index, an int, is read back, whatever the rest of the path is.
pub resolve_name-Reads :
    (name : List ℕ) (index : ℕ) (rest : Option (List ℕ)) (resolved : List ℕ)
    → is_key name ≡ true
    → index < 2147483648
    → Reads name index rest (resolve_name (component name index ++ behind rest) resolved)
resolve_name-Reads name index rest resolved h lt = rw (key_name name index rest resolved h) (
    index_Reads name index
      ((if is_empty resolved then resolved else resolved ++ (46 ∷ [])) ++ (name ++ (64 ∷ []))) rest
      lt)
