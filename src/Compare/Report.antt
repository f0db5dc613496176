-- ===== src/Compare/Report.antt =====
-- struct disir_diff_report and its functions in lib/compare.c: an array of texts that doubles. What
-- malloc, calloc and realloc answer is an argument, as is what a format prints.
pub mod Grows
use disir_c.Prelude.{
  ℕ, zero, suc, ◌+◌, ◌-◌, ◌*◌, Bool, true, false, Option, none, some, List, [], ◌∷◌, ◌++◌, ltb, leb,
  ◌==◌, if◌then◌else◌, length, set, take, replicate,
}

-- An entry of the array that was not written to is `none`.
pub record Report : Type 0 where
  pub dr_internal_allocated : ℕ
  pub dr_entries : ℕ
  pub dr_diff_string : List (Option (List ℕ))

-- dx_diff_report_create: the outer `none` is the NULL pointer that the error path dereferences, where
-- the report is not allocated; the inner one is the answer NULL.
abbrev pub report_create : Bool → Bool → Option (Option Report)
report_create false strings = none
report_create true false = some none
report_create true true = some (
    some
      (record { dr_internal_allocated = 20; dr_entries = 0; dr_diff_string = replicate 20 none }))

-- Whether the array can grow, the text is allocated, and the text can grow.
pub record Granted : Type 0 where
  pub array : Bool
  pub text : Bool
  pub longer : Bool

-- The loop around vsnprintf, with rounds for it: the text in the buffer of n bytes, and whether it
-- is complete. `sizeof ('\0')` is the size of an int.
unfoldable pub write_text : ℕ → ℕ → Bool → List ℕ → Option (List ℕ × Bool)
write_text zero n longer text = none
write_text (suc rounds) n longer text =
    let more = write_text rounds (length text + 4) longer text in
    if leb n (length text)
    then (if longer then more else some (take (n - 1) text, false))
    else some (text, true)

-- A write outside of the array is `none`.
abbrev pub put : ℕ → Option (List ℕ) → Report → Option Report
put i text r =
    if ltb i (length r.dr_diff_string)
    then some (record r { dr_diff_string = set r.dr_diff_string i text })
    else none

-- The entry is counted where its text is complete.
abbrev pub count_entry : Option (List ℕ × Bool) → Report → Option Report
count_entry none r = none
count_entry (some (text, false)) r = put r.dr_entries (some text) r
count_entry (some (text, true)) r = elim (put r.dr_entries (some text) r) [
  | none ↦ none
  | some s ↦ some (record s { dr_entries = r.dr_entries + 1 })
]

-- The text of a new entry; without a text, vsnprintf has met an encoding error.
abbrev pub add_text : ℕ → Granted → Option (List ℕ) → Report → Option Report
add_text rounds g printed r = elim g.text [
  | false ↦ put r.dr_entries none r
  | true ↦ elim printed [
    | none ↦ put r.dr_entries (some []) r
    | some text ↦ count_entry (write_text rounds 128 g.longer text) r
  ]
]

abbrev pub double : Report → Report
double r = record r {
  dr_internal_allocated = r.dr_internal_allocated * 2;
  dr_diff_string = r.dr_diff_string ++ replicate r.dr_internal_allocated none;
}

-- dx_diff_report_add
abbrev pub report_add : ℕ → Granted → Option (List ℕ) → Report → Option Report
report_add rounds g printed r =
    if r.dr_entries == r.dr_internal_allocated
    then (if g.array then add_text rounds g printed (double r) else some r)
    else add_text rounds g printed r
