-- ===== src/Compare/Report/Grows.antt =====
-- dx_diff_report_add of lib/compare.c stays within the array, and adds an entry or none.
use disir_c.Prelude.{
  ℕ, zero, suc, ◌+◌, ◌≡◌, ◌≤◌, ◌<◌, ◌⊎◌, refl, ap, sym, ◌∙◌, inl, inr, Bool, true, false, Option,
  none, some, List, [], ◌∷◌, ◌++◌, map, arith, ltb, leb, ◌==◌, length, set, take, drop, replicate,
  Bool-cases, ==_iff, length-append, length-replicate,
}
use mathlib.Core.List.{append_assoc}
use disir_c.Compare.Report.{
  Report, Granted, write_text, put, count_entry, add_text, double, report_add,
}

-- The report holds the texts, and has room for as many as it says.
pub record Represents (r : Report) (ts : List (List ℕ)) : Type 0 where
  pub rest : List (Option (List ℕ))
  pub stored : r.dr_diff_string ≡ map some ts ++ rest
  pub counted : r.dr_entries ≡ length ts
  pub backed : length r.dr_diff_string ≡ r.dr_internal_allocated
  pub started : 0 < r.dr_internal_allocated

-- The report is as it was, or has the text as a further entry.
pub record Added (answer : Option Report) (ts : List (List ℕ)) (printed : Option (List ℕ))
    : Type 0 where
  pub report : Report
  pub answered : answer ≡ some report
  pub holds :
      Represents report ts ⊎ ((t : List ℕ) × (printed ≡ some t) × Represents report (ts ++ t ∷ []))

length-map : (ts : List (List ℕ)) → length (map some ts) ≡ length ts
length-map [] = refl
length-map (t ∷ ts) = ap suc (length-map ts)

map-snoc : (ts : List (List ℕ)) (t : List ℕ) → map some (ts ++ t ∷ []) ≡ map some ts ++ some t ∷ []
map-snoc [] t = refl
map-snoc (u ∷ ts) t = ap (λ l. some u ∷ l) (map-snoc ts t)

set-behind :
    (xs : List (Option (List ℕ))) (y z : Option (List ℕ)) (ys : List (Option (List ℕ))) (i : ℕ)
    → i ≡ length xs
    → set (xs ++ y ∷ ys) i z ≡ xs ++ z ∷ ys
set-behind [] y z ys zero e = refl
set-behind [] y z ys (suc i) e = absurd (omega arith)
set-behind (x ∷ xs) y z ys zero e = absurd (omega arith)
set-behind (x ∷ xs) y z ys (suc i) e = ap (λ l. x ∷ l) (set-behind xs y z ys i (omega arith))

leb_more : (n : ℕ) → leb (n + 4) n ≡ false
leb_more n = ground arith

-- Two rounds are enough for the loop.
write_text-some :
    (longer : Bool) (text : List ℕ)
    → (write_text 2 128 longer text ≡ some (text, true))
      ⊎ (write_text 2 128 longer text ≡ some (take 127 text, false))
unfolding write_text
write_text-some true text = elim (Bool-cases (leb 128 (length text))) [
  | inl long ↦ inl (rw long (rw (leb_more (length text))))
  | inr short ↦ inl (rw short)
]
write_text-some false text = elim (Bool-cases (leb 128 (length text))) [
  | inl long ↦ inr (rw long)
  | inr short ↦ inl (rw short)
]

length-stored :
    (ts : List (List ℕ)) (rest : List (Option (List ℕ)))
    → length (map some ts ++ rest) ≡ length ts + length rest
length-stored ts rest = omega (arith, length-append (map some ts) rest, length-map ts)

-- The report with a text at the next free place, which is counted or not.
abbrev written : Report → List (Option (List ℕ)) → ℕ → Report
written r strings n = record r { dr_diff_string = strings; dr_entries = n }

-- The write to the next free place, where there is one.
put_free :
    (r : Report) (ts : List (List ℕ)) (rest : List (Option (List ℕ))) (text : Option (List ℕ))
    → r.dr_diff_string ≡ map some ts ++ rest
    → r.dr_entries ≡ length ts
    → 0 < length rest
    → put r.dr_entries text r ≡ some (written r (map some ts ++ text ∷ drop 1 rest) r.dr_entries)
put_free r ts [] text e n free = absurd (omega arith)
put_free r ts (y ∷ ys) text e n free =
    let inside : ltb r.dr_entries (length r.dr_diff_string) ≡ true =
      ground (arith, ap length e, length-stored ts (y ∷ ys)) in
    let place : set r.dr_diff_string r.dr_entries text ≡ map some ts ++ text ∷ ys =
      ap (λ l. set l r.dr_entries text) e
      ∙ set-behind (map some ts) y text ys r.dr_entries (n ∙ sym (length-map ts)) in
    simp (inside) (ap (λ l. some (written r l r.dr_entries)) place)

module _ (r : Report) (ts : List (List ℕ)) (rep : Represents r ts)
    (free : r.dr_entries < r.dr_internal_allocated) where
  room : 0 < length rep.rest
  room = omega (arith, rep.counted, rep.backed, ap length rep.stored, length-stored ts rep.rest)

  length-dropped :
      (text : Option (List ℕ))
      → length (map some ts ++ text ∷ drop 1 rep.rest) ≡ r.dr_internal_allocated
  length-dropped text =
      elim rep.rest
          as (λ l.
            0 < length l
            → length r.dr_diff_string ≡ length ts + length l
            → length (map some ts ++ text ∷ drop 1 l) ≡ r.dr_internal_allocated) [
              | [] ↦ λ a b. absurd (omega arith)
              | y ∷ ys ↦ λ a b. omega (arith, length-stored ts (text ∷ ys), rep.backed)
            ]
        room (ap length rep.stored ∙ length-stored ts rep.rest)

  -- The text is not counted.
  put-Represents :
      (text : Option (List ℕ)) → (s : Report) × (put r.dr_entries text r ≡ some s) × Represents s ts
  put-Represents text = (
    written r (map some ts ++ text ∷ drop 1 rep.rest) r.dr_entries,
    put_free r ts rep.rest text rep.stored rep.counted room,
    record {
      rest = text ∷ drop 1 rep.rest;
      stored = refl;
      counted = rep.counted;
      backed = length-dropped text;
      started = rep.started;
    },
  )

  -- A complete text is counted.
  count_entry-Represents :
      (text : List ℕ)
      → (s : Report) × (count_entry (some (text, true)) r ≡ some s) × Represents s (ts ++ text ∷ [])
  count_entry-Represents text = (
    written r (map some ts ++ some text ∷ drop 1 rep.rest) (r.dr_entries + 1),
    rw (put_free r ts rep.rest (some text) rep.stored rep.counted room, count_entry),
    record {
      rest = drop 1 rep.rest;
      stored =
          sym (append_assoc (map some ts) (some text ∷ []) (drop 1 rep.rest))
          ∙ ap (λ l. l ++ drop 1 rep.rest) (sym (map-snoc ts text));
      counted = omega (arith, rep.counted, length-append ts (text ∷ []));
      backed = length-dropped (some text);
      started = rep.started;
    },
  )

  as_before :
      (text : Option (List ℕ)) (printed : Option (List ℕ))
      → Added (put r.dr_entries text r) ts printed
  as_before text printed =
      let p = put-Represents text in record { report = p.0; answered = p.1; holds = inl p.2 }

  add_text-Added :
      (array granted longer : Bool) (printed : Option (List ℕ))
      → Added
          (add_text 2 (record { array = array; text = granted; longer = longer }) printed r)
          ts
          printed
  add_text-Added array false longer printed = as_before none printed
  add_text-Added array true longer none = as_before (some []) none
  add_text-Added array true longer (some text) = elim (write_text-some longer text) [
    | inl whole ↦
        let p = count_entry-Represents text in
        record {
          report = p.0;
          answered = ap (λ w. count_entry w r) whole ∙ p.1;
          holds = inr (text, refl, p.2);
        }
    | inr cut ↦
        let p = put-Represents (some (take 127 text)) in
        record { report = p.0; answered = ap (λ w. count_entry w r) cut ∙ p.1; holds = inl p.2 }
  ]

double-Represents : (r : Report) (ts : List (List ℕ)) → Represents r ts → Represents (double r) ts
double-Represents r ts rep = record {
  rest = rep.rest ++ replicate r.dr_internal_allocated none;
  stored =
      ap (λ l. l ++ replicate r.dr_internal_allocated none) rep.stored
      ∙ append_assoc (map some ts) rep.rest (replicate r.dr_internal_allocated none);
  counted = rep.counted;
  backed =
      length-append r.dr_diff_string (replicate r.dr_internal_allocated none)
      ∙ omega
          (arith, rep.backed, length-replicate {A = Option (List ℕ)} r.dr_internal_allocated none);
  started = omega (arith, rep.started);
}

entries-bound :
    (r : Report) (ts : List (List ℕ)) → Represents r ts → r.dr_entries ≤ r.dr_internal_allocated
entries-bound r ts rep =
    omega (arith, rep.counted, rep.backed, ap length rep.stored, length-stored ts rep.rest)

report_add-grows :
    (r : Report) (g : Granted) (printed : Option (List ℕ))
    → (r.dr_entries == r.dr_internal_allocated) ≡ true
    → g.array ≡ true
    → report_add 2 g printed r ≡ add_text 2 g printed (double r)
report_add-grows r g printed full grown = simp (full, grown) refl

-- Whatever is allocated and printed, dx_diff_report_add on a report that holds some texts, with two
-- rounds for the loop around vsnprintf, writes within the array, and leaves a report that holds these
-- texts, or these and the printed one behind them.
pub report_add-Added :
    (r : Report) (ts : List (List ℕ)) (g : Granted) (printed : Option (List ℕ))
    → Represents r ts
    → Added (report_add 2 g printed r) ts printed
report_add-Added r ts g printed rep = elim (Bool-cases (r.dr_entries == r.dr_internal_allocated)) [
  | inl full ↦ elim (Bool-cases g.array) [
    | inl grown ↦
        let a =
          add_text-Added (double r) ts (double-Represents r ts rep)
            (omega (arith, (==_iff r.dr_entries r.dr_internal_allocated).0 full, rep.started))
            g.array g.text g.longer printed in
        record {
          report = a.report;
          answered = report_add-grows r g printed full grown ∙ a.answered;
          holds = a.holds;
        }
    | inr refused ↦ record { report = r; answered = simp (full, refused) refl; holds = inl rep }
  ]
  | inr free ↦
      let a =
        add_text-Added r ts rep (ground (arith, entries-bound r ts rep)) g.array g.text g.longer
          printed in
      record { report = a.report; answered = simp (free) a.answered; holds = a.holds }
]
