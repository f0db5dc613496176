-- ===== src/Tests/Defaults.antt =====
-- A keyval with default entries 21 and 22, introduced at 1.0 and 2.0, and a new one, 23, at 1.5.
use disir_c.Prelude.{ℕ, ◌≡◌, refl, none, some, List, [], ◌∷◌, arith, ◌==◌, if◌then◌else◌}
use disir_c.Context.{count}
use disir_c.Version.{Version, version}
use disir_c.Version.Order.{Fits}
use disir_c.Queue.{Queue}
use disir_c.Queue.Chain.{Represents}
use disir_c.Queue.Insert.Enqueue.{Leaves}
use disir_c.Default.{default_enqueue, default_get_active}
use disir_c.Default.Sorted.{IsSorted, default_enqueue-IsSorted}
use disir_c.Default.Latest.{IsActive, default_get_active-IsActive}

abbrev pub introduced : ℕ → Version
introduced e = if e == 22 then version 2 0 else if e == 23 then version 1 5 else version 1 0

pub introduced-Fits : (e : ℕ) → Fits (introduced e)
introduced-Fits e = record { major = ground arith; minor = ground arith }

abbrev pub two : Queue
two = record {
  first = some 21;
  next = λ c. if c == 21 then some 22 else none;
  prev = λ c. if c == 21 then some 22 else some 21;
}

two-Represents : Represents two (21 ∷ 22 ∷ [])
two-Represents = (refl, refl, (refl, refl, refl), λ c. ground arith)

two-IsSorted : IsSorted introduced (21 ∷ 22 ∷ [])
two-IsSorted = ((λ e k. ground arith), ((λ e k. ground arith), tt))

default_enqueue-IsSorted_example :
    (ys : List ℕ) × Leaves (default_enqueue introduced 2 23 two) ys
    × IsSorted introduced ys
    × ((e : ℕ) → count e ys ≡ count e (23 ∷ 21 ∷ 22 ∷ []))
default_enqueue-IsSorted_example =
    default_enqueue-IsSorted introduced introduced-Fits two (21 ∷ 22 ∷ []) 23 2 two-Represents
      two-IsSorted refl (omega arith)

default_get_active-IsActive_example :
    (d : ℕ) × (default_get_active introduced 3 two (some (version 1 7)) ≡ some (some d))
    × IsActive introduced (version 1 7) (21 ∷ 22 ∷ []) d
default_get_active-IsActive_example =
    default_get_active-IsActive introduced (version 1 7) introduced-Fits
      (record { major = omega arith; minor = omega arith }) two 21 (22 ∷ []) 3 two-Represents
      two-IsSorted (omega arith)
