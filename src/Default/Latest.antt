-- ===== src/Default/Latest.antt =====
-- What dx_default_get_active answers is the latest entry that is not introduced after the version.
use disir_c.Prelude.{
  ℕ, ◌≤◌, ◌<◌, ◌≡◌, sym, ◌∙◌, some, List, [], ◌∷◌, arith, ◌==◌, length, ltb, ltb→lt, Bool-cases,
  inl, inr,
}
use disir_c.Context.{count}
use disir_c.Version.{Version}
use disir_c.Version.Order.{rank, Fits}
use disir_c.Queue.{Queue}
use disir_c.Queue.Chain.{Represents, count-here}
use disir_c.Default.{is_later, default_get_active}
use disir_c.Default.Sorted.{place, IsSorted, is_later-place}
use disir_c.Default.Active.{active_entry, before_first, default_get_active-entry}

module _ (introduced : ℕ → Version) (v : Version) where
  -- `d` is in the list; where an entry is not introduced after `v`, neither is `d`, and that
  -- entry is not later than `d`.
  pub record IsActive (xs : List ℕ) (d : ℕ) : Type 0 where
    pub member : 0 < count d xs
    pub latest :
        (e : ℕ)
        → 0 < count e xs
        → place introduced e ≤ rank v
        → (place introduced d ≤ rank v) × (place introduced e ≤ place introduced d)

  -- Among the entries, `d` is one that is not after `v`, and none of those is later.
  record Best (xs : List ℕ) (d : ℕ) : Type 0 where
    pub member : 0 < count d xs
    pub early : place introduced d ≤ rank v
    pub best :
        (e : ℕ)
        → 0 < count e xs
        → place introduced e ≤ rank v
        → place introduced e ≤ place introduced d

  module _ (fits : (e : ℕ) → Fits (introduced e)) (fv : Fits v) where
    is_later-at : (e : ℕ) → is_later introduced v e ≡ ltb (rank v) (place introduced e)
    is_later-at e = is_later-place introduced fits v fv e

    here-Best :
        (x : ℕ) (xs : List ℕ)
        → place introduced x ≤ rank v
        → ((e : ℕ) → 0 < count e xs → rank v < place introduced e)
        → Best (x ∷ xs) x
    here-Best x xs le after = record {
      member = count-here x xs;
      early = le;
      best = λ e k early. elim (Bool-cases (e == x)) [
        | inl same ↦ let eq : e ≡ x = ground (arith, same) in rw eq (omega arith)
        | inr other ↦ absurd (let a = after e (ground (arith, other, k)) in omega (arith, a, early))
      ];
    }

    later-Best :
        (x y d : ℕ) (ys : List ℕ)
        → place introduced x ≤ place introduced y
        → place introduced y ≤ rank v
        → Best (y ∷ ys) d
        → Best (x ∷ (y ∷ ys)) d
    later-Best x y d ys le ly b = record {
      member = omega (arith, b.member);
      early = b.early;
      best = λ e k early. elim (Bool-cases (e == x)) [
        | inl same ↦
            let eq : e ≡ x = ground (arith, same) in
            rw eq (omega (arith, le, b.best y (count-here y ys) ly))
        | inr other ↦ b.best e (ground (arith, other, k)) early
      ];
    }

    all_after :
        (y : ℕ) (ys : List ℕ)
        → IsSorted introduced (y ∷ ys)
        → rank v < place introduced y
        → (e : ℕ) → 0 < count e (y ∷ ys)
        → rank v < place introduced e
    all_after y ys s lt e k = elim (Bool-cases (e == y)) [
      | inl same ↦ let eq : e ≡ y = ground (arith, same) in rw eq lt
      | inr other ↦ omega (arith, lt, s.0 e (ground (arith, other, k)))
    ]

    before_first-Best :
        (x : ℕ) (xs : List ℕ)
        → IsSorted introduced (x ∷ xs)
        → place introduced x ≤ rank v
        → Best (x ∷ xs) (before_first (is_later introduced v) x xs)
    before_first-Best x [] s le = here-Best x [] le (λ e k. absurd (omega arith))
    before_first-Best x (y ∷ ys) s le = elim (Bool-cases (is_later introduced v y)) [
      | inl t ↦ rw t (
          here-Best x (y ∷ ys) le
            (all_after y ys s.1 (ltb→lt (rank v) (place introduced y) (sym (is_later-at y) ∙ t))))
      | inr t ↦
          let ly : place introduced y ≤ rank v = ground (arith, is_later-at y, t) in
          rw t (later-Best x y _ ys (s.0 y (count-here y ys)) ly (before_first-Best y ys s.1 ly))
    ]

    active_entry-IsActive :
        (x : ℕ) (xs : List ℕ)
        → IsSorted introduced (x ∷ xs)
        → IsActive (x ∷ xs) (active_entry introduced v x xs)
    active_entry-IsActive x xs s = elim (Bool-cases (is_later introduced v x)) [
      | inl t ↦ rw t (record {
        member = count-here x xs;
        latest = λ e k early. absurd (
            let a =
              all_after x xs s (ltb→lt (rank v) (place introduced x) (sym (is_later-at x) ∙ t)) e
                k in
            omega (arith, a, early));
      })
      | inr t ↦
          let b = before_first-Best x xs s (ground (arith, is_later-at x, t)) in
          rw t (record { member = b.member; latest = λ e k early. (b.early, b.best e k early) })
    ]

    -- Where all versions fit in an int, on the sorted queue of a keyval that has a default entry,
    -- with rounds for every entry, dx_default_get_active finds an entry of the queue; where some
    -- entry is not introduced after the version, the found one is not either, and none of those
    -- is later.
    pub default_get_active-IsActive :
        (q : Queue) (x : ℕ) (xs : List ℕ) (rounds : ℕ)
        → Represents q (x ∷ xs)
        → IsSorted introduced (x ∷ xs)
        → length (x ∷ xs) < rounds
        → (d : ℕ) × (default_get_active introduced rounds q (some v) ≡ some (some d))
          × IsActive (x ∷ xs) d
    default_get_active-IsActive q x xs rounds r s lt = (
      active_entry introduced v x xs,
      default_get_active-entry introduced v q x xs rounds r lt,
      active_entry-IsActive x xs s,
    )
