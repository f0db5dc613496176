-- ===== src/Default/Sorted.antt =====
-- The default entries of a keyval stand in the order of their versions.
use disir_c.Prelude.{
  ℕ, ◌≤◌, ◌<◌, ◌≡◌, refl, sym, ◌∙◌, ltb→lt, Bool, List, [], ◌∷◌, arith, ◌==◌, length, ltb,
  Bool-cases, inl, inr,
}
use disir_c.Context.{count}
use disir_c.Version.{Version}
use disir_c.Version.Order.{rank, Fits, version_compare-order}
use disir_c.Queue.{Queue}
use disir_c.Queue.Chain.{Represents}
use disir_c.Queue.Insert.Enqueue.{Leaves}
use disir_c.Queue.Insert.Conditional.{insert_where, enqueue_conditional-Leaves}
use disir_c.Default.{is_later, default_enqueue}

module _ (introduced : ℕ → Version) where
  abbrev pub place : ℕ → ℕ
  place e = rank (introduced e)

  -- Every entry comes at or before those behind it.
  abbrev pub IsSorted : List ℕ → Type 0
  IsSorted [] = Unit
  IsSorted (x ∷ xs) = ((e : ℕ) → 0 < count e xs → place x ≤ place e) × IsSorted xs

  -- What bounds the places of `x` and of the entries of `xs` bounds those of both.
  pub place-cons :
      (n x : ℕ) (xs : List ℕ)
      → n ≤ place x
      → ((e : ℕ) → 0 < count e xs → n ≤ place e)
      → (e : ℕ) → 0 < count e (x ∷ xs)
      → n ≤ place e
  place-cons n x xs le all e k = elim (Bool-cases (e == x)) [
    | inl same ↦ let eq : e ≡ x = ground (arith, same) in rw eq le
    | inr other ↦ all e (ground (arith, other, k))
  ]

  module _ (fits : (e : ℕ) → Fits (introduced e)) where
    pub is_later-place :
        (v : Version) (f : Fits v) (e : ℕ) → is_later introduced v e ≡ ltb (rank v) (place e)
    is_later-place v f e = (version_compare-order (introduced e) v (fits e) f).2

    count-insert :
        (p : ℕ → Bool) (x e : ℕ) (xs : List ℕ) → count e (insert_where p x xs) ≡ count e (x ∷ xs)
    count-insert p x e [] = refl
    count-insert p x e (y ∷ ys) = ground (arith, count-insert p x e ys)

    insert-IsSorted :
        (x : ℕ) (xs : List ℕ)
        → IsSorted xs
        → IsSorted (insert_where (is_later introduced (introduced x)) x xs)
    insert-IsSorted x [] s = ((λ e k. absurd (omega arith)), tt)
    insert-IsSorted x (y ∷ ys) s =
        let later = is_later-place (introduced x) (fits x) y in
        elim (Bool-cases (is_later introduced (introduced x) y)) [
          | inl l ↦ rw l (
            place-cons (place x) y ys (ground (arith, l, later))
                (λ e k. omega (arith, s.0 e k, ltb→lt (place x) (place y) (sym later ∙ l))),
            s,
          )
          | inr l ↦ rw l (
            (λ e k.
                place-cons (place y) x ys (ground (arith, l, later)) s.0 e
                  (omega (arith, k, count-insert (is_later introduced (introduced x)) x e ys))),
            insert-IsSorted x ys s.1,
          )
        ]

    -- Where all versions fit in an int, inserting a default entry that is not in the queue, with
    -- rounds for every entry, meets no NULL pointer, keeps the queue in the order of the versions,
    -- and adds that entry only.
    pub default_enqueue-IsSorted :
        (q : Queue) (xs : List ℕ) (def rounds : ℕ)
        → Represents q xs
        → IsSorted xs
        → count def xs ≡ 0
        → length xs ≤ rounds
        → (ys : List ℕ) × Leaves (default_enqueue introduced rounds def q) ys
          × IsSorted ys
          × ((e : ℕ) → count e ys ≡ count e (def ∷ xs))
    default_enqueue-IsSorted q xs def rounds r s z le = (
      insert_where (is_later introduced (introduced def)) def xs,
      enqueue_conditional-Leaves (is_later introduced (introduced def)) def q rounds xs r z le,
      insert-IsSorted def xs s,
      λ e. count-insert (is_later introduced (introduced def)) def e xs,
    )
