-- ===== src/Default/Active.antt =====
-- dx_default_get_active finds the default entry that is in force at a version.
use disir_c.Prelude.{
  ℕ, ◌<◌, ◌≡◌, ◌≢◌, refl, ap, sym, ◌∙◌, Bool, none, some, List, [], ◌∷◌, arith, if◌then◌else◌,
  length, Bool-cases, Option-cases, inl, inr,
}
use disir_c.Version.{Version}
use disir_c.Queue.{Queue, tail, find}
use disir_c.Queue.Chain.{
  last, Segment, IsDistinct, Represents, count-last, IsDistinct-tail, IsDistinct-head, apart,
}
use disir_c.Queue.Search.{first_passing, find-first}
use disir_c.Default.{is_later, default_get_active, step_back, or_tail}

-- The last entry before the first one that passes the test, behind `x`.
abbrev pub before_first : (ℕ → Bool) → ℕ → List ℕ → ℕ
before_first p x [] = x
before_first p x (y ∷ ys) = if p y then x else before_first p y ys

module _ (p : ℕ → Bool) where
  before_first-none :
      (x : ℕ) (xs : List ℕ) → first_passing p xs ≡ none → before_first p x xs ≡ last x xs
  before_first-none x [] e = refl
  before_first-none x (y ∷ ys) e = elim (Bool-cases (p y)) [
    | inl t ↦ ground (arith, t, e)
    | inr f ↦ rw f (before_first-none y ys (rw f at e))
  ]

  -- Where the search finds `e`, its `prev` is that entry, which is not the last one.
  before_first-prev :
      (q : Queue) (x : ℕ) (xs : List ℕ) (e : ℕ)
      → Segment q x xs none
      → IsDistinct (x ∷ xs)
      → first_passing p xs ≡ some e
      → (q.prev e ≡ some (before_first p x xs)) × (before_first p x xs ≢ last x xs)
  before_first-prev q x [] e s d f = absurd (grind (arith, f))
  before_first-prev q x (y ∷ ys) e s d f = elim (Bool-cases (p y)) [
    | inl t ↦
        let same : e ≡ y = grind (arith, t, f) in
        rw (t, same)
          (
            s.1,
            λ i.
                apart (last y ys) x (y ∷ ys) (count-last y ys) (IsDistinct-head x (y ∷ ys) d)
                  (sym i),
          )
    | inr t ↦ rw t (before_first-prev q y ys e s.2 (IsDistinct-tail x (y ∷ ys) d) (rw t at f))
  ]

module _ (introduced : ℕ → Version) (v : Version) where
  abbrev pub active_entry : ℕ → List ℕ → ℕ
  active_entry x xs =
      if is_later introduced v x then x else before_first (is_later introduced v) x xs

  get_active-end :
      (q : Queue) (rounds x : ℕ)
      → q.first ≡ some x
      → find rounds (is_later introduced v) q ≡ some none
      → default_get_active introduced rounds q (some v) ≡ some (tail q)
  get_active-end q rounds x e f = ground arith

  get_active-found :
      (q : Queue) (rounds x e : ℕ)
      → q.first ≡ some x
      → find rounds (is_later introduced v) q ≡ some (some e)
      → default_get_active introduced rounds q (some v) ≡ some (or_tail q (step_back q (some e)))
  get_active-found q rounds x e h f = ground arith

  tail-last : (q : Queue) (x : ℕ) (xs : List ℕ) → Represents q (x ∷ xs) → tail q ≡ some (last x xs)
  tail-last q x xs r = ground (arith, r.0, r.1)

  step_back-prev :
      (q : Queue) (x : ℕ) (xs : List ℕ) (e d : ℕ)
      → Represents q (x ∷ xs)
      → q.prev e ≡ some d
      → d ≢ last x xs
      → or_tail q (step_back q (some e)) ≡ some d
  step_back-prev q x xs e d r p ne = ground (arith, tail-last q x xs r)

  step_back-first :
      (q : Queue) (x : ℕ) (xs : List ℕ)
      → Represents q (x ∷ xs)
      → or_tail q (step_back q (some x)) ≡ some x
  step_back-first q x xs r = ground (arith, tail-last q x xs r, r.1)

  -- On a queue that is not empty, with rounds for every entry, the search answers with the last
  -- entry before the first one that is introduced later, or with the first one itself.
  pub default_get_active-entry :
      (q : Queue) (x : ℕ) (xs : List ℕ) (rounds : ℕ)
      → Represents q (x ∷ xs)
      → length (x ∷ xs) < rounds
      → default_get_active introduced rounds q (some v) ≡ some (some (active_entry x xs))
  default_get_active-entry q x xs rounds r lt =
      let all = find-first q (is_later introduced v) rounds (x ∷ xs) r lt in
      elim (Bool-cases (is_later introduced v x)) [
        | inl t ↦
            rw t
              (get_active-found q rounds x x r.0 (rw t at all) ∙ ap some (step_back-first q x xs r))
        | inr t ↦ elim (Option-cases (first_passing (is_later introduced v) xs)) [
          | inl e ↦ rw t (
              get_active-end q rounds x r.0 (rw (t, e) at all)
              ∙ ap some (
                  tail-last q x xs r
                  ∙ ap some (sym (before_first-none (is_later introduced v) x xs e))))
          | inr (e, f) ↦
              let (b, ne) = before_first-prev (is_later introduced v) q x xs e r.2 r.3 f in
              rw t (
                get_active-found q rounds x e r.0 (rw (t, f) at all)
                ∙ ap some
                    (step_back-prev q x xs e (before_first (is_later introduced v) x xs) r b ne))
        ]
      ]
