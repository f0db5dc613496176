-- ===== src/Queue/Chain.antt =====
-- Which list of addresses a queue of lib/include/mqueue.h represents.
use disir_c.Prelude.{
  ℕ, ◌≤◌, ◌<◌, ◌≡◌, ◌≢◌, refl, ap, sym, ◌∙◌, Option, none, some, List, [], ◌∷◌, ◌++◌, arith,
}
pub use disir_c.Context.Counts.{count-here}
use disir_c.Context.{count}
use disir_c.Queue.{Queue}

abbrev pub last : ℕ → List ℕ → ℕ
last x [] = x
last x (y ∷ ys) = last y ys

-- From `before`, the `next` pointers lead through `xs` to `after`, and the `prev` pointers back.
abbrev pub Segment : Queue → ℕ → List ℕ → Option ℕ → Type 0
Segment q before [] after = q.next before ≡ after
Segment q before (x ∷ xs) after =
    (q.next before ≡ some x) × (q.prev x ≡ some before) × Segment q x xs after

-- No address stands twice in the list.
abbrev pub IsDistinct : List ℕ → Type 0
IsDistinct xs = (c : ℕ) → count c xs ≤ 1

-- The queue is the list `xs`: the diagram at the top of mqueue.h.
abbrev pub Represents : Queue → List ℕ → Type 0
Represents q [] = q.first ≡ none
Represents q (x ∷ xs) =
    (q.first ≡ some x) × (q.prev x ≡ some (last x xs)) × Segment q x xs none × IsDistinct (x ∷ xs)

pub count-last : (x : ℕ) (xs : List ℕ) → 0 < count (last x xs) (x ∷ xs)
count-last x [] = ground arith
count-last x (y ∷ ys) = ground (arith, count-last y ys)

pub last-append : (x : ℕ) (xs : List ℕ) (y : ℕ) (ys : List ℕ) → last x (xs ++ (y ∷ ys)) ≡ last y ys
last-append x [] y ys = refl
last-append x (z ∷ xs) y ys = last-append z xs y ys

pub IsDistinct-tail : (x : ℕ) (xs : List ℕ) → IsDistinct (x ∷ xs) → IsDistinct xs
IsDistinct-tail x xs d c = omega (arith, d c)

-- An element that a list counts is not one that it does not count.
pub apart : (c d : ℕ) (xs : List ℕ) → 0 < count c xs → count d xs ≡ 0 → c ≢ d
apart c d xs p q e =
    absurd (let f : count c xs ≡ count d xs = ap (λ a. count a xs) e in omega (arith, f))

pub IsDistinct-head : (x : ℕ) (xs : List ℕ) → IsDistinct (x ∷ xs) → count x xs ≡ 0
IsDistinct-head x xs d = ground (arith, d x)

module _ (q r : Queue) where
  -- A segment survives writes elsewhere; its end may be redirected.
  pub Segment-redirect :
      (x : ℕ) (xs : List ℕ) (after after' : Option ℕ)
      → IsDistinct (x ∷ xs)
      → ((c : ℕ) → 0 < count c (x ∷ xs) → c ≢ last x xs → r.next c ≡ q.next c)
      → ((c : ℕ) → 0 < count c xs → r.prev c ≡ q.prev c)
      → r.next (last x xs) ≡ after'
      → Segment q x xs after
      → Segment r x xs after'
  Segment-redirect x [] after after' d n p e s = e
  Segment-redirect x (y ∷ ys) after after' d n p e s = (
    n x (count-here x (y ∷ ys)) (λ i.
          apart (last y ys) x (y ∷ ys) (count-last y ys) (IsDistinct-head x (y ∷ ys) d) (sym i))
        ∙ s.0,
    p y (count-here y ys) ∙ s.1,
    Segment-redirect y ys after after' (IsDistinct-tail x (y ∷ ys) d)
        (λ c k. n c (omega (arith, k))) (λ c k. p c (omega (arith, k))) e s.2,
  )

module _ (q : Queue) where
  pub Segment-last :
      (x : ℕ) (xs : List ℕ) (after : Option ℕ) → Segment q x xs after → q.next (last x xs) ≡ after
  Segment-last x [] after s = s
  Segment-last x (y ∷ ys) after s = Segment-last y ys after s.2

  pub Segment-join :
      (x : ℕ) (xs : List ℕ) (y : ℕ) (ys : List ℕ) (after : Option ℕ)
      → Segment q x xs (some y)
      → q.prev y ≡ some (last x xs)
      → Segment q y ys after
      → Segment q x (xs ++ (y ∷ ys)) after
  Segment-join x [] y ys after s p t = (s, p, t)
  Segment-join x (z ∷ xs) y ys after s p t = (s.0, s.1, Segment-join z xs y ys after s.2 p t)

  pub Segment-split :
      (x : ℕ) (xs : List ℕ) (y : ℕ) (ys : List ℕ) (after : Option ℕ)
      → Segment q x (xs ++ (y ∷ ys)) after
      → Segment q x xs (some y) × (q.prev y ≡ some (last x xs)) × Segment q y ys after
  Segment-split x [] y ys after s = (s.0, s.1, s.2)
  Segment-split x (z ∷ xs) y ys after s =
      let (a, b, c) = Segment-split z xs y ys after s.2 in ((s.0, s.1, a), b, c)
