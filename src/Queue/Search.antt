-- ===== src/Queue/Search.antt =====
-- MQ_FIND, MQ_SIZE and MQ_REMOVE_SAFE walk the list.
use disir_c.Prelude.{
  ℕ, zero, suc, ◌<◌, ◌≡◌, refl, ap, ◌∙◌, Bool, true, false, Option, none, some, List, [], ◌∷◌, ◌++◌,
  arith, ◌==◌, if◌then◌else◌, length, ltb, inl, inr, Bool-cases,
}
use disir_c.Context.{count}
use disir_c.Queue.{Queue, find, find_from, remove, remove_safe}
use disir_c.Queue.Chain.{Segment, Represents}
use disir_c.Queue.Insert.Enqueue.{Leaves}
use disir_c.Queue.Remove.{remove-Leaves, remove_first-Leaves}

abbrev pub first_passing : (ℕ → Bool) → List ℕ → Option ℕ
first_passing p [] = none
first_passing p (y ∷ ys) = if p y then some y else first_passing p ys

abbrev pub delete : ℕ → List ℕ → List ℕ
delete x [] = []
delete x (y ∷ ys) = if y == x then ys else y ∷ delete x ys

-- The first element of the list, and what follows it.
abbrev Walk : Queue → Option ℕ → List ℕ → Type 0
Walk q entry [] = entry ≡ none
Walk q entry (y ∷ ys) = (entry ≡ some y) × Segment q y ys none

next-Walk : (q : Queue) (y : ℕ) (ys : List ℕ) → Segment q y ys none → Walk q (q.next y) ys
next-Walk q y [] s = s
next-Walk q y (z ∷ zs) s = (s.0, s.2)

first-Walk : (q : Queue) (xs : List ℕ) → Represents q xs → Walk q q.first xs
first-Walk q [] r = r
first-Walk q (x ∷ xs) r = (r.0, r.2)

module _ (q : Queue) (p : ℕ → Bool) where
  find_from-end :
      (rounds : ℕ) (entry : Option ℕ) → entry ≡ none → find_from (suc rounds) p entry q ≡ some none
  unfolding find_from
  find_from-end rounds entry e = rw (e, find_from) refl

  find_from-suc :
      (rounds y : ℕ) (entry : Option ℕ)
      → entry ≡ some y
      → find_from (suc rounds) p entry q
        ≡ (if p y then some (some y) else find_from rounds p (q.next y) q)
  unfolding find_from
  find_from-suc rounds y entry e = rw (e, find_from) refl

  find_from-first :
      (rounds : ℕ) (ys : List ℕ) (entry : Option ℕ)
      → Walk q entry ys
      → length ys < rounds
      → find_from rounds p entry q ≡ some (first_passing p ys)
  find_from-first zero ys entry w lt = absurd (omega arith)
  find_from-first (suc rounds) [] entry w lt = find_from-end rounds entry w
  find_from-first (suc rounds) (y ∷ ys) entry w lt =
      let rest = find_from-first rounds ys (q.next y) (next-Walk q y ys w.1) (omega (arith, lt)) in
      find_from-suc rounds y entry w.0
      ∙ elim (Bool-cases (p y)) [ inl e ↦ rw e refl | inr e ↦ rw e rest ]

  -- With rounds for every element, the search ends at the first element that passes the test.
  pub find-first :
      (rounds : ℕ) (xs : List ℕ)
      → Represents q xs
      → length xs < rounds
      → find rounds p q ≡ some (first_passing p xs)
  find-first rounds xs r lt = find_from-first rounds xs q.first (first-Walk q xs r) lt

-- Where an element stands in a list.
record Split (x : ℕ) (ys : List ℕ) : Type 0 where
  pub front : List ℕ
  pub back : List ℕ
  pub split : ys ≡ front ++ (x ∷ back)
  pub deleted : delete x ys ≡ front ++ back

count-Split : (x : ℕ) (ys : List ℕ) → 0 < count x ys → Split x ys
count-Split x [] k = absurd (omega arith)
count-Split x (y ∷ ys) k = elim (Bool-cases (y == x)) [
  | inl e ↦
      let same : y ≡ x = ground (arith, e) in
      record { front = []; back = ys; split = rw same refl; deleted = rw e refl }
  | inr e ↦
      let later = count-Split x ys (ground (arith, e, k)) in
      record {
        front = y ∷ later.front;
        back = later.back;
        split = ap (λ l. y ∷ l) later.split;
        deleted = rw e (ap (λ l. y ∷ l) later.deleted);
      }
]

-- Removing an element of the list takes it out and leaves the others in order.
pub remove-delete :
    (q : Queue) (x : ℕ) (xs : List ℕ)
    → Represents q xs
    → 0 < count x xs
    → Leaves (remove x q) (delete x xs)
remove-delete q x [] r k = absurd (omega arith)
remove-delete q x (h ∷ hs) r k = elim (Bool-cases (h == x)) [
  | inl e ↦ let same : h ≡ x = ground (arith, e) in rw (e, ← same) (remove_first-Leaves q h hs r)
  | inr e ↦
      let place = count-Split x hs (ground (arith, e, k)) in
      rw (e, place.deleted) (remove-Leaves q h x place.front place.back (rw (← place.split) r))
]

first_passing-here :
    (x : ℕ) (ys : List ℕ) → 0 < count x ys → first_passing (λ e. e == x) ys ≡ some x
first_passing-here x [] k = absurd (omega arith)
first_passing-here x (y ∷ ys) k = ground (arith, first_passing-here x ys)

first_passing-nowhere :
    (x : ℕ) (ys : List ℕ) → count x ys ≡ 0 → first_passing (λ e. e == x) ys ≡ none
first_passing-nowhere x [] z = refl
first_passing-nowhere x (y ∷ ys) z = ground (arith, first_passing-nowhere x ys)

delete-nowhere : (x : ℕ) (ys : List ℕ) → count x ys ≡ 0 → delete x ys ≡ ys
delete-nowhere x [] z = refl
delete-nowhere x (y ∷ ys) z =
    let e : (y == x) ≡ false = ground (arith, z) in
    rw e (ap (λ l. y ∷ l) (delete-nowhere x ys (omega (arith, z))))

-- What MQ_REMOVE_SAFE answers: whether the element was in the list, and the list without it.
pub record SafelyRemoved (x : ℕ) (xs : List ℕ) (answer : Option (Bool × Queue)) : Type 0 where
  pub queue : Queue
  pub answered : answer ≡ some (ltb 0 (count x xs), queue)
  pub represents : Represents queue (delete x xs)

module _ (q : Queue) (x : ℕ) (xs : List ℕ) (rounds : ℕ) where
  remove_safe-found :
      (left : Queue)
      → find rounds (λ e. e == x) q ≡ some (some x)
      → remove x q ≡ some left
      → remove_safe rounds x q ≡ some (true, left)
  remove_safe-found left f e = ground arith

  remove_safe-missing :
      find rounds (λ e. e == x) q ≡ some none → remove_safe rounds x q ≡ some (false, q)
  remove_safe-missing f = ground arith

  -- Whether or not the element is in the list, with rounds for every element, it is answered
  -- whether it was, and what is left is the list without it, in order.
  pub remove_safe-delete :
      Represents q xs → length xs < rounds → SafelyRemoved x xs (remove_safe rounds x q)
  remove_safe-delete r lt = elim (Bool-cases (ltb 0 (count x xs))) [
    | inl e ↦
        let k : 0 < count x xs = ground (arith, e) in
        let gone = remove-delete q x xs r k in
        record {
          queue = gone.queue;
          answered = rw e (
              remove_safe-found gone.queue
                (find-first q (λ e. e == x) rounds xs r lt ∙ ap some (first_passing-here x xs k))
                gone.answered);
          represents = gone.represents;
        }
    | inr e ↦
        let z : count x xs ≡ 0 = ground (arith, e) in
        record {
          queue = q;
          answered = rw e (
              remove_safe-missing (
                find-first q (λ e. e == x) rounds xs r lt
                ∙ ap some (first_passing-nowhere x xs z)));
          represents = rw (delete-nowhere x xs z) r;
        }
  ]
