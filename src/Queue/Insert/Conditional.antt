-- ===== src/Queue/Insert/Conditional.antt =====
-- MQ_ENQUEUE_CONDITIONAL inserts in front of the first element that passes the test.
use mathlib.Core.List.{append-nil}
use disir_c.Prelude.{
  ℕ, zero, suc, ◌≤◌, ◌<◌, ◌≡◌, refl, ap, ◌∙◌, Bool, true, false, Option, none, some, List, [], ◌∷◌,
  ◌++◌, arith, if◌then◌else◌, length, inl, inr, Bool-cases,
}
use disir_c.Context.{count}
use disir_c.Queue.{Queue, push, enqueue_conditional, seek_place, link_between}
use disir_c.Queue.Chain.{last, Segment, Represents}
use disir_c.Queue.Insert.Push.{push-Represents}
use disir_c.Queue.Insert.Between.{placed, placed_end-Represents, placed_middle-Represents}
use disir_c.Queue.Insert.Enqueue.{Leaves}

-- The list with `x` in front of the first element that passes the test, or at the end.
abbrev pub insert_where : (ℕ → Bool) → ℕ → List ℕ → List ℕ
insert_where p x [] = x ∷ []
insert_where p x (y ∷ ys) = if p y then x ∷ (y ∷ ys) else y ∷ insert_where p x ys

abbrev first_of : List ℕ → Option ℕ
first_of [] = none
first_of (y ∷ ys) = some y

-- Where the loop stops: `ys` is `front` and then `back`, and the new element goes between.
record Place (p : ℕ → Bool) (x : ℕ) (before : ℕ) (ys : List ℕ) (answer : Option (ℕ × Option ℕ))
    : Type 0 where
  pub front : List ℕ
  pub back : List ℕ
  pub split : ys ≡ front ++ back
  pub inserted : insert_where p x ys ≡ front ++ (x ∷ back)
  pub answered : answer ≡ some (last before front, first_of back)

module _ (p : ℕ → Bool) (x : ℕ) (q : Queue) where
  seek_place-end :
      (rounds before : ℕ) → seek_place (suc rounds) p before none q ≡ some (before, none)
  unfolding seek_place
  seek_place-end rounds before = refl

  seek_place-stop :
      (rounds before y : ℕ)
      → p y ≡ true
      → seek_place (suc rounds) p before (some y) q ≡ some (before, some y)
  unfolding seek_place
  seek_place-stop rounds before y e = rw e refl

  seek_place-go :
      (rounds before y : ℕ)
      → p y ≡ false
      → seek_place (suc rounds) p before (some y) q ≡ seek_place rounds p y (q.next y) q
  unfolding seek_place
  seek_place-go rounds before y e = rw e refl

  next_first_of :
      (before : ℕ) (ys : List ℕ) → Segment q before ys none → q.next before ≡ first_of ys
  next_first_of before [] s = s
  next_first_of before (y ∷ ys) s = s.0

  seek_place-Place :
      (rounds before : ℕ) (ys : List ℕ)
      → Segment q before ys none
      → length ys < rounds
      → Place p x before ys (seek_place rounds p before (first_of ys) q)
  seek_place-Place zero before ys s lt = absurd (omega arith)
  seek_place-Place (suc rounds) before [] s lt = record {
    front = [];
    back = [];
    split = refl;
    inserted = refl;
    answered = seek_place-end rounds before;
  }
  seek_place-Place (suc rounds) before (y ∷ ys) s lt = elim (Bool-cases (p y)) [
    | inl e ↦ record {
      front = [];
      back = y ∷ ys;
      split = refl;
      inserted = rw e refl;
      answered = seek_place-stop rounds before y e;
    }
    | inr e ↦
        let later = seek_place-Place rounds y ys s.2 (omega (arith, lt)) in
        record {
          front = y ∷ later.front;
          back = later.back;
          split = ap (λ l. y ∷ l) later.split;
          inserted = rw e (ap (λ l. y ∷ l) later.inserted);
          answered =
              seek_place-go rounds before y e
              ∙ ap (λ o. seek_place rounds p y o q) (next_first_of y ys s.2)
              ∙ later.answered;
        }
  ]

  placed-Represents :
      (h : ℕ) (front back : List ℕ)
      → Represents q (h ∷ (front ++ back))
      → count x (h ∷ (front ++ back)) ≡ 0
      → Represents (placed q h x front (first_of back)) (h ∷ (front ++ (x ∷ back)))
  placed-Represents h front [] r z =
      let nil : front ++ [] ≡ front = append-nil front in
      placed_end-Represents q h x front (simp nil at r) (simp nil at z)
  placed-Represents h front (y ∷ ys) r z = placed_middle-Represents q h x front y ys r z

  into_empty : (rounds : ℕ) → q.first ≡ none → enqueue_conditional rounds x p q ≡ some (push x q)
  into_empty rounds e = ground arith

  in_front :
      (rounds h : ℕ)
      → q.first ≡ some h
      → p h ≡ true
      → enqueue_conditional rounds x p q ≡ some (push x q)
  in_front rounds h e t = ground arith

  behind_first :
      (rounds h before : ℕ) (after : Option ℕ)
      → q.first ≡ some h
      → p h ≡ false
      → seek_place rounds p h (q.next h) q ≡ some (before, after)
      → enqueue_conditional rounds x p q ≡ some (link_between h x before after q)
  behind_first rounds h before after e f s = ground arith

  -- Inserting by a test an element that is not in the list, with rounds for every element, puts
  -- it in front of the first element that passes the test, or at the end.
  pub enqueue_conditional-Leaves :
      (rounds : ℕ) (xs : List ℕ)
      → Represents q xs
      → count x xs ≡ 0
      → length xs ≤ rounds
      → Leaves (enqueue_conditional rounds x p q) (insert_where p x xs)
  enqueue_conditional-Leaves rounds [] r z le = record {
    queue = push x q;
    answered = into_empty rounds r;
    represents = push-Represents x q [] r z;
  }
  enqueue_conditional-Leaves rounds (h ∷ hs) r z le = elim (Bool-cases (p h)) [
    | inl t ↦ record {
      queue = push x q;
      answered = in_front rounds h r.0 t;
      represents = rw t (push-Represents x q (h ∷ hs) r z);
    }
    | inr f ↦
        let place = seek_place-Place rounds h hs r.2 (omega (arith, le)) in
        record {
          queue = placed q h x place.front (first_of place.back);
          answered =
              behind_first rounds h (last h place.front) (first_of place.back) r.0 f
                (ap (λ o. seek_place rounds p h o q) (next_first_of h hs r.2) ∙ place.answered);
          represents =
              rw (f, place.inserted)
                (placed-Represents h place.front place.back (rw (← place.split) r)
                  (rw (← place.split) z));
        }
  ]
