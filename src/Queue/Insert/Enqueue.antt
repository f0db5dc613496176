-- ===== src/Queue/Insert/Enqueue.antt =====
-- MQ_ENQUEUE inserts behind the last element.
use disir_c.Prelude.{ℕ, ◌≡◌, ◌∙◌, Option, none, some, List, [], ◌∷◌, ◌++◌, arith}
use disir_c.Context.{count, update}
use disir_c.Queue.{Queue, push, enqueue}
use disir_c.Queue.Chain.{last, Represents, count-last, apart}
use disir_c.Queue.Insert.Push.{push-Represents}
use disir_c.Queue.Insert.Between.{placed, placed_end-Represents}

-- The result of an operation that meets no NULL pointer and leaves the list `xs`.
pub record Leaves (answer : Option Queue) (xs : List ℕ) : Type 0 where
  pub queue : Queue
  pub answered : answer ≡ some queue
  pub represents : Represents queue xs

module _ (x : ℕ) (q : Queue) where
  enqueue_empty : q.first ≡ none → enqueue x q ≡ some (push x q)
  enqueue_empty e = ground arith

  module _ (h : ℕ) (hs : List ℕ) (r : Represents q (h ∷ hs)) (z : count x (h ∷ hs) ≡ 0) where
    abbrev enqueued : Queue
    enqueued = record {
      first = q.first;
      next = update (update q.next x none) (last h hs) (some x);
      prev = update (update q.prev x (q.prev h)) h (some x);
    }

    enqueue_record : enqueue x q ≡ some enqueued
    enqueue_record = ground (arith, r.0, r.1)

    next_same : (c : ℕ) → enqueued.next c ≡ (placed q h x hs none).next c
    next_same c = ground (arith, apart (last h hs) x (h ∷ hs) (count-last h hs) z)

    prev_same : (c : ℕ) → enqueued.prev c ≡ (placed q h x hs none).prev c
    prev_same c = ground (arith, r.1)

    enqueue-placed : enqueue x q ≡ some (placed q h x hs none)
    enqueue-placed = enqueue_record ∙ λ i.
        some (record { first = q.first; next = λ c. next_same c i; prev = λ c. prev_same c i })

-- Enqueueing an element that is not in the list puts it behind the last one.
pub enqueue-Leaves :
    (x : ℕ) (q : Queue) (xs : List ℕ)
    → Represents q xs
    → count x xs ≡ 0
    → Leaves (enqueue x q) (xs ++ (x ∷ []))
enqueue-Leaves x q [] r z = record {
  queue = push x q;
  answered = enqueue_empty x q r;
  represents = push-Represents x q [] r z;
}
enqueue-Leaves x q (h ∷ hs) r z = record {
  queue = placed q h x hs none;
  answered = enqueue-placed x q h hs r z;
  represents = placed_end-Represents q h x hs r z;
}
