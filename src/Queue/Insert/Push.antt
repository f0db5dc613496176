-- ===== src/Queue/Insert/Push.antt =====
-- MQ_PUSH inserts in front.
use disir_c.Prelude.{ℕ, ◌≡◌, refl, ◌∙◌, none, some, List, [], ◌∷◌, arith}
use disir_c.Context.{count, update}
use disir_c.Queue.{Queue, push}
use disir_c.Queue.Chain.{
  last, IsDistinct, Represents, count-last, IsDistinct-head, apart, Segment-redirect, Segment-last,
}

module _ (x : ℕ) (q : Queue) where
  pub IsDistinct-cons : (xs : List ℕ) → IsDistinct xs → count x xs ≡ 0 → IsDistinct (x ∷ xs)
  IsDistinct-cons xs d z c = ground (arith, d c)

  push-first : (push x q).first ≡ some x
  push-first = ground arith

  push-next : (c : ℕ) → (push x q).next c ≡ update q.next x q.first c
  push-next c = ground arith

  module _ (h : ℕ) (e : q.first ≡ some h) where
    push-prev : (c : ℕ) → (push x q).prev c ≡ update (update q.prev x (q.prev h)) h (some x) c
    push-prev c = ground arith

  push_empty-prev : q.first ≡ none → (push x q).prev x ≡ some x
  push_empty-prev e = ground arith

  -- Pushing an element that is not in the list puts it in front.
  pub push-Represents :
      (xs : List ℕ) → Represents q xs → count x xs ≡ 0 → Represents (push x q) (x ∷ xs)
  push-Represents [] e z = (
    push-first,
    push_empty-prev e,
    push-next x ∙ ground arith,
    IsDistinct-cons [] (λ c. omega arith) refl,
  )
  push-Represents (h ∷ hs) (f, p, s, d) z = (
    push-first,
    push-prev h f x ∙ ground arith,
    (
      push-next x ∙ ground arith,
      push-prev h f h ∙ ground arith,
      Segment-redirect q (push x q) h hs none none d
          (λ c k ne. push-next c ∙ ground (arith, apart c x (h ∷ hs) k z))
          (λ c k.
            push-prev h f c
            ∙ ground (arith, apart c x hs k (omega arith), apart c h hs k (IsDistinct-head h hs d)))
          (push-next (last h hs)
            ∙ ground (
              arith,
              apart (last h hs) x (h ∷ hs) (count-last h hs) z,
              Segment-last q h hs none s,
            ))
          s,
    ),
    IsDistinct-cons (h ∷ hs) d z,
  )
