-- ===== src/Queue/Insert/Between.antt =====
-- The writes that put an element between two others, or behind the last one.
use disir_c.Prelude.{ℕ, ◌<◌, ◌≡◌, refl, sym, ◌∙◌, Option, none, some, List, [], ◌∷◌, ◌++◌, arith}
use disir_c.Context.{count, update}
use disir_c.Context.Counts.{count-append}
use disir_c.Queue.{Queue, link_between}
use disir_c.Queue.Chain.{
  last, Segment, IsDistinct, Represents, count-last, last-append, count-here, IsDistinct-head,
  apart, Segment-redirect, Segment-last, Segment-join, Segment-split,
}

module _ (q : Queue) (h x : ℕ) (xs : List ℕ) where
  abbrev pub placed : Option ℕ → Queue
  placed after = link_between h x (last h xs) after q

  placed-next :
      (after : Option ℕ) (c : ℕ)
      → (placed after).next c ≡ update (update q.next (last h xs) (some x)) x after c
  placed-next none c = refl
  placed-next (some e) c = refl

  placed_first : (after : Option ℕ) → (placed after).first ≡ q.first
  placed_first none = refl
  placed_first (some e) = refl

  -- The part before the new element.
  placed_front :
      (after old : Option ℕ)
      → IsDistinct (h ∷ xs)
      → count x (h ∷ xs) ≡ 0
      → ((c : ℕ) → 0 < count c xs → (placed after).prev c ≡ q.prev c)
      → Segment q h xs old
      → Segment (placed after) h xs (some x)
  placed_front after old d z p s =
      Segment-redirect q (placed after) h xs old (some x) d
        (λ c k ne. placed-next after c ∙ ground (arith, apart c x (h ∷ xs) k z)) p
        (placed-next after (last h xs)
          ∙ ground (arith, apart (last h xs) x (h ∷ xs) (count-last h xs) z))
        s

  IsDistinct-insert :
      (ys : List ℕ)
      → IsDistinct (h ∷ (xs ++ ys))
      → count x (h ∷ (xs ++ ys)) ≡ 0
      → IsDistinct (h ∷ (xs ++ (x ∷ ys)))
  IsDistinct-insert ys d z c = ground (arith, d c, count-append c xs ys, count-append c xs (x ∷ ys))

  IsDistinct-front : (ys : List ℕ) → IsDistinct (h ∷ (xs ++ ys)) → IsDistinct (h ∷ xs)
  IsDistinct-front ys d c = omega (arith, d c, count-append c xs ys)

  count-front : (ys : List ℕ) → count x (h ∷ (xs ++ ys)) ≡ 0 → count x (h ∷ xs) ≡ 0
  count-front ys z = omega (arith, z, count-append x xs ys)

  pub placed_end-Represents :
      Represents q (h ∷ xs) → count x (h ∷ xs) ≡ 0 → Represents (placed none) (h ∷ (xs ++ (x ∷ [])))
  placed_end-Represents (f, p, s, d) z = (
    f,
    rw (last-append h xs x []) (ground arith),
    Segment-join (placed none) h xs x [] none
        (placed_front none none d z
          (λ c k.
            ground
              (arith, apart c x xs k (omega (arith, z)), apart c h xs k (IsDistinct-head h xs d)))
          s)
        (ground (arith, z)) (placed-next none x ∙ ground arith),
    IsDistinct-insert [] (λ c. omega (arith, d c, count-append c xs []))
        (omega (arith, z, count-append x xs [])),
  )

  -- In a list without repetitions, the parts share no address.
  module _ (y : ℕ) (ys : List ℕ) (d : IsDistinct (h ∷ (xs ++ (y ∷ ys)))) where
    none_behind : (c : ℕ) → 0 < count c (h ∷ xs) → count c (y ∷ ys) ≡ 0
    none_behind c k = omega (arith, k, d c, count-append c xs (y ∷ ys))

    none_before : (c : ℕ) → 0 < count c (y ∷ ys) → count c (h ∷ xs) ≡ 0
    none_before c k = omega (arith, k, d c, count-append c xs (y ∷ ys))

    IsDistinct-behind : IsDistinct (y ∷ ys)
    IsDistinct-behind c = omega (arith, d c, count-append c xs (y ∷ ys))

    -- The part behind the new element.
    placed_back : count x (y ∷ ys) ≡ 0 → Segment q y ys none → Segment (placed (some y)) y ys none
    placed_back z s =
        Segment-redirect q (placed (some y)) y ys none none IsDistinct-behind (λ c k ne. kept c k)
          (λ c k. ground (
            arith,
            apart c x ys k (omega (arith, z)),
            apart c y ys k (IsDistinct-head y ys IsDistinct-behind),
          ))
          (kept (last y ys) (count-last y ys) ∙ Segment-last q y ys none s) s
      where
        kept : (c : ℕ) → 0 < count c (y ∷ ys) → (placed (some y)).next c ≡ q.next c
        kept c k =
            placed-next (some y) c
            ∙ ground (
              arith,
              apart c x (y ∷ ys) k z,
              apart (last h xs) c (h ∷ xs) (count-last h xs) (none_before c k),
            )

  pub placed_middle-Represents :
      (y : ℕ) (ys : List ℕ)
      → Represents q (h ∷ (xs ++ (y ∷ ys)))
      → count x (h ∷ (xs ++ (y ∷ ys))) ≡ 0
      → Represents (placed (some y)) (h ∷ (xs ++ (x ∷ (y ∷ ys))))
  placed_middle-Represents y ys (f, p, s, d) z =
      let (s1, b, s2) = Segment-split q h xs y ys none s in
      let zf : count x (h ∷ xs) ≡ 0 = count-front (y ∷ ys) z in
      let zb : count x (y ∷ ys) ≡ 0 = omega (arith, z, count-append x xs (y ∷ ys)) in
      let ends : last h (xs ++ (y ∷ ys)) ≡ last h (xs ++ (x ∷ (y ∷ ys))) =
        last-append h xs y ys ∙ sym (last-append h xs x (y ∷ ys)) in
      (
        f,
        ground (
          arith,
          p,
          ends,
          apart h x (h ∷ xs) (count-here h xs) zf,
          apart h y (h ∷ xs) (count-here h xs) (none_before y ys d y (count-here y ys)),
        ),
        Segment-join (placed (some y)) h xs x (y ∷ ys) none
            (placed_front (some y) (some y) (IsDistinct-front (y ∷ ys) d) zf
              (λ c k.
                let m : 0 < count c (h ∷ xs) = omega (arith, k) in
                ground (
                  arith,
                  apart c x (h ∷ xs) m zf,
                  apart c y (h ∷ xs) m (none_before y ys d y (count-here y ys)),
                ))
              s1)
            (ground (arith, apart y x (y ∷ ys) (count-here y ys) zb))
            (placed-next (some y) x ∙ ground arith, ground arith, placed_back y ys d zb s2),
        IsDistinct-insert (y ∷ ys) d z,
      )
