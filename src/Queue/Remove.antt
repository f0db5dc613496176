-- ===== src/Queue/Remove.antt =====
-- MQ_DEQUEUE, MQ_REMOVE and MQ_REMOVE_SAFE take elements out of the list.
use mathlib.Core.List.{append-nil}
use disir_c.Prelude.{
  ℕ, ◌<◌, ◌≡◌, ◌≢◌, refl, sym, ◌∙◌, Option, none, some, List, [], ◌∷◌, ◌++◌, arith,
}
use disir_c.Context.{count}
use disir_c.Context.Counts.{count-append}
use disir_c.Queue.{Queue, dequeue, remove, unlink, write_prev, write_next}
use disir_c.Queue.Chain.{
  last, Segment, IsDistinct, Represents, count-last, last-append, count-here, IsDistinct-tail,
  IsDistinct-head, apart, Segment-redirect, Segment-last, Segment-join, Segment-split,
}
use disir_c.Queue.Insert.Enqueue.{Leaves}

abbrev first_of : List ℕ → Option ℕ
first_of [] = none
first_of (y ∷ ys) = some y

-- What is left of the queue when its first element goes.
abbrev pub without_first : Queue → ℕ → List ℕ → Queue
without_first q h [] = record q { first = none }
without_first q h (y ∷ ys) = write_prev y (q.prev h) (record q { first = some y })

module _ (q : Queue) (h : ℕ) where
  without_first-Represents :
      (hs : List ℕ) → Represents q (h ∷ hs) → Represents (without_first q h hs) hs
  without_first-Represents [] r = refl
  without_first-Represents (y ∷ ys) (f, p, s, d) = (
    refl,
    ground (arith, p),
    Segment-redirect q (without_first q h (y ∷ ys)) y ys none none (IsDistinct-tail h (y ∷ ys) d)
        (λ c k ne. refl)
        (λ c k.
          ground (arith, apart c y ys k (IsDistinct-head y ys (IsDistinct-tail h (y ∷ ys) d))))
        (Segment-last q y ys none s.2) s.2,
    IsDistinct-tail h (y ∷ ys) d,
  )

  -- Dequeueing gives the first element and leaves the others.
  pub dequeue-Represents :
      (hs : List ℕ)
      → Represents q (h ∷ hs)
      → (dequeue q ≡ (some h, without_first q h hs)) × Represents (without_first q h hs) hs
  dequeue-Represents [] r = (ground (arith, r.0, r.2), without_first-Represents [] r)
  dequeue-Represents (y ∷ ys) r = (ground (arith, r.0, r.2), without_first-Represents (y ∷ ys) r)

-- What MQ_REMOVE leaves of the queue where `x` stands behind `h` and `front`.
abbrev unlinked : Queue → ℕ → List ℕ → ℕ → List ℕ → Queue
unlinked q h front x [] = write_prev h (q.prev x) (write_next (last h front) (q.next x) q)
unlinked q h front x (y ∷ ys) = write_prev y (q.prev x) (write_next (last h front) (q.next x) q)

module _ (q : Queue) (h x : ℕ) (front back : List ℕ)
    (r : Represents q (h ∷ (front ++ (x ∷ back)))) where
  abbrev whole : List ℕ
  whole = h ∷ (front ++ (x ∷ back))

  abbrev left : Queue
  left = unlinked q h front x back

  none_behind : (c : ℕ) → 0 < count c (h ∷ front) → count c (x ∷ back) ≡ 0
  none_behind c k = omega (arith, k, r.3 c, count-append c front (x ∷ back))

  none_before : (c : ℕ) → 0 < count c (x ∷ back) → count c (h ∷ front) ≡ 0
  none_before c k = omega (arith, k, r.3 c, count-append c front (x ∷ back))

  IsDistinct-front : IsDistinct (h ∷ front)
  IsDistinct-front c = omega (arith, r.3 c, count-append c front (x ∷ back))

  IsDistinct-back : IsDistinct (x ∷ back)
  IsDistinct-back c = omega (arith, r.3 c, count-append c front (x ∷ back))

  IsDistinct-left : IsDistinct (h ∷ (front ++ back))
  IsDistinct-left c =
      omega (arith, r.3 c, count-append c front (x ∷ back), count-append c front back)

  x_not_h : x ≢ h
  x_not_h =
      apart x h (x ∷ back) (count-here x back) (omega (arith, none_behind h (count-here h front)))

  x_not_last : x ≢ last h front
  x_not_last =
      apart x (last h front) (x ∷ back) (count-here x back)
        (none_behind (last h front) (count-last h front))

  before_x : q.prev x ≡ some (last h front)
  before_x = (Segment-split q h front x back none r.2).1

  remove-unlink : remove x q ≡ unlink h x q
  remove-unlink = ground (arith, r.0, x_not_h)

next_of : (q : Queue) (x : ℕ) (back : List ℕ) → Segment q x back none → q.next x ≡ first_of back
next_of q x [] s = s
next_of q x (y ∷ ys) s = s.0

module _ (q : Queue) (h x : ℕ) (front : List ℕ) where
  unlink-last :
      Represents q (h ∷ (front ++ (x ∷ []))) → unlink h x q ≡ some (unlinked q h front x [])
  unlink-last r = ground (
    arith,
    before_x q h x front [] r,
    x_not_last q h x front [] r,
    (Segment-split q h front x [] none r.2).2,
  )

  unlink-middle :
      (y : ℕ) (ys : List ℕ)
      → Represents q (h ∷ (front ++ (x ∷ (y ∷ ys))))
      → unlink h x q ≡ some (unlinked q h front x (y ∷ ys))
  unlink-middle y ys r = ground (
    arith,
    before_x q h x front (y ∷ ys) r,
    x_not_last q h x front (y ∷ ys) r,
    next_of q x (y ∷ ys) ((Segment-split q h front x (y ∷ ys) none r.2).2),
  )

  last-Represents :
      (r : Represents q (h ∷ (front ++ (x ∷ []))))
      → Represents (unlinked q h front x []) (h ∷ front)
  last-Represents r = (
    r.0,
    ground (arith, before_x q h x front [] r),
    Segment-redirect q (unlinked q h front x []) h front (some x) none
        (IsDistinct-front q h x front [] r) (λ c k ne. ground arith)
        (λ c k.
          ground (
            arith,
            apart c h front k (IsDistinct-head h front (IsDistinct-front q h x front [] r)),
          ))
        (ground (arith, (Segment-split q h front x [] none r.2).2))
        (Segment-split q h front x [] none r.2).0,
    IsDistinct-front q h x front [] r,
  )

  module _ (y : ℕ) (ys : List ℕ) (r : Represents q (h ∷ (front ++ (x ∷ (y ∷ ys))))) where
    not_y : (c : ℕ) → 0 < count c (h ∷ front) → c ≢ y
    not_y c k =
        let behind : count c (x ∷ (y ∷ ys)) ≡ 0 = none_behind q h x front (y ∷ ys) r c k in
        λ e. apart y c (y ∷ ys) (count-here y ys) (omega (arith, behind)) (sym e)

    middle_front :
        Segment q h front (some x) → Segment (unlinked q h front x (y ∷ ys)) h front (some y)
    middle_front s =
        Segment-redirect q (unlinked q h front x (y ∷ ys)) h front (some x) (some y)
          (IsDistinct-front q h x front (y ∷ ys) r) (λ c k ne. ground arith)
          (λ c k. ground (arith, not_y c (omega (arith, k))))
          (ground (arith, next_of q x (y ∷ ys) (Segment-split q h front x (y ∷ ys) none r.2).2)) s

    middle_back : Segment q y ys none → Segment (unlinked q h front x (y ∷ ys)) y ys none
    middle_back s =
        Segment-redirect q (unlinked q h front x (y ∷ ys)) y ys none none distinct
          (λ c k ne. kept c k)
          (λ c k. ground (arith, apart c y ys k (IsDistinct-head y ys distinct)))
          (kept (last y ys) (count-last y ys) ∙ Segment-last q y ys none s) s
      where
        distinct : IsDistinct (y ∷ ys)
        distinct = IsDistinct-tail x (y ∷ ys) (IsDistinct-back q h x front (y ∷ ys) r)

        kept : (c : ℕ) → 0 < count c (y ∷ ys) → (unlinked q h front x (y ∷ ys)).next c ≡ q.next c
        kept c k = ground (
          arith,
          apart (last h front) c (h ∷ front) (count-last h front)
              (none_before q h x front (y ∷ ys) r c (omega (arith, k))),
        )

    middle-Represents : Represents (unlinked q h front x (y ∷ ys)) (h ∷ (front ++ (y ∷ ys)))
    middle-Represents =
        let (s1, b, s2) = Segment-split q h front x (y ∷ ys) none r.2 in
        let ends : last h (front ++ (x ∷ (y ∷ ys))) ≡ last h (front ++ (y ∷ ys)) =
          last-append h front x (y ∷ ys) ∙ sym (last-append h front y ys) in
        (
          r.0,
          ground (arith, r.1, ends, not_y h (count-here h front)),
          Segment-join (unlinked q h front x (y ∷ ys)) h front y ys none (middle_front s1)
              (ground (arith, b)) (middle_back s2.2),
          IsDistinct-left q h x front (y ∷ ys) r,
        )

-- Removing an element that stands behind others takes it out and leaves the others in order.
pub remove-Leaves :
    (q : Queue) (h x : ℕ) (front back : List ℕ)
    → Represents q (h ∷ (front ++ (x ∷ back)))
    → Leaves (remove x q) (h ∷ (front ++ back))
remove-Leaves q h x front [] r = record {
  queue = unlinked q h front x [];
  answered = remove-unlink q h x front [] r ∙ unlink-last q h x front r;
  represents = rw (append-nil front) (last-Represents q h x front r);
}
remove-Leaves q h x front (y ∷ ys) r = record {
  queue = unlinked q h front x (y ∷ ys);
  answered = remove-unlink q h x front (y ∷ ys) r ∙ unlink-middle q h x front y ys r;
  represents = middle-Represents q h x front y ys r;
}

-- Removing the first element leaves the others.
pub remove_first-Leaves :
    (q : Queue) (h : ℕ) (hs : List ℕ) → Represents q (h ∷ hs) → Leaves (remove h q) hs
remove_first-Leaves q h [] r = record {
  queue = without_first q h [];
  answered = ground (arith, r.0, r.2);
  represents = without_first-Represents q h [] r;
}
remove_first-Leaves q h (y ∷ ys) r = record {
  queue = without_first q h (y ∷ ys);
  answered = ground (arith, r.0, r.2);
  represents = without_first-Represents q h (y ∷ ys) r;
}
