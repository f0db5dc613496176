-- ===== src/Queue.antt =====
-- The intrusive lists of lib/include/mqueue.h: every element has a `next` and a `prev` pointer, and
-- the `prev` of the first element is the last one. An element is named by its address, a number;
-- a pointer that may be NULL is an option, and `none` as a whole result is a NULL dereference. A
-- loop that follows `next` takes a number of rounds, since the pointers may form a cycle.
pub mod Chain
pub mod Insert
pub mod Remove
pub mod Search
use disir_c.Prelude.{
  ℕ, zero, suc, ◌+◌, ◌-◌, Bool, true, false, Option, none, some, ◌==◌, if◌then◌else◌,
}
use disir_c.Context.{update}

pub record Queue : Type 0 where
  pub first : Option ℕ
  pub next : ℕ → Option ℕ
  pub prev : ℕ → Option ℕ

abbrev pub write_next : ℕ → Option ℕ → Queue → Queue
write_next x p q = record q { next = update q.next x p }

abbrev pub write_prev : ℕ → Option ℕ → Queue → Queue
write_prev x p q = record q { prev = update q.prev x p }

-- An element becomes the whole list: `q = x->prev = x`.
abbrev pub alone : ℕ → Queue → Queue
alone x q = record (write_prev x (some x) q) { first = some x }

-- MQ_HEAD and MQ_TAIL
abbrev pub head : Queue → Option ℕ
head q = q.first

abbrev pub tail : Queue → Option ℕ
tail q = elim q.first [ none ↦ none | some h ↦ q.prev h ]

-- MQ_ENQUEUE on a list whose first element is `h`, with the `next` of the new element NULL
abbrev pub enqueue_behind : ℕ → ℕ → Queue → Option Queue
enqueue_behind h x q = elim (q.prev h) [
  | none ↦ none
  | some last ↦
      let linked : Queue = write_next last (some x) q in
      some (write_prev h (some x) (write_prev x (linked.prev h) linked))
]

-- MQ_ENQUEUE
abbrev pub enqueue : ℕ → Queue → Option Queue
enqueue x q =
    let fresh : Queue = write_next x none q in
    elim q.first [ none ↦ some (alone x fresh) | some h ↦ enqueue_behind h x fresh ]

-- MQ_PUSH
abbrev pub push : ℕ → Queue → Queue
push x q =
    let linked : Queue = write_next x q.first q in
    elim q.first [
      | none ↦ alone x linked
      | some h ↦ record (write_prev h (some x) (write_prev x (linked.prev h) linked)) {
        first = some x;
      }
    ]

-- MQ_DEQUEUE and MQ_POP
abbrev pub dequeue : Queue → Option ℕ × Queue
dequeue q = elim q.first [
  | none ↦ (none, q)
  | some h ↦ (
    some h,
    elim (q.next h) [
      | none ↦ record q { first = none }
      | some second ↦ write_prev second (q.prev h) (record q { first = some second })
    ],
  )
]

-- MQ_UNTAIL on a list whose first element is `h` and whose last one is `last`, not the same
abbrev pub cut_last : ℕ → ℕ → Queue → Option (Option ℕ × Queue)
cut_last h last q =
    let moved : Queue = write_prev h (q.prev last) q in
    elim (moved.prev last) [
      | none ↦ none
      | some before ↦ some (some last, write_next before none moved)
    ]

-- MQ_UNTAIL
abbrev pub untail : Queue → Option (Option ℕ × Queue)
untail q = elim q.first [
  | none ↦ some (none, q)
  | some h ↦ elim (q.next h) [
    | none ↦ some (q.prev h, record q { first = none })
    | some second ↦ elim (q.prev h) [ none ↦ none | some last ↦ cut_last h last q ]
  ]
]

-- MQ_REMOVE of an element that is not the first one, `h`
abbrev pub unlink : ℕ → ℕ → Queue → Option Queue
unlink h x q = elim (q.prev x) [
  | none ↦ none
  | some before ↦
      let skipped : Queue = write_next before (q.next x) q in
      elim (skipped.next x) [
        | none ↦ some (write_prev h (skipped.prev x) skipped)
        | some after ↦ some (write_prev after (skipped.prev x) skipped)
      ]
]

-- MQ_REMOVE of the first element
abbrev pub remove_first : ℕ → Queue → Queue
remove_first x q = elim (q.next x) [
  | none ↦ record q { first = none }
  | some after ↦ write_prev after (q.prev x) (record q { first = some after })
]

-- MQ_REMOVE; on a list that does not contain the element, such as the empty one, its result is
-- undefined.
abbrev pub remove : ℕ → Queue → Option Queue
remove x q = elim q.first [
  | none ↦ none
  | some h ↦ if x == h then some (remove_first x q) else unlink h x q
]

-- The loops of MQ_FIND and MQ_REMOVE_SAFE: the first element from `entry` on that passes the
-- test. The first result is `none` where the rounds run out.
unfoldable pub find_from : ℕ → (ℕ → Bool) → Option ℕ → Queue → Option (Option ℕ)
find_from zero p entry q = none
find_from (suc rounds) p entry q = elim entry [
  | none ↦ some none
  | some e ↦ if p e then some (some e) else find_from rounds p (q.next e) q
]

-- MQ_FIND
abbrev pub find : ℕ → (ℕ → Bool) → Queue → Option (Option ℕ)
find rounds p q = find_from rounds p q.first q

-- MQ_REMOVE_SAFE: the flag says whether the element was found and removed.
abbrev pub remove_safe : ℕ → ℕ → Queue → Option (Bool × Queue)
remove_safe rounds x q = elim (find rounds (λ e. e == x) q) [
  | none ↦ none
  | some none ↦ some (false, q)
  | some (some e) ↦ elim (remove x q) [ none ↦ none | some left ↦ some (true, left) ]
]

-- MQ_SIZE
unfoldable pub size_from : ℕ → Option ℕ → Queue → Option ℕ
size_from zero entry q = none
size_from (suc rounds) entry q = elim entry [
  | none ↦ some 0
  | some e ↦ elim (size_from rounds (q.next e) q) [ none ↦ none | some n ↦ some (n + 1) ]
]

-- The loop of MQ_ENQUEUE_CONDITIONAL, behind `before`: where the test passes or the list ends.
unfoldable pub seek_place : ℕ → (ℕ → Bool) → ℕ → Option ℕ → Queue → Option (ℕ × Option ℕ)
seek_place zero p before entry q = none
seek_place (suc rounds) p before entry q = elim entry [
  | none ↦ some (before, none)
  | some e ↦ if p e then some (before, some e) else seek_place rounds p e (q.next e) q
]

-- The writes of MQ_ENQUEUE_CONDITIONAL between `before` and `after`
abbrev pub link_between : ℕ → ℕ → ℕ → Option ℕ → Queue → Queue
link_between h x before after q =
    let linked : Queue =
      write_next x after (write_prev x (some before) (write_next before (some x) q)) in
    elim after [ none ↦ write_prev h (some x) linked | some e ↦ write_prev e (some x) linked ]

-- MQ_ENQUEUE_CONDITIONAL
abbrev pub enqueue_conditional : ℕ → ℕ → (ℕ → Bool) → Queue → Option Queue
enqueue_conditional rounds x p q = elim q.first [
  | none ↦ some (push x q)
  | some h ↦ if p h then some (push x q) else elim (seek_place rounds p h (q.next h) q) [
    | none ↦ none
    | some (before, after) ↦ some (link_between h x before after q)
  ]
]
