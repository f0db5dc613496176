-- ===== src/Error/Copied.antt =====
-- disir_error_copy of lib/error.c on messages that fit in the buffer, and on longer ones.
use disir_c.Prelude.{
  ℕ, ◌+◌, ◌-◌, ◌≡◌, ◌≤◌, ◌<◌, refl, true, false, Option, none, some, List, [], ◌∷◌, ◌++◌, arith,
  ltb, leb, length, take, drop, set, Option-cases, inl, inr, length-set, length-append, length-take,
  get_elem?,
}
use disir_c.Status.{ok}
use disir_c.Value.Memory.{
  memcpy, put_byte, memcpy-put_byte, length-drop, take-ended, get_elem?-ended,
}
use disir_c.Error.{Instance, message_bytes, write_from, write_dots, cut_message, error_copy, Answer}

length-put_byte :
    (buffer written : List ℕ) (i b : ℕ)
    → put_byte buffer i b ≡ some written
    → (i < length buffer) × (length written ≡ length buffer)
length-put_byte buffer written i b h = ground (arith, length-set buffer i b)

-- A text that does not fit is not written.
write_from-none :
    (i : ℕ) (bs buffer : List ℕ)
    → 0 < length bs
    → length buffer < i + length bs
    → write_from i bs buffer ≡ none
write_from-none i [] buffer some_b out = absurd (omega arith)
write_from-none i (b ∷ []) buffer some_b out = ground arith
write_from-none i (b ∷ c ∷ bs) buffer some_b out = elim (Option-cases (put_byte buffer i b)) [
  | inl fault ↦ rw (fault, write_from)
  | inr (written, e) ↦
      rw (e, write_from)
        (write_from-none (i + 1) (c ∷ bs) written (omega arith)
          (omega (arith, (length-put_byte buffer written i b e).1)))
]

length-memcpy :
    (destination source copied : List ℕ) (n : ℕ)
    → memcpy destination source n ≡ some copied
    → length copied ≡ length destination
length-memcpy destination source copied n h = ground (
  arith,
  length-append (take n source) (drop n destination),
  length-take n source,
  length-drop n destination,
)

dots-none : (i : ℕ) (buffer : List ℕ) → length buffer < i + 4 → write_dots i buffer ≡ none
dots-none i buffer out =
    rw (write_from-none i (46 ∷ 46 ∷ 46 ∷ 0 ∷ []) buffer (omega arith) (omega arith), write_dots)

cut-none :
    (buffer text : List ℕ) (size : ℕ)
    → length buffer < size
    → 4 ≤ size
    → cut_message buffer text size ≡ none
cut-none buffer text size out four = elim (Option-cases (memcpy buffer text (size - 4))) [
  | inl fault ↦ rw (fault, cut_message)
  | inr (copied, e) ↦
      rw (e, cut_message)
        (dots-none (size - 4) copied (omega (arith, length-memcpy buffer text copied (size - 4) e)))
]

-- Where the buffer has at least four bytes, and is shorter than the message, disir_error_copy writes
-- outside of the buffer.
pub error_copy-overflows :
    (r : Instance) (buffer : List ℕ)
    → 4 ≤ length buffer
    → length buffer < r.disir_error_message_size
    → error_copy (some r) (some buffer) (length buffer) ≡ none
error_copy-overflows r buffer four longer =
    let large : ltb (length buffer) 4 ≡ false = ground arith in
    let cut : leb (length buffer) r.disir_error_message_size ≡ true = ground arith in
    simp
      (
        large,
        cut,
        cut-none buffer (message_bytes r) r.disir_error_message_size longer (omega arith),
      )
      refl

-- The message stands in the buffer, with a zero behind it.
pub record Holds (r : Instance) (answer : Option Answer) : Type 0 where
  pub written : List ℕ
  pub answered : answer ≡ some (ok, written, some r.disir_error_message_size)
  pub same :
      take r.disir_error_message_size written ≡ take r.disir_error_message_size (message_bytes r)
  pub ended : get_elem? written r.disir_error_message_size ≡ some 0

-- Where the message has its bytes, and the buffer has at least four bytes and is longer than the
-- message, disir_error_copy answers ok and the size of the message, and the buffer begins with the
-- message and a zero.
pub error_copy-Holds :
    (r : Instance) (buffer : List ℕ)
    → 4 ≤ length buffer
    → r.disir_error_message_size < length buffer
    → r.disir_error_message_size ≤ length (message_bytes r)
    → Holds r (error_copy (some r) (some buffer) (length buffer))
error_copy-Holds r buffer four shorter has =
    let size = r.disir_error_message_size in
    let large : ltb (length buffer) 4 ≡ false = ground arith in
    let fits : leb (length buffer) size ≡ false = ground arith in
    let steps = memcpy-put_byte buffer (message_bytes r) size has shorter in
    record {
      written = set (take size (message_bytes r) ++ drop size buffer) size 0;
      answered = simp (large, fits, steps.0, steps.1) refl;
      same = take-ended size (message_bytes r) (drop size buffer) 0 has;
      ended =
          get_elem?-ended size (message_bytes r) (drop size buffer) 0 has
            (omega (arith, length-drop size buffer));
    }
