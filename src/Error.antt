-- ===== src/Error.antt =====
-- The error message of an instance: disir_error_clear and disir_error_copy of lib/error.c, with the two
-- members of struct disir_instance in lib/include/disir_private.h that they use. The size of the
-- message is never negative, and at most what is allocated for it.
pub mod Copied
use disir_c.Prelude.{
  ℕ, ◌+◌, ◌-◌, Bool, Option, none, some, List, [], ◌∷◌, ltb, leb, ◌==◌, length, if◌then◌else◌,
}
use disir_c.Status.{Status, ok, invalid_argument, insufficient_resources}
use disir_c.Value.Memory.{memcpy, put_byte}

pub record Instance : Type 0 where
  pub disir_error_message : Option (List ℕ)
  pub disir_error_message_size : ℕ

-- disir_error_clear
abbrev pub error_clear : Instance → Instance
error_clear r =
    if r.disir_error_message_size == 0
    then r
    else (record { disir_error_message = none; disir_error_message_size = 0 })

-- The bytes of a message that may be NULL
abbrev pub message_bytes : Instance → List ℕ
message_bytes r = elim r.disir_error_message [ none ↦ [] | some text ↦ text ]

-- The bytes of a text written from a place on; a write outside of the buffer is `none`.
abbrev pub write_from : ℕ → List ℕ → List ℕ → Option (List ℕ)
write_from i [] buffer = some buffer
write_from i (b ∷ bs) buffer = elim (put_byte buffer i b) [
  | none ↦ none
  | some written ↦ write_from (i + 1) bs written
]

-- `sprintf (buffer + size, "...")`, with its zero, and the zero that is written once more
abbrev pub write_dots : ℕ → List ℕ → Option (List ℕ)
write_dots i buffer = elim (write_from i (46 ∷ 46 ∷ 46 ∷ 0 ∷ []) buffer) [
  | none ↦ none
  | some written ↦ put_byte written (i + 3) 0
]

-- The message cut for "...", which takes four bytes
abbrev pub cut_message : List ℕ → List ℕ → ℕ → Option (List ℕ)
cut_message buffer text size = elim (memcpy buffer text (size - 4)) [
  | none ↦ none
  | some copied ↦ write_dots (size - 4) copied
]

-- What a call answers: its status, the buffer, and what is written to *bytes_written.
abbrev pub Answer : Type 0
Answer = Status × List ℕ × Option ℕ

abbrev pub with_buffer : Status → ℕ → Option (List ℕ) → Option Answer
with_buffer s size none = none
with_buffer s size (some buffer) = some (s, buffer, some size)

-- The part of disir_error_copy behind its tests; the size is reduced by the four bytes of "...".
abbrev pub copy_message : Instance → ℕ → List ℕ → Option Answer
copy_message r buffer_size buffer =
    let size = r.disir_error_message_size in
    if leb buffer_size size
    then with_buffer insufficient_resources size (cut_message buffer (message_bytes r) size)
    else with_buffer ok size (elim (memcpy buffer (message_bytes r) size) [
      | none ↦ none
      | some copied ↦ put_byte copied size 0
    ])

-- disir_error_copy, where bytes_written is not NULL; a pointer that is NULL is `none`.
abbrev pub error_copy : Option Instance → Option (List ℕ) → ℕ → Option Answer
error_copy none buffer buffer_size = some (invalid_argument, [], none)
error_copy (some r) none buffer_size = some (invalid_argument, [], none)
error_copy (some r) (some buffer) buffer_size =
    if ltb buffer_size 4
    then some (insufficient_resources, buffer, none)
    else copy_message r buffer_size buffer
