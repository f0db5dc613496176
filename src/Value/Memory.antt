-- ===== src/Value/Memory.antt =====
-- Writes to a buffer of bytes, as memcpy, an assignment to an element and snprintf make them.
use disir_c.Prelude.{
  ℕ, zero, suc, ◌-◌, ◌≤◌, ◌<◌, ◌≡◌, refl, ap, Option, none, some, List, [], ◌∷◌, ◌++◌, ltb, leb,
  ◌&&◌, if◌then◌else◌, length, take, drop, set, min, length-append, length-take, get_elem?, arith,
}

-- The first `n` bytes of the source; a range outside of either buffer is a fault.
abbrev pub memcpy : List ℕ → List ℕ → ℕ → Option (List ℕ)
memcpy destination source n =
    if leb n (length source) && leb n (length destination)
    then some (take n source ++ drop n destination)
    else none

abbrev pub put_byte : List ℕ → ℕ → ℕ → Option (List ℕ)
put_byte buffer i b = if ltb i (length buffer) then some (set buffer i b) else none

-- snprintf to a buffer, its length given as the size: the text is cut to leave room for the zero.
abbrev pub snprintf : List ℕ → List ℕ → List ℕ
snprintf [] text = []
snprintf (b ∷ buffer) text =
    take (min (length buffer) (length text)) text
    ++ (0 ∷ drop (min (length buffer) (length text)) buffer)

module _ {ℓ} {A : Type ℓ} where
  pub length-drop : (n : ℕ) (xs : List A) → length (drop n xs) ≡ length xs - n
  length-drop zero xs = omega arith
  length-drop (suc n) [] = omega arith
  length-drop (suc n) (x ∷ xs) = omega (arith, length-drop n xs)

  -- A copy of `n` elements, ended at `n`: what stands before the end, and the end.
  pub take-ended :
      (n : ℕ) (source rest : List A) (b : A)
      → n ≤ length source
      → take n (set (take n source ++ rest) n b) ≡ take n source
  take-ended zero source rest b le = refl
  take-ended (suc n) [] rest b le = absurd (omega arith)
  take-ended (suc n) (x ∷ source) rest b le =
      ap (λ l. x ∷ l) (take-ended n source rest b (omega arith))

  pub get_elem?-ended :
      (n : ℕ) (source rest : List A) (b : A)
      → n ≤ length source
      → 0 < length rest
      → get_elem? (set (take n source ++ rest) n b) n ≡ some b
  get_elem?-ended zero source [] b le lt = absurd (omega arith)
  get_elem?-ended zero source (x ∷ rest) b le lt = refl
  get_elem?-ended (suc n) [] rest b le lt = absurd (omega arith)
  get_elem?-ended (suc n) (x ∷ source) rest b le lt =
      get_elem?-ended n source rest b (omega arith) lt

-- Copying a text and ending it, where both fit.
pub memcpy-put_byte :
    (destination source : List ℕ) (n : ℕ)
    → n ≤ length source
    → n < length destination
    → (memcpy destination source n ≡ some (take n source ++ drop n destination))
      × (put_byte (take n source ++ drop n destination) n 0
          ≡ some (set (take n source ++ drop n destination) n 0))
memcpy-put_byte destination source n le lt = (
  ground arith,
  ground (
    arith,
    length-append (take n source) (drop n destination),
    length-take n source,
    length-drop n destination,
  ),
)
