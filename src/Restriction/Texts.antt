-- ===== src/Restriction/Texts.antt =====
-- The texts that strcmp finds equal in lib/context_restriction.c and lib/compare.c are equal.
use disir_c.Prelude.{ℕ, ◌≡◌, ◌≢◌, refl, sym, ap, ◌∙◌, Bool, true, false, List, [], ◌∷◌, ◌==◌, arith}
use disir_c.Restriction.Exclusive.{same_text}

pub same_text-eq : (s t : List ℕ) → same_text s t ≡ true → s ≡ t
same_text-eq [] [] h = refl
same_text-eq [] (y ∷ t) h = cc
same_text-eq (x ∷ s) [] h = cc
same_text-eq (x ∷ s) (y ∷ t) h = ground (arith, same_text-eq s t)

pub same_text_refl : (s : List ℕ) → same_text s s ≡ true
same_text_refl [] = refl
same_text_refl (x ∷ s) = ground (arith, same_text_refl s)

pub characters-eq : (x y : ℕ) → (x == y) ≡ true → x ≡ y
characters-eq x y h = ground arith

pub characters-apart : (x y : ℕ) → (x == y) ≡ false → x ≢ y
characters-apart x y h = λ e. ground arith

pub heads-eq : (x y : ℕ) (s t : List ℕ) → ◌≡◌ {A = List ℕ} (x ∷ s) (y ∷ t) → x ≡ y
heads-eq x y s t e = cc

pub tails-eq : (x y : ℕ) (s t : List ℕ) → ◌≡◌ {A = List ℕ} (x ∷ s) (y ∷ t) → s ≡ t
tails-eq x y s t e = cc

pub empty-apart : (x : ℕ) (s : List ℕ) → ◌≡◌ {A = List ℕ} [] (x ∷ s) → ⊥
empty-apart x s e = cc

abbrev decide_character : (x y : ℕ) (b : Bool) → (x == y) ≡ b → Dec (x ≡ y)
decide_character x y true h = yes (characters-eq x y h)
decide_character x y false h = no (characters-apart x y h)

abbrev decide_both :
    (x y : ℕ) (s t : List ℕ) → Dec (x ≡ y) → Dec (s ≡ t) → Dec (◌≡◌ {A = List ℕ} (x ∷ s) (y ∷ t))
decide_both x y s t (yes p) (yes q) = yes (λ i. p i ∷ q i)
decide_both x y s t (yes p) (no n) = no (λ e. n (tails-eq x y s t e))
decide_both x y s t (no n) q = no (λ e. n (heads-eq x y s t e))

abbrev decide_text : (s t : List ℕ) → Dec (s ≡ t)
decide_text [] [] = yes refl
decide_text [] (y ∷ t) = no (empty-apart y t)
decide_text (x ∷ s) [] = no (λ e. empty-apart x s (sym e))
decide_text (x ∷ s) (y ∷ t) =
    decide_both x y s t (decide_character x y (x == y) refl) (decide_text s t)

abbrev is_decided : {A : Type 0} → Dec A → Bool
is_decided (yes p) = true
is_decided (no p) = false

-- The two texts are equal.
abbrev pub is_same : List ℕ → List ℕ → Bool
is_same s t = is_decided (decide_text s t)

decided-same : (s t : List ℕ) (d : Dec (s ≡ t)) (b : Bool) → same_text s t ≡ b → b ≡ is_decided d
decided-same s t (yes e) true h = refl
decided-same s t (yes e) false h = sym h ∙ ap (same_text s) (sym e) ∙ same_text_refl s
decided-same s t (no n) true h = absurd (n (same_text-eq s t h))
decided-same s t (no n) false h = refl

pub same_text-is_same : (s t : List ℕ) → same_text s t ≡ is_same s t
same_text-is_same s t = decided-same s t (decide_text s t) (same_text s t) refl
