-- ===== src/Context/Counts.antt =====
-- What dropping references does to the counts, and that an owner's contexts stay allocated.
use disir_c.Prelude.{ℕ, ◌+◌, ◌-◌, ◌≤◌, ◌<◌, ◌≡◌, refl, true, List, [], ◌∷◌, ◌++◌, arith}
use disir_c.Context.{Contexts, decref, release, count, Holds}

pub count-here : (x : ℕ) (xs : List ℕ) → 0 < count x (x ∷ xs)
count-here x xs = ground arith

pub count-append : (c : ℕ) (xs ys : List ℕ) → count c (xs ++ ys) ≡ count c xs + count c ys
count-append c [] ys = omega arith
count-append c (x ∷ xs) ys = omega (arith, count-append c xs ys)

-- The references that remain: one less for each time that the list names the context.
pub refcount-release :
    (cs : List ℕ) (s : Contexts) (c : ℕ) → (release cs s).refcount c ≡ s.refcount c - count c cs
refcount-release [] s c = omega arith
refcount-release (d ∷ cs) s c = ground (arith, refcount-release cs (decref d s) c)

pub destroyed-release : (cs : List ℕ) (s : Contexts) → (release cs s).destroyed ≡ s.destroyed
destroyed-release [] s = refl
destroyed-release (d ∷ cs) s = destroyed-release cs (decref d s)

pub release-append :
    (xs ys : List ℕ) (s : Contexts) → release (xs ++ ys) s ≡ release ys (release xs s)
release-append [] ys s = refl
release-append (x ∷ xs) ys s = release-append xs ys (decref x s)

module _ {s : Contexts} where
  pub Holds-head : (c : ℕ) (cs : List ℕ) → Holds s (c ∷ cs) → s.allocated c ≡ true
  Holds-head c cs h = h.backed c (ground (arith, h.owned c))

  pub Holds-decref : (c : ℕ) (cs : List ℕ) → Holds s (c ∷ cs) → Holds (decref c s) cs
  Holds-decref c cs h = record {
    owned = λ d. ground (arith, h.owned d);
    backed = λ d p. ground (arith, h.backed d);
  }

  -- Any list that names each context at most as often is held too.
  pub Holds-fewer : (xs ys : List ℕ) → ((c : ℕ) → count c ys ≤ count c xs) → Holds s xs → Holds s ys
  Holds-fewer xs ys fewer h = record {
    owned = λ c. omega (arith, fewer c, h.owned c);
    backed = h.backed;
  }

-- Dropping some of the references that a list owns leaves the others owned.
pub Holds-release : (ds es : List ℕ) {s : Contexts} → Holds s (ds ++ es) → Holds (release ds s) es
Holds-release [] es h = h
Holds-release (d ∷ ds) es h = Holds-release ds es (Holds-decref d (ds ++ es) h)
