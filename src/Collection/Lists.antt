-- ===== src/Collection/Lists.antt =====
-- Slots as a processed front, a gap of NULL and destroyed entries, and the entries to come.
use mathlib.Core.List.{append_assoc}
use disir_c.Prelude.{
  ℕ, zero, suc, ◌+◌, ◌≤◌, ◌≡◌, refl, ap, ◌∙◌, length-append, ◌⊎◌, inl, inr, Bool, true, false, not,
  Option, none, some, List, [], ◌∷◌, ◌++◌, map, arith, get_elem?, set, length, filter, take, ltb,
  ◌-◌, Bool-cases, if◌then◌else◌,
}
use disir_c.Context.{Contexts, Holds}
use disir_c.Context.Counts.{Holds-head, Holds-fewer}
use disir_c.Collection.{Slots}

module _ {ℓ} {A : Type ℓ} where
  pub get_elem?-middle :
      (front back : List A) (x : A) → get_elem? (front ++ (x ∷ back)) (length front) ≡ some x
  get_elem?-middle [] back x = refl
  get_elem?-middle (a ∷ front) back x = get_elem?-middle front back x

  pub set-middle :
      (front back : List A) (x v : A)
      → set (front ++ (x ∷ back)) (length front) v ≡ front ++ (v ∷ back)
  set-middle [] back x v = refl
  set-middle (a ∷ front) back x v = ap (λ l. a ∷ l) (set-middle front back x v)

  pub filter-append :
      (p : A → Bool) (front back : List A)
      → filter p (front ++ back) ≡ filter p front ++ filter p back
  filter-append p [] back = refl
  filter-append p (a ∷ front) back = elim (Bool-cases (p a)) [
    | inl e ↦ rw (e, filter-append p front back)
    | inr e ↦ rw (e, filter-append p front back)
  ]

pub length-map-some : (xs : List ℕ) → length (map some xs) ≡ length xs
length-map-some [] = refl
length-map-some (x ∷ xs) = ap suc (length-map-some xs)

-- A write behind a list of contexts that stands behind `front`.
pub set-behind :
    (front : Slots) (ds : List ℕ) (back : Slots) (x v : Option ℕ)
    → set (front ++ (map some ds ++ (x ∷ back))) (length front + length ds) v
      ≡ front ++ (map some ds ++ (v ∷ back))
set-behind front ds back x v = rw (← length-map-some ds) (
    rw (← length-append front (map some ds)) (
      rw (← append_assoc front (map some ds) (x ∷ back))
        (set-middle (front ++ map some ds) back x v ∙ append_assoc front (map some ds) (v ∷ back))))

-- The contexts that the slots name.
abbrev pub somes : Slots → List ℕ
somes [] = []
somes (none ∷ g) = somes g
somes (some d ∷ g) = d ∷ somes g

pub somes-append : (g h : Slots) → somes (g ++ h) ≡ somes g ++ somes h
somes-append [] h = refl
somes-append (none ∷ g) h = somes-append g h
somes-append (some d ∷ g) h = ap (λ l. d ∷ l) (somes-append g h)

pub somes-map-some : (xs : List ℕ) → somes (map some xs) ≡ xs
somes-map-some [] = refl
somes-map-some (x ∷ xs) = ap (λ l. x ∷ l) (somes-map-some xs)

module _ (s : Contexts) where
  abbrev pub is_dead : ℕ → Bool
  is_dead c = s.destroyed c

  abbrev pub is_live : ℕ → Bool
  is_live c = not (s.destroyed c)

  -- Destroyed contexts that can still be read.
  abbrev pub AllDead : List ℕ → Type 0
  AllDead [] = Unit
  AllDead (c ∷ cs) = (s.allocated c ≡ true) × (s.destroyed c ≡ true) × AllDead cs

  -- Slots that hold no context in use.
  abbrev pub IsGap : Slots → Type 0
  IsGap [] = Unit
  IsGap (none ∷ g) = IsGap g
  IsGap (some d ∷ g) = (s.destroyed d ≡ true) × IsGap g

  pub IsGap-append : (g h : Slots) → IsGap g → IsGap h → IsGap (g ++ h)
  IsGap-append [] h a b = b
  IsGap-append (none ∷ g) h a b = IsGap-append g h a b
  IsGap-append (some d ∷ g) h a b = (a.0, IsGap-append g h a.1 b)

  pub IsGap-AllDead : (cs : List ℕ) → AllDead cs → IsGap (map some cs)
  IsGap-AllDead [] a = tt
  IsGap-AllDead (c ∷ cs) a = (a.1, IsGap-AllDead cs a.2)

  pub filter-dead : (cs : List ℕ) → AllDead cs → filter is_dead cs ≡ cs
  filter-dead [] a = refl
  filter-dead (c ∷ cs) a = rw (a.1, filter-dead cs a.2)

  pub filter-dead_live : (cs : List ℕ) → AllDead cs → filter is_live cs ≡ []
  filter-dead_live [] a = refl
  filter-dead_live (c ∷ cs) a = rw (a.1, filter-dead_live cs a.2)

  pub Holds-tail : (c : ℕ) (cs : List ℕ) → Holds s (c ∷ cs) → Holds s cs
  Holds-tail c cs h = Holds-fewer (c ∷ cs) cs (λ d. ground arith) h

  -- The entries up to the first context in use, if there is one.
  pub record FirstLive (todo : List ℕ) : Type 0 where
    pub dead : List ℕ
    pub found : ℕ
    pub later : List ℕ
    pub split : todo ≡ dead ++ (found ∷ later)
    pub all_dead : AllDead dead
    pub allocated : s.allocated found ≡ true
    pub living : s.destroyed found ≡ false

  FirstLive-cons :
      (c : ℕ) (cs : List ℕ)
      → s.allocated c ≡ true
      → s.destroyed c ≡ true
      → FirstLive cs
      → FirstLive (c ∷ cs)
  FirstLive-cons c cs a d f = record {
    dead = c ∷ f.dead;
    found = f.found;
    later = f.later;
    split = ap (λ l. c ∷ l) f.split;
    all_dead = (a, d, f.all_dead);
    allocated = f.allocated;
    living = f.living;
  }

  pub first_live : (todo : List ℕ) → Holds s todo → AllDead todo ⊎ FirstLive todo
  first_live [] h = inl tt
  first_live (c ∷ cs) h = elim (Bool-cases (s.destroyed c)) [
    | inl d ↦ elim (first_live cs (Holds-tail c cs h)) [
      | inl a ↦ inl (Holds-head c cs h, d, a)
      | inr f ↦ inr (FirstLive-cons c cs (Holds-head c cs h) d f)
    ]
    | inr l ↦ inr (record {
      dead = [];
      found = c;
      later = cs;
      split = refl;
      all_dead = tt;
      allocated = Holds-head c cs h;
      living = l;
    })
  ]

  pub filter_dead-split :
      (ds : List ℕ) (c : ℕ) (later : List ℕ)
      → AllDead ds
      → s.destroyed c ≡ false
      → filter is_dead (ds ++ (c ∷ later)) ≡ ds ++ filter is_dead later
  filter_dead-split [] c later a l = rw l
  filter_dead-split (d ∷ ds) c later a l = rw (a.1, filter_dead-split ds c later a.2 l)

  pub filter_live-split :
      (ds : List ℕ) (c : ℕ) (later : List ℕ)
      → AllDead ds
      → s.destroyed c ≡ false
      → filter is_live (ds ++ (c ∷ later)) ≡ c ∷ filter is_live later
  filter_live-split [] c later a l = rw l
  filter_live-split (d ∷ ds) c later a l = rw (a.1, filter_live-split ds c later a.2 l)

  -- The contexts in use among the first `n`.
  abbrev pub live_before : ℕ → List ℕ → ℕ
  live_before n cs = length (filter is_live (take n cs))

  pub live_before-dead : (n : ℕ) (ds : List ℕ) → AllDead ds → live_before n ds ≡ 0
  live_before-dead zero ds a = refl
  live_before-dead (suc n) [] a = refl
  live_before-dead (suc n) (d ∷ ds) a = rw a.1 (live_before-dead n ds a.2)

  pub live_before-split :
      (n : ℕ) (ds : List ℕ) (c : ℕ) (later : List ℕ)
      → AllDead ds
      → s.destroyed c ≡ false
      → live_before n (ds ++ (c ∷ later))
        ≡ (if ltb (length ds) n then suc (live_before (n - suc (length ds)) later) else 0)
  live_before-split zero ds c later a l = ground arith
  live_before-split (suc n) [] c later a l =
      let e : n ≡ suc n - 1 = omega arith in rw (l, ← e) (ground arith)
  live_before-split (suc n) (d ∷ ds) c later a l =
      let e : n - suc (length ds) ≡ suc n - suc (suc (length ds)) = omega arith in
      rw (a.1, ← e) (live_before-split n ds c later a.2 l ∙ ground arith)

  pub live_before-le : (n : ℕ) (cs : List ℕ) → live_before n cs ≤ n
  live_before-le zero cs = omega arith
  live_before-le (suc n) [] = omega arith
  live_before-le (suc n) (c ∷ cs) = ground (arith, live_before-le n cs)

  pub live_before-dead_cons :
      (n c : ℕ) (cs : List ℕ)
      → s.destroyed c ≡ true
      → live_before n (c ∷ cs) ≡ live_before (n - 1) cs
  live_before-dead_cons zero c cs gone = refl
  live_before-dead_cons (suc n) c cs gone = let e : n ≡ suc n - 1 = omega arith in rw (gone, ← e)

  pub live_before-live_cons :
      (n c : ℕ) (cs : List ℕ)
      → s.destroyed c ≡ false
      → live_before n (c ∷ cs) ≡ (if ltb 0 n then suc (live_before (n - 1) cs) else 0)
  live_before-live_cons n c cs living = live_before-split n [] c cs tt living

  pub live_before-total : (n : ℕ) (cs : List ℕ) → live_before n cs ≤ length (filter is_live cs)
  live_before-total zero cs = omega arith
  live_before-total (suc n) [] = omega arith
  live_before-total (suc n) (c ∷ cs) = ground (arith, live_before-total n cs)
