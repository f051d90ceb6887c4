-- ===== src/Chain/Seg.antt =====
-- A run of nodes that are linked in both directions, and what keeps it one.
use mathlib.Core.Bool.{or_assoc}
use prs.Base.{
  ℕ, ◌≡◌, ◌≢◌, refl, ◌∙◌, sym, subst, eq_of_test, Bool-cases, inl, inr, Bool, true, false, ◌||◌,
  List, [], ◌∷◌, ◌++◌, arith, ◌==◌, if◌then◌else◌,
}

abbrev pub has : ℕ → List ℕ → Bool
has a [] = false
has a (x ∷ xs) = (a == x) || has a xs

-- The first occurrence taken out.
abbrev pub without : ℕ → List ℕ → List ℕ
without x [] = []
without x (y ∷ ys) = let rest = without x ys in if x == y then ys else y ∷ rest

abbrev pub first_or : ℕ → List ℕ → ℕ
first_or a [] = a
first_or a (x ∷ xs) = x

abbrev pub last_or : ℕ → List ℕ → ℕ
last_or b [] = b
last_or b (x ∷ xs) = last_or x xs

-- The nodes `xs` lie between `b` and `a`: distinct, none of them null, each with its neighbours.
abbrev pub Seg : (next prev : ℕ → ℕ) → (b a : ℕ) → List ℕ → Type 0
Seg next prev b a [] = Unit {0}
Seg next prev b a (x ∷ xs) =
    (prev x ≡ b) × (next x ≡ first_or a xs) × (x ≢ 0) × (has x xs ≡ false) × Seg next prev x a xs

pub has-last : (x : ℕ) (xs : List ℕ) → has (last_or x xs) (x ∷ xs) ≡ true
has-last x [] = ground arith
has-last x (y ∷ xs) = ground (arith, has-last y xs)

pub has-append : (a : ℕ) (xs ys : List ℕ) → has a (xs ++ ys) ≡ (has a xs || has a ys)
has-append a [] ys = refl
has-append a (x ∷ xs) ys = rw (has-append a xs ys, or_assoc)

pub has-tail : (a x : ℕ) (xs : List ℕ) → has a xs ≡ true → has a (x ∷ xs) ≡ true
has-tail a x xs h = ground arith

pub has-first : (x : ℕ) (xs : List ℕ) → has x (x ∷ xs) ≡ true
has-first x xs = ground arith

pub has-front : (a : ℕ) (xs ys : List ℕ) → has a xs ≡ true → has a (xs ++ ys) ≡ true
has-front a xs ys h = rw (has-append a xs ys) (ground arith)

pub has-back : (a : ℕ) (xs ys : List ℕ) → has a ys ≡ true → has a (xs ++ ys) ≡ true
has-back a xs ys h = rw (has-append a xs ys) (ground arith)

abbrev pub Apart : List ℕ → List ℕ → Type 0
Apart xs ys = (x : ℕ) → has x xs ≡ true → has x ys ≡ false

-- A node outside both parts.
pub outside-append :
    (a : ℕ) (xs ys : List ℕ) → has a (xs ++ ys) ≡ false → (has a xs ≡ false) × (has a ys ≡ false)
outside-append a xs ys h = ground (arith, has-append a xs ys)

-- A list with a node that is outside `ys` in front of one that is apart from `ys`.
pub Apart-cons : (a : ℕ) (xs ys : List ℕ) → Apart xs ys → has a ys ≡ false → Apart (a ∷ xs) ys
Apart-cons a xs ys apart out x h = elim (Bool-cases (x == a)) [
  | inl e ↦ rw (eq_of_test x a e) out
  | inr e ↦ apart x (ground arith)
]

pub first-append : (a : ℕ) (xs ys : List ℕ) → first_or a (xs ++ ys) ≡ first_or (first_or a ys) xs
first-append a [] ys = refl
first-append a (x ∷ xs) ys = refl

pub last-append : (b : ℕ) (xs ys : List ℕ) → last_or b (xs ++ ys) ≡ last_or (last_or b xs) ys
last-append b [] ys = refl
last-append b (x ∷ xs) ys = last-append x xs ys

-- A node outside a run is not its last.
pub ne-last : (x y : ℕ) (xs : List ℕ) → has x (y ∷ xs) ≡ false → (x == last_or y xs) ≡ false
ne-last x y xs out = elim (Bool-cases (x == last_or y xs)) [
  | inl e ↦
      let inside = subst (λ z. has z (y ∷ xs) ≡ true) (sym (eq_of_test x _ e)) (has-last y xs) in
      absurd (clash (sym inside ∙ out))
  | inr e ↦ e
]
  where
    clash : true ≡ false → ⊥
    clash h = cc

pub ne_of_has : (x y : ℕ) (xs : List ℕ) → has x xs ≡ true → has y xs ≡ false → (x == y) ≡ false
ne_of_has x y xs h out = elim (Bool-cases (x == y)) [
  | inl e ↦
      let inside = subst (λ z. has z xs ≡ true) (eq_of_test x y e) h in
      absurd (clash (sym inside ∙ out))
  | inr e ↦ e
]
  where
    clash : true ≡ false → ⊥
    clash h = cc

pub not-last : (x : ℕ) (xs : List ℕ) → x ≢ 0 → has x xs ≡ false → (x == last_or 0 xs) ≡ false
not-last x [] ne out = ground arith
not-last x (y ∷ xs) ne out = ne-last x y xs out

pub not-first : (x : ℕ) (xs : List ℕ) → x ≢ 0 → has x xs ≡ false → (x == first_or 0 xs) ≡ false
not-first x [] ne out = ground arith
not-first x (y ∷ xs) ne out = ground arith

pub Apart-sym : (xs ys : List ℕ) → Apart xs ys → Apart ys xs
Apart-sym xs ys apart x h = elim (Bool-cases (has x xs)) [
  | inl e ↦ absurd (clash (sym h ∙ apart x e))
  | inr e ↦ e
]
  where
    clash : true ≡ false → ⊥
    clash h = cc

module _ (next prev : ℕ → ℕ) where
  -- No node is null.
  pub Seg-ne_zero : (xs : List ℕ) (b a x : ℕ) → Seg next prev b a xs → has x xs ≡ true → x ≢ 0
  Seg-ne_zero [] b a x s h = absurd (ground arith)
  Seg-ne_zero (y ∷ xs) b a x s h = elim (Bool-cases (x == y)) [
    | inl e ↦ rw (eq_of_test x y e) s.2
    | inr e ↦ Seg-ne_zero xs y a x s.4 (ground arith)
  ]

  pub Seg-append :
      (xs ys : List ℕ) (b a : ℕ)
      → Seg next prev b (first_or a ys) xs
      → Seg next prev (last_or b xs) a ys
      → Apart xs ys
      → Seg next prev b a (xs ++ ys)
  Seg-append [] ys b a s t apart = t
  Seg-append (x ∷ xs) ys b a s t apart = (
    s.0,
    rw (first-append a xs ys) s.1,
    s.2,
    rw (has-append x xs ys, s.3) (apart x (ground arith)),
    Seg-append xs ys x a s.4 t (λ z h. apart z (ground arith)),
  )

  pub Seg-front :
      (xs ys : List ℕ) (b a : ℕ) → Seg next prev b a (xs ++ ys) → Seg next prev b (first_or a ys) xs
  Seg-front [] ys b a s = tt
  Seg-front (x ∷ xs) ys b a s = (
    s.0,
    s.1 ∙ first-append a xs ys,
    s.2,
    ground (arith, s.3, has-append x xs ys),
    Seg-front xs ys x a s.4,
  )

  pub Seg-back :
      (xs ys : List ℕ) (b a : ℕ) → Seg next prev b a (xs ++ ys) → Seg next prev (last_or b xs) a ys
  Seg-back [] ys b a s = s
  Seg-back (x ∷ xs) ys b a s = Seg-back xs ys x a s.4

  pub Seg-Apart : (xs ys : List ℕ) (b a : ℕ) → Seg next prev b a (xs ++ ys) → Apart xs ys
  Seg-Apart [] ys b a s z h = absurd (ground arith)
  Seg-Apart (x ∷ xs) ys b a s z h = elim (Bool-cases (z == x)) [
    | inl e ↦ let same : z ≡ x = ground arith in rw same (ground (arith, s.3, has-append x xs ys))
    | inr e ↦ Seg-Apart xs ys x a s.4 z (ground arith)
  ]

  module _ (next' prev' : ℕ → ℕ) where
    -- A change away from the run.
    pub Seg-frame :
        (xs : List ℕ) (b a : ℕ)
        → Seg next prev b a xs
        → ((x : ℕ) → has x xs ≡ true → next' x ≡ next x)
        → ((x : ℕ) → has x xs ≡ true → prev' x ≡ prev x)
        → Seg next' prev' b a xs
    Seg-frame [] b a s n p = tt
    Seg-frame (x ∷ xs) b a s n p = (
      p x (ground arith) ∙ s.0,
      n x (ground arith) ∙ s.1,
      s.2,
      s.3,
      Seg-frame xs x a s.4 (λ z h. n z (ground arith)) (λ z h. p z (ground arith)),
    )

    -- A change of the pointer that leads out at the end.
    pub Seg-end :
        (a' : ℕ) (xs : List ℕ) (b a : ℕ)
        → Seg next prev b a xs
        → ((x : ℕ) → has x xs ≡ true → next' x ≡ (if x == last_or b xs then a' else next x))
        → ((x : ℕ) → has x xs ≡ true → prev' x ≡ prev x)
        → Seg next' prev' b a' xs
    Seg-end a' [] b a s n p = tt
    Seg-end a' (x ∷ []) b a s n p =
        (p x (ground arith) ∙ s.0, n x (ground arith) ∙ ground arith, s.2, s.3, tt)
    Seg-end a' (x ∷ (y ∷ xs)) b a s n p = (
      p x (ground arith) ∙ s.0,
      n x (ground arith) ∙ rw (ne-last x y xs s.3) s.1,
      s.2,
      s.3,
      Seg-end a' (y ∷ xs) x a s.4 (λ z h. n z (ground arith)) (λ z h. p z (ground arith)),
    )

    -- A change of the pointer that leads out at the start.
    pub Seg-start :
        (b' : ℕ) (xs : List ℕ) (b a : ℕ)
        → Seg next prev b a xs
        → ((x : ℕ) → has x xs ≡ true → next' x ≡ next x)
        → ((x : ℕ) → has x xs ≡ true → prev' x ≡ (if x == first_or 0 xs then b' else prev x))
        → Seg next' prev' b' a xs
    Seg-start b' [] b a s n p = tt
    Seg-start b' (x ∷ xs) b a s n p = (
      p x (ground arith) ∙ ground arith,
      n x (ground arith) ∙ s.1,
      s.2,
      s.3,
      Seg-frame xs x a s.4 (λ z h. n z (ground arith)) (λ z h. p z (ground arith) ∙ other z h),
    )
      where
        other : (z : ℕ) → has z xs ≡ true → (if z == x then b' else prev z) ≡ prev z
        other z h = elim (Bool-cases (z == x)) [
          | inl e ↦
              let same : z ≡ x = ground arith in
              let inside : has x xs ≡ true = rw same at h in absurd (cc (s.3, inside))
          | inr e ↦ rw e refl
        ]
