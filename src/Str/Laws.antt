-- ===== src/Str/Laws.antt =====
-- What prs/lib/str.c writes into a buffer.
use prs.Base.{
  ℕ, zero, suc, ◌+◌, ◌-◌, ◌≤◌, ◌<◌, ◌≡◌, ◌≢◌, refl, ◌∙◌, sym, subst, Bool-cases, inl, inr, true,
  false, some, List, [], ◌∷◌, arith, ltb, ◌==◌, length, take, get_elem?, update,
}
use prs.Str.{copy_loop, terminate, append}

-- The bytes of `src` that fit stand from `offset` on, and nothing else has changed.
abbrev pub Copied : (dst : ℕ → ℕ) → List ℕ → (offset max : ℕ) → (ℕ → ℕ) × ℕ → Type 0
Copied dst src offset max p =
    (p.1 ≡ offset + length (take (max - offset) src))
    × ((i : ℕ) → i < offset → p.0 i ≡ dst i)
    × ((i : ℕ) → p.1 ≤ i → p.0 i ≡ dst i)
    × ((i : ℕ) → offset ≤ i → i < p.1 → get_elem? src (i - offset) ≡ some (p.0 i))

copy_loop-nil :
    (dst : ℕ → ℕ) (pos max : ℕ) → ◌≡◌ {A = (ℕ → ℕ) × ℕ} (copy_loop dst [] pos max) (dst, pos)
unfolding copy_loop
copy_loop-nil dst pos max = refl

copy_loop-full :
    (dst : ℕ → ℕ) (src : List ℕ) (pos max : ℕ)
    → ltb pos max ≡ false
    → ◌≡◌ {A = (ℕ → ℕ) × ℕ} (copy_loop dst src pos max) (dst, pos)
unfolding copy_loop
copy_loop-full dst [] pos max h = refl
copy_loop-full dst (c ∷ cs) pos max h = rw h refl

copy_loop-next :
    (dst : ℕ → ℕ) (c : ℕ) (cs : List ℕ) (pos max : ℕ)
    → ltb pos max ≡ true
    → copy_loop dst (c ∷ cs) pos max ≡ copy_loop (update dst pos c) cs (pos + 1) max
unfolding copy_loop
copy_loop-next dst c cs pos max h = rw h refl

take-room :
    (c : ℕ) (cs : List ℕ) (pos max : ℕ)
    → pos < max
    → length (take (max - pos) (c ∷ cs)) ≡ 1 + length (take (max - (pos + 1)) cs)
take-room c cs pos max h =
    let room : max - pos ≡ suc (max - (pos + 1)) = omega (arith, h) in rw room (omega arith)

take-none : (src : List ℕ) (n : ℕ) → n ≡ 0 → length (take n src) ≡ 0
take-none src n h = rw h refl

one-Copied :
    (dst : ℕ → ℕ) (c : ℕ) (cs : List ℕ) (pos max : ℕ) (p : (ℕ → ℕ) × ℕ)
    → pos < max
    → Copied (update dst pos c) cs (pos + 1) max p
    → Copied dst (c ∷ cs) pos max p
one-Copied dst c cs pos max (r, end) h (count, before, behind, middle) = (
  omega (arith, count, take-room c cs pos max h),
  (λ i lo. before i (omega (arith, lo)) ∙ ground arith),
  (λ i hi. behind i hi ∙ away i hi),
  (λ i lo hi. elim (Bool-cases (i == pos)) [ inl e ↦ first i e | inr e ↦ rest i lo hi e ]),
)
  where
    more : pos < end
    more = omega (arith, count)

    away : (i : ℕ) → end ≤ i → update dst pos c i ≡ dst i
    away i hi = let ne : (i == pos) ≡ false = ground (arith, more, hi) in rw ne refl

    first : (i : ℕ) → (i == pos) ≡ true → get_elem? (c ∷ cs) (i - pos) ≡ some (r i)
    first i e =
        let here : r i ≡ c = before i (ground arith) ∙ rw e refl in
        let start : i - pos ≡ 0 = ground arith in rw (start, here) refl

    rest :
        (i : ℕ) → pos ≤ i → i < end → (i == pos) ≡ false → get_elem? (c ∷ cs) (i - pos) ≡ some (r i)
    rest i lo hi e =
        let next : i - pos ≡ suc (i - (pos + 1)) = ground (arith, lo) in
        rw next (middle i (ground (arith, lo)) hi)

copy_loop-Copied :
    (src : List ℕ) (dst : ℕ → ℕ) (pos max : ℕ)
    → pos ≤ max
    → Copied dst src pos max (copy_loop dst src pos max)
copy_loop-Copied [] dst pos max le =
    subst (Copied dst [] pos max) (sym (copy_loop-nil dst pos max)) (nothing pos max)
  where
    none_taken : (n : ℕ) → length (take {A = ℕ} n []) ≡ 0
    none_taken zero = refl
    none_taken (suc n) = refl

    nothing : (pos max : ℕ) → Copied dst [] pos max (dst, pos)
    nothing pos max = (
      omega (arith, none_taken (max - pos)),
      (λ i h. refl),
      (λ i h. refl),
      (λ i a b. absurd (omega (arith, a, b))),
    )
copy_loop-Copied (c ∷ cs) dst pos max le = elim (Bool-cases (ltb pos max)) [
  | inl h ↦ subst (Copied dst (c ∷ cs) pos max) (sym (copy_loop-next dst c cs pos max h)) (
      one-Copied dst c cs pos max _ (ground arith)
        (copy_loop-Copied cs (update dst pos c) (pos + 1) max (ground arith)))
  | inr h ↦ subst (Copied dst (c ∷ cs) pos max) (sym (copy_loop-full dst (c ∷ cs) pos max h)) (
    omega (arith, take-none (c ∷ cs) (max - pos) (ground arith)),
    (λ i h. refl),
    (λ i h. refl),
    (λ i a b. absurd (omega (arith, a, b))),
  )
]

take_all : (src : List ℕ) (n : ℕ) → n ≤ length src → length (take n src) ≡ n
take_all src zero h = refl
take_all [] (suc n) h = absurd (omega arith)
take_all (c ∷ cs) (suc n) h = omega (arith, take_all cs n (omega arith))

-- A buffer that a string was appended to.
abbrev pub Appended : (dst : ℕ → ℕ) → List ℕ → (offset max : ℕ) → (ℕ → ℕ) × ℕ → Type 0
Appended dst src offset max (r, pos) =
    (pos ≡ offset + length (take (max - offset) src))
    × (r pos ≡ 0)
    × ((i : ℕ) → i < offset → r i ≡ dst i)
    × ((i : ℕ) → pos < i → r i ≡ dst i)
    × ((i : ℕ) → offset ≤ i → i < pos → get_elem? src (i - offset) ≡ some (r i))
    × (max - offset ≤ length src → pos ≡ max)

terminate-Appended :
    (dst : ℕ → ℕ) (src : List ℕ) (offset max : ℕ) (p : (ℕ → ℕ) × ℕ)
    → offset ≤ max
    → Copied dst src offset max p
    → Appended dst src offset max (terminate p)
unfolding terminate
terminate-Appended dst src offset max (r, pos) le (count, before, behind, middle) = (
  count,
  ground arith,
  (λ i lo. rw (other i (omega (arith, lo, count))) (before i lo)),
  (λ i hi. rw (other i (omega (arith, hi))) (behind i (omega (arith, hi)))),
  (λ i lo hi. rw (other i (omega (arith, hi))) (middle i lo hi)),
  (λ full. omega (arith, count, take_all src (max - offset) full, le)),
)
  where
    other : (i : ℕ) → i ≢ pos → (i == pos) ≡ false
    other i ne = ground arith

-- `prs_str_append` copies the characters of the source that fit between the offset and `max`, writes
-- the terminator behind them, returns its index, and changes no other byte. Where the source fills
-- the buffer, the terminator is the byte at `max`, one behind the buffer.
pub append-Appended :
    (dst : ℕ → ℕ) (src : List ℕ) (offset max : ℕ)
    → offset ≤ max
    → Appended dst src offset max (append dst src offset max)
unfolding append
append-Appended dst src offset max le =
    terminate-Appended dst src offset max _ le (copy_loop-Copied src dst offset max le)
