-- ===== src/God/Drain.antt =====
-- How an entry of prs/god.c in use becomes free, by the steps of God.Steps.
use prs.Base.{◌≡◌, refl, ◌+◌, ℕ, zero, suc, ◌^◌, ◌<◌, ◌∙◌, ap, subst, false, arith}
use prs.God.Header.{unlock_next}
use prs.God.Fields.{Fields, fields, encode, live, dying, unlock_next-fields, clear-fields}
use prs.God.Steps.{
  idle, in_use, freeing, State, state, left, called, Step, unlocks, frees, Steps, stay, step, start,
}
use prs.God.Protocol.{left-last, left-more, Counted, Counted-Fits, step-Counted, reached-Counted}

prepend : {s t u : State} → Step s t → Steps t u → Steps s u
prepend first stay = step stay first
prepend first (step run last) = step (prepend first run) last

-- The entry behind `free`.
abbrev pub gone : ℕ → State
gone i = state (encode (fields i false false false 0)) idle i 0 1

-- The unlock of one of the references, in use.
abbrev left_fields : (i r : ℕ) → Fields
left_fields i zero = dying i
left_fields i (suc r) = live i (suc r)

unlock_step :
    {h i r n : ℕ}
    → Counted (state h in_use i (suc r) n)
    → Step (state h in_use i (suc r) n) (
        state
          (encode (left_fields i r))
          (left (encode (left_fields i r)))
          i
          r
          (called (encode (left_fields i r)) n))
unlock_step {h} {i} {r = zero} c =
    unlocks (
      ap (unlock_next i) c.header ∙ unlock_next-fields (live i 1) (Counted-Fits c) i ∙ ground arith)
unlock_step {h} {i} {r = suc r} c = unlocks (
    ap (unlock_next i) c.header
    ∙ unlock_next-fields (live i (suc (suc r))) (Counted-Fits c) i
    ∙ ground arith)

unlock_last :
    {h i n : ℕ}
    → Counted (state h in_use i 1 n)
    → Step (state h in_use i 1 n) (state (encode (dying i)) freeing i 0 1)
unlock_last {h} {i} {n} c =
    let (phase, calls) = left-last (encode (dying i)) i n c.id_fits refl in
    let once : n + 1 ≡ 1 = omega (arith, c.agrees) in
    subst (λ m. Step (state h in_use i 1 n) (state (encode (dying i)) freeing i 0 m)) (calls ∙ once)
      (subst
        (λ p.
          Step (state h in_use i 1 n)
            (state (encode (dying i)) p i 0 (called (encode (dying i)) n)))
        phase (unlock_step c))

unlock_more :
    {h i r n : ℕ}
    → Counted (state h in_use i (suc (suc r)) n)
    → Step (state h in_use i (suc (suc r)) n) (state (encode (live i (suc r))) in_use i (suc r) 0)
unlock_more {h} {i} {r} {n} c =
    let g = encode (live i (suc r)) in
    let (phase, calls) = left-more g i r n c.id_fits (omega (arith, c.agrees)) refl in
    let none_called : n ≡ 0 = c.agrees.2 in
    subst (λ m. Step (state h in_use i (suc (suc r)) n) (state g in_use i (suc r) m))
      (calls ∙ none_called)
      (subst (λ p. Step (state h in_use i (suc (suc r)) n) (state g p i (suc r) (called g n))) phase
        (unlock_step c))

free_step : (i : ℕ) → i < 2 ^ 32 → Step (state (encode (dying i)) freeing i 0 1) (gone i)
free_step i lt =
    subst (λ h. Step (state (encode (dying i)) freeing i 0 1) (state h idle i 0 1))
      (clear-fields (dying i) (record { id_fits = lt; refcnt_fits = omega arith })) frees

drain :
    (r h i n : ℕ)
    → Counted (state h in_use i (suc r) n)
    → Steps (state h in_use i (suc r) n) (gone i)
drain zero h i n c = step (step stay (unlock_last c)) (free_step i c.id_fits)
drain (suc r) h i n c =
    let first = unlock_more c in prepend first (drain r _ i 0 (step-Counted c first))

-- From every state that is reached with the entry in use, the unlocks of the references that are held
-- lead to one call of `free` and to an entry that is free under its ID.
pub in_use-drains :
    {h i r n : ℕ} → Steps start (state h in_use i r n) → Steps (state h in_use i r n) (gone i)
in_use-drains {h} {i} {r = zero} run = absurd (omega (arith, (reached-Counted run).agrees))
in_use-drains {h} {i} {r = suc r} run = drain r h i _ (reached-Counted run)
