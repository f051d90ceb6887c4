-- ===== src/Pd/Capacity.antt =====
-- A directory that prs/lib/ds/pd.c has just created takes as many pointers as it has entries.
use native.Mathlib.Nat.{mod-eq_of_lt, mod_self, one-le-pow}
use prs.Base.{
  ℕ, zero, suc, ◌+◌, ◌%◌, ◌^◌, ◌≤◌, ◌<◌, ◌≡◌, refl, ◌∙◌, Bool, true, false, some, arith, ◌==◌, leb,
  if◌then◌else◌, Bool-cases, inl, inr,
}
use prs.Base.Result.{ok, out_of_memory}
use prs.Pd.{Pd, CreateParams, get_entry, can_take, alloc_and_lock, id_invalid, init, lock}
use prs.Pd.Count.{count, is_allocatable-count}
use prs.Pd.Alloc.{IsSized, get_entry-mod, taken, alloc_and_lock-takes, alloc_and_lock-full}
use prs.Pd.Refs.{Holds, lock-count}

-- Allocates `n` times: the pointer `ptr i` in the `i`th call, from 1.
pub fill : ℕ → (ℕ → ℕ) → Pd → Pd
fill zero ptr pd = pd
fill (suc n) ptr pd = (alloc_and_lock (fill n ptr pd) (ptr (suc n))).0

-- The header of entry `j` after `n` calls.
abbrev slot : ℕ → ℕ → ℕ → ℕ
slot size n j =
    if j == 0 then (if n == size then count 1 size else 0) else (if leb j n then count 1 j else 0)

record Filled (k n : ℕ) (ptr : ℕ → ℕ) (pd : Pd) : Type 0 where
  sized : IsSized k pd
  index : pd.write_index ≡ n + 1
  header : (j : ℕ) → j < 2 ^ k → pd.header j ≡ slot (2 ^ k) n j
  pointer : (i : ℕ) → 0 < i → i ≤ n → pd.ptr (i % 2 ^ k) ≡ ptr i

-- The entry of an ID from 1 to the size.
mod_small : (size i : ℕ) → i ≤ size → 0 < i → i % size ≡ (if i == size then 0 else i)
mod_small size i h p = elim (Bool-cases (i == size)) [
  | inl e ↦ let same : i ≡ size = ground arith in rw (e, same) (mod_self size)
  | inr e ↦ ground (arith, mod-eq_of_lt {n = i} {m = size} (ground arith))
]

module _ {k n : ℕ} {ptr : ℕ → ℕ} {pd : Pd} (f : Filled k n ptr pd) where
  size_small : 2 ^ k ≤ 2 ^ 48
  size_small = f.sized.few_entries

  header-at : (i : ℕ) → pd.header (get_entry pd i) ≡ slot (2 ^ k) n (i % 2 ^ k)
  header-at i = rw (get_entry-mod f.sized) (f.header (i % 2 ^ k) (omega (arith, one-le-pow k 2)))

  next-can_take : n < 2 ^ k → can_take pd (suc n) ≡ true
  unfolding can_take
  next-can_take h =
      rw (header-at, mod_small (2 ^ k) (suc n) h (omega arith))
        (ground (arith, is_allocatable-count 0 0 (omega arith) (omega arith) (suc n)))

  step-ok :
      n < 2 ^ k → alloc_and_lock pd (ptr (suc n)) ≡ (taken f.sized (suc n) (ptr (suc n)), ok, suc n)
  step-ok h =
      alloc_and_lock-takes f.sized (omega (arith, f.index, size_small)) (suc n) (ptr (suc n))
        (omega (arith, f.index)) (omega (arith, f.index)) (next-can_take h)
        (λ m lo hi. absurd (omega (arith, f.index)))

  step-Filled : n < 2 ^ k → Filled k (suc n) ptr (taken f.sized (suc n) (ptr (suc n)))
  step-Filled h = record {
    sized = omega (arith, f.sized);
    index = refl;
    header = λ j lt. ground (
      arith,
      f.header j lt,
      mod_small (2 ^ k) (suc n) h (omega arith),
      size_small,
      mod-eq_of_lt {n = suc n} {m = 2 ^ 52} (omega (arith, size_small)),
    );
    pointer = λ i lo hi. elim (Bool-cases (i == suc n)) [
      | inl e ↦ let same : i ≡ suc n = ground arith in rw same (ground arith)
      | inr e ↦ ground (
        arith,
        f.pointer i lo (ground arith),
        mod_small (2 ^ k) (suc n) h (omega arith),
        mod_small (2 ^ k) i (omega arith) lo,
      )
    ];
  }

  full-busy : n ≡ 2 ^ k → (m : ℕ) → n + 1 ≤ m → m < n + 1 + 2 ^ k → can_take pd m ≡ false
  unfolding can_take
  full-busy e m lo hi = rw header-at (
      ground (
        arith,
        is_allocatable-count 1 (2 ^ k) (omega arith) (omega (arith, size_small)) m,
        is_allocatable-count 1 (m % 2 ^ k) (omega arith) (omega (arith, size_small, one-le-pow k 2))
            m,
      ))

  locks : (i : ℕ) → 0 < i → i ≤ n → n ≤ 2 ^ k → (lock pd i).1 ≡ some (ptr i)
  locks i lo hi h =
      let held : Holds pd i 1 i = record {
        refcnt_fits = omega arith;
        id_fits = omega (arith, size_small);
        header = header-at i ∙ ground (arith, mod_small (2 ^ k) i (omega arith) lo);
      } in
      rw (lock-count held) (ground (arith, get_entry-mod f.sized i, f.pointer i lo hi))

module _ (k : ℕ) (ptr : ℕ → ℕ) (area : Bool) (params : CreateParams) where
  -- The directory that `prs_pd_create` sets up in zeroed memory.
  abbrev pub created : Pd
  created = init params area (λ _. 0) (λ _. 0)

  created-Filled : 0 < k → 2 ^ k ≤ 2 ^ 48 → params.max_entries ≡ 2 ^ k → Filled k 0 ptr created
  unfolding init
  created-Filled lo few size = record {
    sized = record { some_bits = lo; few_entries = few; entries = size; mask = rw size };
    index = refl;
    header = λ j lt. ground (arith, one-le-pow k 2);
    pointer = λ i a b. absurd (omega arith);
  }

  fill-Filled :
      (n : ℕ)
      → 0 < k
      → 2 ^ k ≤ 2 ^ 48
      → params.max_entries ≡ 2 ^ k
      → n ≤ 2 ^ k
      → Filled k n ptr (fill n ptr created)
  unfolding fill
  fill-Filled zero lo few size h = created-Filled lo few size
  fill-Filled (suc n) lo few size h =
      let before = fill-Filled n lo few size (omega arith) in
      rw (fill, step-ok before h) (step-Filled before h)

  -- A directory of `2 ^ k` entries in zeroed memory takes `2 ^ k` pointers: the allocation that
  -- follows `n` others succeeds with ID `n + 1` if `n` is less than `2 ^ k`; the one that follows
  -- `2 ^ k` others returns `PRS_OUT_OF_MEMORY` and changes nothing. After `n` allocations a lock by
  -- the ID of any of them returns the pointer that was given for it.
  pub fill-capacity :
      (n : ℕ)
      → 0 < k
      → 2 ^ k ≤ 2 ^ 48
      → params.max_entries ≡ 2 ^ k
      → n ≤ 2 ^ k
      → let pd = fill n ptr created in
        (n < 2 ^ k
          → ((alloc_and_lock pd (ptr (suc n))).1 ≡ ok)
            × ((alloc_and_lock pd (ptr (suc n))).2 ≡ suc n))
        × (n ≡ 2 ^ k → (q : ℕ) → alloc_and_lock pd q ≡ (pd, out_of_memory, id_invalid))
        × ((i : ℕ) → 0 < i → i ≤ n → (lock pd i).1 ≡ some (ptr i))
  fill-capacity n lo few size h =
      let f = fill-Filled n lo few size h in
      (
        (λ lt. rw (step-ok f lt) (refl, refl)),
        (λ full q.
            alloc_and_lock-full f.sized (omega (arith, f.index, size_small f)) q
              (λ m a b. full-busy f full m (omega (arith, f.index)) (omega (arith, f.index)))),
        λ i a b. locks f i a b h,
      )
