-- ===== src/Pool/Lifecycle.antt =====
-- `prs_pool_create` and `prs_pool_destroy`.
use prs.Base.{ℕ, ◌-◌, ◌%◌, ◌^◌, ◌≤◌, ◌<◌, ◌≡◌, refl, ◌∙◌, Bool, true, false, none, some, arith, inl}
use prs.Base.Bits.{zero-bit_and}
use prs.Pool.{Pool, can_take, CreateParams, get_entry, create, destroy, lock, unlock}
use prs.Pool.Header.{alloc_mask}
use prs.Pool.Fields.{fields}
use prs.Pool.Alloc.{IsSized, get_entry-mod}
use prs.Pool.Refs.{Holds, can_take-fields, lock-refused, unlock_lem}

-- Memory: a failed `prs_pool_create` has freed all that it allocated, and of a pool that was created
-- `prs_pool_destroy` frees as many blocks as were allocated for it.
pub create-destroy :
    (params : CreateParams) (pool_memory entry_memory : Bool)
    → let (result, blocks) = create params pool_memory entry_memory in
      (result ≡ none → blocks ≡ 0) × ((p : Pool) → result ≡ some p → destroy p ≡ blocks)
unfolding create destroy
create-destroy params pool_memory entry_memory = (ground arith, λ p. ground arith)

create-fresh :
    (params : CreateParams) (pool_memory entry_memory : Bool) {p : Pool} {blocks : ℕ}
    → create params pool_memory entry_memory ≡ (some p, blocks)
    → (p.max_entries ≡ params.max_entries)
      × (p.max_entries_mask ≡ params.max_entries - 1)
      × (p.write_index ≡ 1)
      × (p.header 0 ≡ alloc_mask)
unfolding create
create-fresh params pool_memory entry_memory e =
    ground (arith, zero-bit_and (params.max_entries - 1))

-- A pool of `2 ^ k` entries never hands out its entry 0: directly after `prs_pool_create` that entry
-- has the allocation bit, so no index that falls on it can be taken, and no reference, so no lock of
-- such an ID succeeds and no unlock gives the entry back.
pub create-keeps_first :
    {k : ℕ} (params : CreateParams) (pool_memory entry_memory : Bool) {p : Pool} {blocks : ℕ}
    → 0 < k
    → k ≤ 52
    → params.max_entries ≡ 2 ^ k
    → create params pool_memory entry_memory ≡ (some p, blocks)
    → IsSized k p
      × (p.write_index ≡ 1)
      × ((i : ℕ)
          → i % 2 ^ k ≡ 0
          → (can_take p i ≡ false) × (lock p i ≡ (p, none)) × (unlock p i ≡ (p, false)))
unfolding create
create-keeps_first {k} params pool_memory entry_memory {p} lo hi size e =
    let fresh = create-fresh params pool_memory entry_memory e in
    let sized : IsSized k p = omega (arith, fresh.0, fresh.1) in
    (
      sized,
      fresh.2,
      λ i zero_entry.
          let at : get_entry p i ≡ 0 = get_entry-mod sized i ∙ zero_entry in
          let held : Holds p i (fields true 0 0) = record {
            fits = omega arith;
            header = rw at (fresh.3);
          } in
          (
            can_take-fields held i refl ∙ ground arith,
            lock-refused held (inl refl),
            unlock_lem held ∙ ground arith,
          ),
    )
