-- ===== src/Pd/Alloc.antt =====
-- Allocation in prs/lib/ds/pd.c, and how much a directory holds.
use prs.Base.{ℕ, ◌+◌, ◌-◌, ◌%◌, ◌^◌, ◌≤◌, ◌<◌, ◌≡◌, true, false, arith, word, update}
use prs.Base.Result.{ok, out_of_memory}
use prs.Base.Bits.{bit_and-low}
use prs.Base.Scan.{scan-first, scan-none}
use prs.Pd.{Pd, get_entry, can_take, take_index, alloc_and_lock, id_invalid}
use prs.Pd.Count.{count, alloc_header-count}

-- The directory has `2 ^ k` entries, more than one, and the mask that goes with them.
pub record IsSized (k : ℕ) (pd : Pd) : Type 0 where
  pub some_bits : 0 < k
  pub few_entries : 2 ^ k ≤ 2 ^ 48
  pub entries : pd.max_entries ≡ 2 ^ k
  pub mask : pd.max_entries_mask ≡ 2 ^ k - 1

module _ {k : ℕ} {pd : Pd} (sized : IsSized k pd) where
  pub get_entry-mod : (id : ℕ) → get_entry pd id ≡ id % 2 ^ k
  unfolding get_entry
  get_entry-mod id = rw sized.mask (bit_and-low k id)

  -- What `prs_pd_alloc_and_lock` makes of the directory when it takes index `id`.
  abbrev pub taken : ℕ → ℕ → Pd
  taken id ptr = record pd {
    header = update pd.header (id % 2 ^ k) (count 1 (id % 2 ^ 52));
    ptr = update pd.ptr (id % 2 ^ k) ptr;
    write_index = id + 1;
  }

  module _ (small : pd.write_index + 2 ^ k < 2 ^ 64) where
    end-word : word (pd.write_index + pd.max_entries) ≡ pd.write_index + 2 ^ k
    end-word = omega (arith, sized.entries)

    -- `prs_pd_alloc_and_lock` takes the first index from `write_index` on, of `2 ^ k`, whose entry
    -- has no reference and another ID than the index. It returns that index as the ID, stores the
    -- pointer and a header with one reference in the entry that its low `k` bits name, moves
    -- `write_index` behind the index, and changes nothing else.
    pub alloc_and_lock-takes :
        (id ptr : ℕ)
        → pd.write_index ≤ id
        → id < pd.write_index + 2 ^ k
        → can_take pd id ≡ true
        → ((m : ℕ) → pd.write_index ≤ m → m < id → can_take pd m ≡ false)
        → alloc_and_lock pd ptr ≡ (taken id ptr, ok, id)
    unfolding alloc_and_lock take_index
    alloc_and_lock-takes id ptr lo hi takes busy =
        rw
          (
            end-word,
            scan-first (can_take pd) pd.max_entries pd.write_index (pd.write_index + 2 ^ k) id small
                (omega (arith, sized.entries)) lo hi takes busy,
            get_entry-mod,
            alloc_header-count,
          )
          (ground arith)

    -- Where no index of that range can be taken, it returns `PRS_OUT_OF_MEMORY` and the invalid ID,
    -- and changes nothing.
    pub alloc_and_lock-full :
        (ptr : ℕ)
        → ((m : ℕ) → pd.write_index ≤ m → m < pd.write_index + 2 ^ k → can_take pd m ≡ false)
        → alloc_and_lock pd ptr ≡ (pd, out_of_memory, id_invalid)
    unfolding alloc_and_lock take_index
    alloc_and_lock-full ptr busy =
        rw (end-word, scan-none (can_take pd) pd.max_entries pd.write_index _ small busy)
