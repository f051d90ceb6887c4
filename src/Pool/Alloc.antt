-- ===== src/Pool/Alloc.antt =====
-- Allocation in prs/lib/ds/pool.c: which index is taken, and what it changes.
use prs.Base.{ℕ, ◌+◌, ◌-◌, ◌%◌, ◌^◌, ◌≤◌, ◌<◌, ◌≡◌, true, false, none, some, arith, word, update}
use prs.Base.Bits.{bit_and-low}
use prs.Base.Scan.{scan-first, scan-none}
use prs.Pool.{Pool, get_entry, can_take, alloc, take_index}
use prs.Pool.Header.{id_invalid}
use prs.Pool.Fields.{fields, encode, alloc_header-fields}

-- The pool has `2 ^ k` entries, more than one, and the mask that goes with them.
pub record IsSized (k : ℕ) (p : Pool) : Type 0 where
  pub some_bits : 0 < k
  pub few_bits : k ≤ 52
  pub entries : p.max_entries ≡ 2 ^ k
  pub mask : p.max_entries_mask ≡ 2 ^ k - 1

module _ {k : ℕ} {p : Pool} (sized : IsSized k p) where
  pub get_entry-mod : (id : ℕ) → get_entry p id ≡ id % 2 ^ k
  unfolding get_entry
  get_entry-mod id = rw sized.mask (bit_and-low k id)

module _ {k : ℕ} {p : Pool} (sized : IsSized k p) (small : p.write_index + 2 ^ k < 2 ^ 64) where
  end-word : word (p.write_index + p.max_entries) ≡ p.write_index + 2 ^ k
  end-word = omega (arith, sized.entries)

  -- `prs_pool_alloc` takes the first index from `write_index` on, of `2 ^ k`, whose entry has no
  -- allocation bit and another ID than the index. It returns that index as the ID and its low `k`
  -- bits as the entry, stores a header with the allocation bit, no reference and the low 52 bits of
  -- the ID, moves `write_index` behind the index, and changes nothing else.
  pub alloc-first :
      (id : ℕ)
      → p.write_index ≤ id
      → id < p.write_index + 2 ^ k
      → can_take p id ≡ true
      → ((m : ℕ) → p.write_index ≤ m → m < id → can_take p m ≡ false)
      → alloc p ≡ (
        record p {
          header = update p.header (id % 2 ^ k) (encode (fields true 0 (id % 2 ^ 52)));
          write_index = id + 1;
        },
        some (id % 2 ^ k),
        id,
      )
  unfolding alloc take_index
  alloc-first id lo hi free busy =
      rw
        (
          end-word,
          scan-first (can_take p) p.max_entries p.write_index (p.write_index + 2 ^ k) id small
              (omega (arith, sized.entries)) lo hi free busy,
          get_entry-mod sized,
          alloc_header-fields,
        )
        (ground arith)

  -- Where no index of that range can be taken, `prs_pool_alloc` returns null and the invalid ID,
  -- and changes nothing.
  pub alloc-full :
      ((m : ℕ) → p.write_index ≤ m → m < p.write_index + 2 ^ k → can_take p m ≡ false)
      → alloc p ≡ (p, none, id_invalid)
  unfolding alloc take_index
  alloc-full busy = rw (end-word, scan-none (can_take p) p.max_entries p.write_index _ small busy)
