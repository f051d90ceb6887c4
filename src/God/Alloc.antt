-- ===== src/God/Alloc.antt =====
-- Allocation in the directory of prs/god.c.
use prs.Base.{
  ℕ, ◌+◌, ◌-◌, ◌%◌, ◌^◌, ◌≤◌, ◌<◌, ◌≡◌, ◌≢◌, refl, true, false, arith, update, subst, sym,
}
use prs.Base.Bits.{bit_and-low}
use prs.Base.Scan.{scan-first, scan-none}
use prs.God.{God, get_entry, can_take, publish, take_index, alloc_and_lock, find, lock, put}
use prs.God.Header.{id_word, id_invalid, reserved_header}
use prs.God.Fields.{encode, Fits, live, used_header-fields}
use prs.God.Laws.{Holds, lock-fields, lock-refused}

-- The directory has `2 ^ k` entries and the mask that goes with them.
pub record IsSized (k : ℕ) (g : God) : Type 0 where
  pub some_bits : 0 < k
  pub few_entries : 2 ^ k < 2 ^ 32
  pub entries : g.max_entries ≡ 2 ^ k
  pub mask : g.max_entries_mask ≡ 2 ^ k - 1

module _ {k : ℕ} {g : God} (sized : IsSized k g) where
  pub get_entry-mod : (id : ℕ) → get_entry g id ≡ id % 2 ^ k
  unfolding get_entry
  get_entry-mod id = rw sized.mask (bit_and-low k id)

  -- The directory after `prs_god_alloc_and_lock` has taken index `id`.
  abbrev pub taken : (id object ops : ℕ) → God
  taken id object ops = record g {
    header =
        update (update g.header (id % 2 ^ k) (reserved_header id)) (id % 2 ^ k)
          (encode (live id 1));
    object = update g.object (id % 2 ^ k) object;
    ops = update g.ops (id % 2 ^ k) ops;
    write_index = id + 1;
  }

  get_entry-taken : (i o p id : ℕ) → get_entry (taken i o p) id ≡ id % 2 ^ k
  unfolding get_entry
  get_entry-taken i o p id = get_entry-mod id

  module _ (in_range : g.write_index + 2 ^ k < 2 ^ 32) where
    end-word : id_word (g.write_index + g.max_entries) ≡ g.write_index + 2 ^ k
    end-word = omega (arith, sized.entries)

    -- `prs_god_alloc_and_lock` takes the first index from `write_index` on, of `2 ^ k`, whose entry is
    -- not reserved and has another ID than the index. It returns that index as the ID, stores the
    -- object and its operations and a header in use with one reference in the entry that its low `k`
    -- bits name, and moves `write_index` behind the index, where `write_index + 2 ^ k` does not wrap.
    pub alloc_and_lock-takes :
        (id object ops : ℕ)
        → g.write_index ≤ id
        → id < g.write_index + 2 ^ k
        → can_take g id ≡ true
        → ((m : ℕ) → g.write_index ≤ m → m < id → can_take g m ≡ false)
        → alloc_and_lock g object ops ≡ (taken id object ops, id)
    unfolding alloc_and_lock take_index publish
    alloc_and_lock-takes id object ops lo hi takes busy =
        rw
          (
            end-word,
            scan-first (can_take g) g.max_entries g.write_index (g.write_index + 2 ^ k) id
                (omega arith) (omega (arith, sized.entries)) lo hi takes busy,
            get_entry-mod,
            used_header-fields id (omega arith),
          )
          (ground arith)

  taken-reaches :
      (id object ops : ℕ)
      → id ≢ id_invalid
      → id < 2 ^ 32
      → let q = taken id object ops in
        (find q id ≡ object)
        × (lock q id ≡ (put q (id % 2 ^ k) (encode (live id 2)), object))
        × ((c : ℕ) → c ≢ id → c % 2 ^ k ≡ id % 2 ^ k → lock q c ≡ (q, 0))
  unfolding find
  taken-reaches id object ops valid fits =
      let q = taken id object ops in
      let live_fits : Fits (live id 1) = record { id_fits = fits; refcnt_fits = omega arith } in
      let at : (c : ℕ) → c % 2 ^ k ≡ id % 2 ^ k → q.header (get_entry q c) ≡ encode (live id 1) =
        λ c same. rw (get_entry-taken id object ops c, same) (ground arith) in
      let held : Holds q id (live id 1) = record {
        valid = valid;
        fits = live_fits;
        header = at id refl;
      } in
      (
        rw (get_entry-taken id object ops id) (ground arith),
        rw (lock-fields held, get_entry-taken id object ops id) (ground arith),
        λ c other same. lock-refused q c (live id 1) live_fits (ground arith) (at c same),
      )

  -- Where `write_index + 2 ^ k` does not wrap and an ID that is not zero is the first from `write_index`
  -- on whose entry can be taken: `prs_god_alloc_and_lock` returns this ID and leaves a directory in which
  -- `prs_god_find` of it returns the object, `prs_god_lock` of it returns the object and leaves two
  -- references, and the lock of any other ID that falls on the same entry returns null and changes nothing.
  pub alloc_and_lock-reaches :
      (in_range : g.write_index + 2 ^ k < 2 ^ 32)
      → (id object ops : ℕ) → id ≢ id_invalid
      → g.write_index ≤ id
      → id < g.write_index + 2 ^ k
      → can_take g id ≡ true
      → ((m : ℕ) → g.write_index ≤ m → m < id → can_take g m ≡ false)
      → let r = alloc_and_lock g object ops in
        (r.1 ≡ id)
        × (find r.0 id ≡ object)
        × (lock r.0 id ≡ (put r.0 (id % 2 ^ k) (encode (live id 2)), object))
        × ((c : ℕ) → c ≢ id → c % 2 ^ k ≡ id % 2 ^ k → lock r.0 c ≡ (r.0, 0))
  alloc_and_lock-reaches in_range id object ops valid lo hi takes busy =
      subst
        (λ (r : God × ℕ).
          (r.1 ≡ id)
          × (find r.0 id ≡ object)
          × (lock r.0 id ≡ (put r.0 (id % 2 ^ k) (encode (live id 2)), object))
          × ((c : ℕ) → c ≢ id → c % 2 ^ k ≡ id % 2 ^ k → lock r.0 c ≡ (r.0, 0)))
        (sym (alloc_and_lock-takes in_range id object ops lo hi takes busy))
        (let (finds, locks, refuses) = taken-reaches id object ops valid (omega arith) in
          (refl, finds, locks, refuses))

  -- Where `write_index + max_entries` wraps at 32 bits, the loop of `prs_god_alloc_and_lock` does not
  -- run: whatever the entries are, it returns the invalid ID and changes nothing, `write_index`
  -- included, so that no later call succeeds either.
  pub alloc_and_lock-wrapped :
      (object ops : ℕ)
      → g.write_index < 2 ^ 32
      → 2 ^ 32 ≤ g.write_index + 2 ^ k
      → alloc_and_lock g object ops ≡ (g, id_invalid)
  unfolding alloc_and_lock take_index
  alloc_and_lock-wrapped object ops fits wraps =
      let empty : (m : ℕ)
          → g.write_index ≤ m
          → m < id_word (g.write_index + g.max_entries)
          → can_take g m ≡ false =
        λ m lo hi. absurd (omega (arith, sized.entries, sized.few_entries)) in
      rw
        (scan-none (can_take g) g.max_entries g.write_index
          (id_word (g.write_index + g.max_entries)) (omega arith) empty)
        refl
