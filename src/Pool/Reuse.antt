-- ===== src/Pool/Reuse.antt =====
-- What prs/lib/ds/pool.c promises across allocations: `prs_pool_alloc_and_lock`, stale IDs, and the
-- destructor of an entry.
use prs.Base.{
  ℕ, ◌+◌, ◌%◌, ◌^◌, ◌≤◌, ◌<◌, ◌≡◌, ◌≢◌, refl, ◌∙◌, ap, sym, true, false, Option, none, some, List,
  subst, arith, update, take, inl, inr, bit_and,
}
use prs.Base.Bits.{bit_and-low}
use prs.Pool.{
  Pool, can_take, get_entry, put, lock_first, alloc_and_lock, fill, lock, finish, unlock_dest,
}
use prs.Pool.Header.{id_mask, unlock_next}
use prs.Pool.Fields.{fields, encode, Fits, lock_first_next-fields, unlock_next-fields}
use prs.Pool.Alloc.{IsSized, get_entry-mod, alloc-first}
use prs.Pool.Refs.{Holds, Holds-put, lock-taken, lock-refused}

lock_first_lem :
    {p : Pool} {id : ℕ}
    → Holds p id (fields true 0 id)
    → lock_first p id ≡ put p (get_entry p id) (encode (fields true 1 id))
unfolding lock_first
lock_first_lem {p} {id} holds =
    rw (lock_first, holds.header, lock_first_next-fields (fields true 0 id) holds.fits id)
      (ground arith)

-- The pool after `prs_pool_alloc_and_lock` has taken index `id`.
abbrev pub locked : ℕ → Pool → ℕ → List ℕ → Pool
locked k p id bytes = record p {
  header =
      update (update p.header (id % 2 ^ k) (encode (fields true 0 id))) (id % 2 ^ k)
        (encode (fields true 1 id));
  bytes = update p.bytes (id % 2 ^ k) (take p.data_size bytes);
  write_index = id + 1;
}

module _ {k : ℕ} {p : Pool} (sized : IsSized k p) (small : p.write_index + 2 ^ k < 2 ^ 52) where
  get_entry-sized :
      (q : Pool) → q.max_entries_mask ≡ p.max_entries_mask → (id : ℕ) → get_entry q id ≡ id % 2 ^ k
  unfolding get_entry
  get_entry-sized q same id = rw (same) (get_entry-mod sized id)

  -- `prs_pool_alloc_and_lock` takes the first index from `write_index` on, of `2 ^ k`, that can be
  -- taken, copies `data_size` bytes into its entry and leaves the entry with one reference.
  pub alloc_and_lock-first :
      (id : ℕ) (bytes : List ℕ)
      → p.write_index ≤ id
      → id < p.write_index + 2 ^ k
      → can_take p id ≡ true
      → ((m : ℕ) → p.write_index ≤ m → m < id → can_take p m ≡ false)
      → alloc_and_lock p bytes ≡ (locked k p id bytes, some (id % 2 ^ k), id)
  unfolding alloc_and_lock
  alloc_and_lock-first id bytes lo hi takes busy =
      let q : Pool = record p {
        header = update p.header (id % 2 ^ k) (encode (fields true 0 (id % 2 ^ 52)));
        bytes = update p.bytes (id % 2 ^ k) (take p.data_size bytes);
        write_index = id + 1;
      } in
      let low : id % 2 ^ 52 ≡ id = omega arith in
      let at : get_entry q id ≡ id % 2 ^ k = get_entry-sized q refl id in
      let held : Holds q id (fields true 0 id) = record {
        fits = record { refcnt_fits = omega arith; id_fits = omega arith };
        header = rw (at, low) (ground arith);
      } in
      ap (fill bytes) (alloc-first sized (omega arith) id lo hi takes busy)
      ∙ rw (lock_first_lem held, at, low) refl

  locked-stale :
      (id old : ℕ) (bytes : List ℕ)
      → id < p.write_index + 2 ^ k
      → old % 2 ^ k ≡ id % 2 ^ k
      → old ≢ id
      → let q = locked k p id bytes in
        (lock q old ≡ (q, none))
        × (lock q id ≡ (put q (id % 2 ^ k) (encode (fields true 2 id)), some (id % 2 ^ k)))
  locked-stale id old bytes hi same ne =
      let q = locked k p id bytes in
      let at = get_entry-sized q refl id in
      let at_old = get_entry-sized q refl old in
      let fits : Fits (fields true 1 id) = record {
        refcnt_fits = omega arith;
        id_fits = omega arith;
      } in
      let held : Holds q id (fields true 1 id) = record {
        fits = fits;
        header = rw at (ground arith);
      } in
      let held_old : Holds q old (fields true 1 id) = record {
        fits = fits;
        header = rw (at_old, same) (ground arith);
      } in
      (
        lock-refused held_old (inr (λ e. ne (sym e))),
        lock-taken held refl refl (omega arith) (omega arith) ∙ rw at refl,
      )

  -- Where an index is the first from `write_index` on, of `2 ^ k`, whose entry can be taken:
  -- `prs_pool_alloc_and_lock` returns its entry and the index as the ID. In the pool it leaves, a lock by
  -- any other ID that falls on the entry, such as that of an earlier allocation of it, is refused and
  -- changes nothing, while a lock by the new ID takes a second reference.
  pub stale-lock :
      (id old : ℕ) (bytes : List ℕ)
      → p.write_index ≤ id
      → id < p.write_index + 2 ^ k
      → can_take p id ≡ true
      → ((m : ℕ) → p.write_index ≤ m → m < id → can_take p m ≡ false)
      → old % 2 ^ k ≡ id % 2 ^ k
      → old ≢ id
      → let r = alloc_and_lock p bytes in
        (r.1 ≡ some (id % 2 ^ k))
        × (r.2 ≡ id)
        × (lock r.0 old ≡ (r.0, none))
        × (lock r.0 id ≡ (put r.0 (id % 2 ^ k) (encode (fields true 2 id)), some (id % 2 ^ k)))
  stale-lock id old bytes lo hi takes busy same ne =
      subst
        (λ (r : Pool × Option ℕ × ℕ).
          (r.1 ≡ some (id % 2 ^ k))
          × (r.2 ≡ id)
          × (lock r.0 old ≡ (r.0, none))
          × (lock r.0 id ≡ (put r.0 (id % 2 ^ k) (encode (fields true 2 id)), some (id % 2 ^ k))))
        (sym (alloc_and_lock-first id bytes lo hi takes busy))
        (let (refused, locks) = locked-stale id old bytes hi same ne in
          (refl, refl, refused, locks))

finish_same :
    (r : Pool) (e stored : ℕ)
    → r.header e ≡ stored
    → finish r e stored ≡ (put r e (bit_and stored id_mask), true)
unfolding finish
finish_same r e stored same = ground arith

finish_other : (r : Pool) (e stored : ℕ) → r.header e ≢ stored → finish r e stored ≡ (r, false)
unfolding finish
finish_other r e stored other = ground arith

-- When the last reference is dropped with a destructor, the destructor runs on a pool in which the
-- entry is still allocated and cannot be locked. If it leaves the header of the entry alone, the
-- entry is given back behind it and reported freed; if not, the header stays as it is left and the
-- entry is not reported freed.
pub unlock_dest-last :
    {p : Pool} {id : ℕ} (destructor : Pool → ℕ → Pool)
    → Holds p id (fields true 1 id)
    → let e = get_entry p id in
      let q = put p e (encode (fields true 0 id)) in
      let r = destructor q e in
      (lock q id ≡ (q, none))
      × (r.header e ≡ q.header e → unlock_dest p id destructor ≡ (put r e id, true))
      × (r.header e ≢ q.header e → unlock_dest p id destructor ≡ (r, false))
unfolding unlock_dest
unlock_dest-last {p} {id} destructor holds =
    let e = get_entry p id in
    let h = encode (fields true 0 id) in
    let q : Pool = put p e h in
    let now =
      Holds-put p id {f = fields true 0 id}
        (record { refcnt_fits = omega arith; id_fits = holds.fits.id_fits }) in
    let next : unlock_next id false true (encode (fields true 1 id)) ≡ some (true, h) =
      unlock_next-fields (fields true 1 id) holds.fits id false true ∙ ground arith in
    let low : bit_and h id_mask ≡ id = omega (arith, bit_and-low 52 h, holds.fits.id_fits) in
    (
      lock-refused now (inl refl),
      λ same.
          rw (holds.header, next)
            (ground (
              arith,
              finish_same (destructor q e) e h (same ∙ ground arith),
              low,
              holds.fits.id_fits,
            )),
      λ other.
          rw (holds.header, next)
            (ground (
              arith,
              finish_other (destructor q e) e h (λ w. other (w ∙ ground arith)),
              holds.fits.id_fits,
            )),
    )
