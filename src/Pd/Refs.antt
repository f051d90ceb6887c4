-- ===== src/Pd/Refs.antt =====
-- Reference counting in prs/lib/ds/pd.c.
use prs.Base.{ℕ, ◌+◌, ◌-◌, ◌^◌, ◌<◌, ◌≡◌, false, not, ◌&&◌, none, some, arith, ◌==◌, if◌then◌else◌}
use prs.Pd.{Pd, get_entry, can_take, put, lock_with, lock, unlock_with, unlock}
use prs.Pd.Count.{count, max_refcnt, is_allocatable-count, lock_next-count, unlock_next-count}

-- The entry of `id` has `r` references to ID `i`.
pub record Holds (pd : Pd) (id r i : ℕ) : Type 0 where
  pub refcnt_fits : r < 2 ^ 12
  pub id_fits : i < 2 ^ 52
  pub header : pd.header (get_entry pd id) ≡ count r i

module _ {pd : Pd} {id r i : ℕ} (holds : Holds pd id r i) where
  open holds use {refcnt_fits, id_fits, header}

  -- `prs_pd_lock` on every branch: it returns the pointer of the entry and adds one to the count
  -- exactly where the entry has this ID and a count that is neither zero nor at its maximum; else it
  -- returns null and changes nothing.
  pub lock-count : lock pd id ≡ (
      if (i == id) && not (r == 0) && not (r == max_refcnt)
      then (put pd (get_entry pd id) (count (r + 1) i), some (pd.ptr (get_entry pd id)))
      else (pd, none))
  unfolding lock lock_with
  lock-count = rw (header, lock_next-count r i refcnt_fits id_fits id) (ground (arith, id_fits))

  -- `prs_pd_unlock` on every branch: it takes one from the count where the entry has this ID and a
  -- reference, and reports whether that was the last one; else it reports false and changes nothing.
  pub unlock-count : unlock pd id ≡ (
      if (i == id) && not (r == 0)
      then (put pd (get_entry pd id) (count (r - 1) i), r == 1)
      else (pd, false))
  unfolding unlock unlock_with
  unlock-count = rw (header, unlock_next-count r i refcnt_fits id_fits id) (ground (arith, id_fits))

  pub can_take-count :
      (j : ℕ) → get_entry pd j ≡ get_entry pd id → can_take pd j ≡ ((r == 0) && not (i == j))
  unfolding can_take
  can_take-count j same = rw (same, header) (is_allocatable-count r i refcnt_fits id_fits j)
