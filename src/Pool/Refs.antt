-- ===== src/Pool/Refs.antt =====
-- Reference counting in prs/lib/ds/pool.c: an entry is given back by the unlock that drops the last
-- reference, and no ID of an earlier allocation reaches it again.
use mathlib.Core.Path.{fun_ext}
use prs.Base.{
  ℕ, ◌+◌, ◌<◌, ◌≡◌, ◌≢◌, refl, ◌∙◌, sym, Bool, true, false, not, ◌&&◌, Option, none, some, arith,
  ◌==◌, update, inl, ◌⊎◌,
}
use prs.Pool.{Pool, can_take, get_entry, put, lock, unlock_internal, unlock, try_unlock_final}
use prs.Pool.Fields.{
  Fields, fields, encode, Fits, max_refcnt, lock_fields, unlock_fields, is_allocatable-fields,
  lock_next-fields, unlock_next-fields,
}

-- The entry of `id` has these fields.
pub record Holds (p : Pool) (id : ℕ) (f : Fields) : Type 0 where
  pub fits : Fits f
  pub header : p.header (get_entry p id) ≡ encode f

abbrev pub lock_outcome : Pool → ℕ → Option Fields → Pool × Option ℕ
lock_outcome p entry none = (p, none)
lock_outcome p entry (some g) = (put p entry (encode g), some entry)

abbrev pub unlock_outcome : Pool → ℕ → Option (Bool × Fields) → Pool × Bool
unlock_outcome p entry none = (p, false)
unlock_outcome p entry (some (last, g)) = (put p entry (encode g), last)

module _ {p : Pool} {id : ℕ} {f : Fields} (holds : Holds p id f) where
  open holds use {fits, header}

  -- `prs_pool_lock` on every branch: it succeeds exactly where the entry is allocated under this ID
  -- with a reference count that is neither zero nor at its maximum, returns the entry and adds one
  -- to the count; else it returns null and changes nothing.
  pub lock-fields : lock p id ≡ lock_outcome p (get_entry p id) (lock_fields id f)
  unfolding lock
  lock-fields =
      rw (header, lock_next-fields f fits id) (ground (arith, fits.id_fits, fits.refcnt_fits))

  -- `prs_pool_unlock` and `prs_pool_try_unlock_final` on every branch.
  pub unlock-fields :
      (try_final : Bool)
      → unlock_internal p id try_final none
        ≡ unlock_outcome p (get_entry p id) (unlock_fields id try_final false f)
  unfolding unlock_internal
  unlock-fields try_final =
      rw (header, unlock_next-fields f fits id try_final false)
        (ground (arith, fits.id_fits, fits.refcnt_fits))

-- Writing a header back is no change.
pub update_self : (h : ℕ → ℕ) (e v : ℕ) → update (update h e v) e (h e) ≡ h
update_self h e v = fun_ext λ j. ground arith

pub get_entry-put : (p : Pool) (e h id : ℕ) → get_entry (put p e h) id ≡ get_entry p id
unfolding get_entry
get_entry-put p e h id = refl

pub Holds-put :
    (p : Pool) (id : ℕ) {f : Fields} → Fits f → Holds (put p (get_entry p id) (encode f)) id f
unfolding get_entry
Holds-put p id fits = record { fits = fits; header = ground arith }

module _ {p : Pool} {id : ℕ} {f : Fields} (holds : Holds p id f) where
  pub can_take-fields :
      (i : ℕ) → get_entry p i ≡ get_entry p id → can_take p i ≡ (not f.alloc && not (f.id == i))
  unfolding can_take
  can_take-fields i same = rw (same, holds.header) (is_allocatable-fields f holds.fits i)

  pub unlock_lem : unlock p id ≡ unlock_outcome p (get_entry p id) (unlock_fields id false false f)
  unfolding unlock
  unlock_lem = unlock-fields holds false

  pub try_unlock_final_lem :
      try_unlock_final p id ≡ unlock_outcome p (get_entry p id) (unlock_fields id true false f)
  unfolding try_unlock_final
  try_unlock_final_lem = unlock-fields holds true

  pub lock-taken :
      f.id ≡ id
      → f.alloc ≡ true
      → 0 < f.refcnt
      → f.refcnt < max_refcnt
      → lock p id ≡ (
        put p (get_entry p id) (encode (record f { refcnt = f.refcnt + 1 })),
        some (get_entry p id),
      )
  lock-taken i a lo hi = rw (lock-fields holds) (ground arith)

  pub lock-refused : (f.refcnt ≡ 0) ⊎ (f.id ≢ id) → lock p id ≡ (p, none)
  lock-refused h = rw (lock-fields holds) (ground arith)

module _ {p : Pool} {id r : ℕ} (holds : Holds p id (fields true r id)) where
  -- A lock followed by an unlock leaves the pool as it was, and the unlock does not report the entry
  -- freed, where the reference count is neither zero nor at its maximum.
  pub unlock-lock : 0 < r → r < max_refcnt → unlock (lock p id).0 id ≡ (p, false)
  unlock-lock lo hi =
      let fits : Fits (fields true (r + 1) id) = record {
        refcnt_fits = omega arith;
        id_fits = holds.fits.id_fits;
      } in
      let now = Holds-put p id fits in
      rw
        (
          lock-taken holds refl refl lo hi,
          unlock_lem now,
          get_entry-put p (get_entry p id) (encode (fields true (r + 1) id)) id,
        )
        (ground (
          arith,
          holds.header,
          update_self p.header (get_entry p id) (encode (fields true (r + 1) id)),
        ))

  -- `prs_pool_try_unlock_final` fails and changes nothing while there is another reference.
  pub try_unlock_final-shared : r ≢ 1 → try_unlock_final p id ≡ (p, false)
  try_unlock_final-shared h = rw (try_unlock_final_lem holds) (ground arith)

-- The unlock of the last reference, by `prs_pool_unlock` or `prs_pool_try_unlock_final`, reports the
-- entry freed and clears its allocation bit: from then on no lock by this ID succeeds, a second
-- unlock is refused, any other index that falls on the entry may take it, and the other entries are
-- as before.
pub unlock-last :
    {p : Pool} {id : ℕ}
    → Holds p id (fields true 1 id)
    → let q = put p (get_entry p id) (encode (fields false 0 id)) in
      (unlock p id ≡ (q, true))
      × (try_unlock_final p id ≡ (q, true))
      × (lock q id ≡ (q, none))
      × (unlock q id ≡ (q, false))
      × ((i : ℕ) → i ≢ id → get_entry p i ≡ get_entry p id → can_take q i ≡ true)
unlock-last {p} {id} holds =
    let now =
      Holds-put p id {f = fields false 0 id}
        (record { refcnt_fits = omega arith; id_fits = holds.fits.id_fits }) in
    (
      rw (unlock_lem holds) (ground arith),
      rw (try_unlock_final_lem holds) (ground arith),
      lock-refused now (inl refl),
      rw (unlock_lem now) (ground arith),
      λ i ne same.
          can_take-fields now i (get_entry-put p _ _ i ∙ same ∙ sym (get_entry-put p _ _ id))
          ∙ ground arith,
    )
