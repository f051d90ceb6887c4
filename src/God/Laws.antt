-- ===== src/God/Laws.antt =====
-- What the functions of prs/god.c do with an entry, on its fields.
use prs.Base.{
  ℕ, ◌-◌, ◌≡◌, ◌≢◌, refl, ap, ◌∙◌, true, false, not, ◌&&◌, Option, none, some, arith, ◌==◌,
  if◌then◌else◌, bit_and, test_self, inl, inr, ◌⊎◌,
}
use prs.Base.Result.{Result, ok}
use prs.God.{
  God, Ops, get_entry, can_take, put, call, free, lock, release, unlock, try_unlock_final,
}
use prs.God.Header.{id_invalid, header_id}
use prs.God.Fields.{
  Fields, fields, encode, Fits, live, dying, lock_fields, unlock_fields, try_unlock_fields,
  lock_next-fields, unlock_next-fields, is_free-fields, try_unlock_next-fields, clear-fields,
  refcnt-fields,
}

-- The entry of `id`, which is not the invalid ID, has these fields.
pub record Holds (g : God) (id : ℕ) (f : Fields) : Type 0 where
  pub valid : id ≢ id_invalid
  pub fits : Fits f
  pub header : g.header (get_entry g id) ≡ encode f

abbrev pub lock_outcome : God → ℕ → Option Fields → God × ℕ
lock_outcome g entry none = (g, 0)
lock_outcome g entry (some f) = (put g entry (encode f), g.object entry)

-- The header `h` is stored, `free` is called on the object of the entry, and the entry keeps only the
-- ID of the header it then has.
abbrev pub freed : Ops → God → (entry h : ℕ) → God
freed o g entry h =
    let q = call (o.free_of (g.ops entry)) (g.object entry) (put g entry h) in
    put q entry (bit_and (q.header entry) header_id)

abbrev pub released : Ops → God → (entry : ℕ) → Fields → God
released o g entry f = if f.refcnt == 0 then freed o g entry (encode f) else put g entry (encode f)

abbrev pub unlock_outcome : Ops → God → ℕ → Option Fields → God
unlock_outcome o g entry none = g
unlock_outcome o g entry (some f) = released o g entry f

abbrev pub try_unlock_outcome : Ops → God → ℕ → Result ⊎ Fields → God × Result
try_unlock_outcome o g entry (inl result) = (g, result)
try_unlock_outcome o g entry (inr f) = (freed o g entry (encode f), ok)

module _ {g : God} {id : ℕ} {f : Fields} (holds : Holds g id f) where
  open holds use {valid, fits, header}

  -- `prs_god_lock` on every branch: it succeeds exactly where the entry has this ID, is in use, is
  -- not marked for deletion and does not have the largest reference count; it then adds one to the
  -- count and returns the object. Else it returns null and changes nothing.
  pub lock-fields : lock g id ≡ lock_outcome g (get_entry g id) (lock_fields id f)
  unfolding lock
  lock-fields = rw (header, lock_next-fields f fits id) (ground arith)

free_lem :
    (o : Ops) (g : God) (id h : ℕ)
    → id ≢ id_invalid
    → free o (put g (get_entry g id) h) id ≡ freed o g (get_entry g id) h
unfolding free get_entry
free_lem o g id h valid = ground arith

release-fields :
    (o : Ops) (g : God) (id : ℕ) (f : Fields)
    → id ≢ id_invalid
    → Fits f
    → release o g id (encode f) ≡ released o g (get_entry g id) f
unfolding release
release-fields o g id f valid fits =
    rw (refcnt-fields f fits, free_lem o g id (encode f) valid) refl

module _ (o : Ops) {g : God} {id : ℕ} {f : Fields} (holds : Holds g id f) where
  open holds use {valid, fits, header}

  -- `prs_god_unlock` on every branch: where the entry has this ID, is in use and has a reference, one
  -- is taken from the count; the last one sets the mark instead and frees the object. Else nothing
  -- changes.
  pub unlock-fields : unlock o g id ≡ unlock_outcome o g (get_entry g id) (unlock_fields id f)
  unfolding unlock
  unlock-fields =
      rw (header, unlock_next-fields f fits id)
        (ground (
          arith,
          release-fields o g id (record f { mark = true; refcnt = 0 }) valid,
          release-fields o g id (record f { refcnt = f.refcnt - 1 }) valid,
        ))

  -- `prs_god_try_unlock_final` on every branch: with one reference it frees the object, with more it
  -- reports `PRS_LOCKED`, in any other case `PRS_INVALID_STATE`, and then nothing changes.
  pub try_unlock_final-fields :
      try_unlock_final o g id ≡ try_unlock_outcome o g (get_entry g id) (try_unlock_fields id f)
  unfolding try_unlock_final
  try_unlock_final-fields =
      rw (header, try_unlock_next-fields f fits id)
        (ground (arith, free_lem o g id (encode (record f { mark = true; refcnt = 0 })) valid))

pub get_entry-put : (g : God) (e h id : ℕ) → get_entry (put g e h) id ≡ get_entry g id
unfolding get_entry
get_entry-put g e h id = refl

get_entry-mask :
    (a b : God) (id : ℕ) → a.max_entries_mask ≡ b.max_entries_mask → get_entry a id ≡ get_entry b id
unfolding get_entry
get_entry-mask a b id same = ap (bit_and id) same

pub put-at :
    (g : God) (e id h : ℕ) → get_entry g id ≡ e → (put g e h).header (get_entry (put g e h) id) ≡ h
put-at g e id h at = rw (get_entry-put g e h id, at) (ground arith)

can_take-fields :
    (g : God) (i : ℕ) (f : Fields)
    → Fits f
    → g.header (get_entry g i) ≡ encode f
    → can_take g i ≡ (not f.reserved && not (f.id == i))
unfolding can_take
can_take-fields g i f fits header = rw header (is_free-fields f fits i)

pub lock-refused :
    (g : God) (id : ℕ) (f : Fields)
    → Fits f
    → lock_fields id f ≡ none
    → g.header (get_entry g id) ≡ encode f
    → lock g id ≡ (g, 0)
unfolding lock
lock-refused g id f fits refused header =
    rw (header, lock_next-fields f fits id, refused) (ground arith)

-- What `free` of an object leaves alone: the size of the directory, and the header of the entry, which
-- no function of the directory changes while it is marked and without references.
pub record Respects (o : Ops) (g : God) (entry h : ℕ) : Type 0 where
  pub mask :
      (call (o.free_of (g.ops entry)) (g.object entry) (put g entry h)).max_entries_mask
      ≡ g.max_entries_mask
  pub header : (call (o.free_of (g.ops entry)) (g.object entry) (put g entry h)).header entry ≡ h

module _ (o : Ops) {g : God} {id : ℕ} (holds : Holds g id (live id 1)) where
  open holds use {valid, fits, header}

  -- The directory that `free` of the object is called with, and the one it leaves.
  abbrev pub before_free : God
  before_free = put g (get_entry g id) (encode (dying id))

  abbrev pub after_free : God
  after_free = call (o.free_of (g.ops (get_entry g id))) (g.object (get_entry g id)) before_free

  -- Where `free` of the object respects the directory, the unlock of the last reference calls it once,
  -- on a directory in which the object cannot be locked any more; then the entry keeps only its ID,
  -- no ID of that entry can be locked, and every other ID of that entry can be allocated.
  pub unlock-freed :
      Respects o g (get_entry g id) (encode (dying id))
      → let gone = put after_free (get_entry g id) (encode (fields id false false false 0)) in
        (unlock o g id ≡ gone)
        × (lock before_free id ≡ (before_free, 0))
        × ((i : ℕ)
            → get_entry g i ≡ get_entry g id
            → (lock gone i ≡ (gone, 0)) × (can_take gone i ≡ not (id == i)))
  unlock-freed respects =
      let dying_fits : Fits (dying id) = record {
        id_fits = fits.id_fits;
        refcnt_fits = omega arith;
      } in
      let f : Fields = fields id false false false 0 in
      let gone_fits : Fits f = record { id_fits = fits.id_fits; refcnt_fits = omega arith } in
      let gone = put after_free (get_entry g id) (encode f) in
      let at : (i : ℕ)
          → get_entry g i ≡ get_entry g id
          → gone.header (get_entry gone i) ≡ encode f =
        λ i same.
          put-at after_free (get_entry g id) i (encode f)
            (get_entry-mask after_free g i respects.mask ∙ same) in
      (
        rw (unlock-fields o holds, test_self id)
            (ap (put after_free (get_entry g id))
              (ap (λ h. bit_and h header_id) respects.header ∙ clear-fields (dying id) dying_fits)),
        lock-refused before_free id (dying id) dying_fits (ground arith)
            (put-at g (get_entry g id) id (encode (dying id)) refl),
        λ i same. (
          lock-refused gone i f gone_fits (ground arith) (at i same),
          can_take-fields gone i f gone_fits (at i same),
        ),
      )
