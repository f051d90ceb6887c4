-- ===== src/God/Undo.antt =====
-- A lock of prs/god.c that succeeds, and the unlock that undoes it.
use mathlib.Core.Path.{fun_ext}
use prs.Base.{◌+◌, sym, subst, update, ◌<◌, ℕ, ◌≡◌, ◌≢◌, refl, ap, ◌∙◌, true, false, some, arith}
use prs.God.{God, Ops, get_entry, put, unlock}
use prs.God.Fields.{max_refcnt, Fields, encode, Fits, lock_fields, unlock_fields}
use prs.God.Laws.{Holds, released, unlock-fields, put-at, get_entry-put}

-- Writing a header back is no change.
update_self : (h : ℕ → ℕ) (e v : ℕ) → update (update h e v) e (h e) ≡ h
update_self h e v = fun_ext λ j. ground arith

-- What the success of a lock says of the fields.
pub record Lockable (id : ℕ) (f f' : Fields) : Type 0 where
  pub same : f.id ≡ id
  pub used : f.used ≡ true
  pub unmarked : f.mark ≡ false
  pub room : f.refcnt ≢ max_refcnt
  pub counted : f' ≡ record f { refcnt = f.refcnt + 1 }

pub lock_fields-Lockable : (id : ℕ) (f f' : Fields) → lock_fields id f ≡ some f' → Lockable id f f'
lock_fields-Lockable id f f' taken = record {
  same = ground arith;
  used = ground arith;
  unmarked = ground arith;
  room = ground arith;
  counted = ground arith;
}

-- One reference more, and back.
unlock_fields-back :
    (id : ℕ) (f : Fields)
    → f.id ≡ id
    → f.used ≡ true
    → 0 < f.refcnt
    → unlock_fields id (record f { refcnt = f.refcnt + 1 }) ≡ some f
unlock_fields-back id f same used more = ground arith

-- A lock that succeeds is undone by the unlock.
pub unlock-locked :
    (o : Ops) {g : God} {id : ℕ} {f f' : Fields}
    → Holds g id f
    → 0 < f.refcnt
    → lock_fields id f ≡ some f'
    → unlock o (put g (get_entry g id) (encode f')) id ≡ g
unlock-locked o {g} {id} {f} {f'} holds more taken =
    let e = get_entry g id in
    let l = lock_fields-Lockable id f f' taken in
    let f1 : Fields = record f { refcnt = f.refcnt + 1 } in
    let more_fits : Fits f1 = record {
      id_fits = holds.fits.id_fits;
      refcnt_fits = omega (arith, holds.fits.refcnt_fits, l.room);
    } in
    let held : Holds (put g e (encode f1)) id f1 = record {
      valid = holds.valid;
      fits = more_fits;
      header = put-at g e id (encode f1) refl;
    } in
    let restored : update (update g.header e (encode f1)) e (encode f) ≡ g.header =
      subst (λ h. update (update g.header e (encode f1)) e h ≡ g.header) holds.header
        (update_self g.header e (encode f1)) in
    let kept : released o (put g e (encode f1)) e f ≡ put (put g e (encode f1)) e (encode f) =
      ground arith in
    let done : unlock o (put g e (encode f1)) id ≡ g =
      rw
        (
          unlock-fields o held,
          get_entry-put g e (encode f1) id,
          unlock_fields-back id f l.same l.used more,
        )
        (kept ∙ ap (λ h. record g { header = h }) restored) in
    subst (λ x. unlock o (put g e (encode x)) id ≡ g) (sym l.counted) done
