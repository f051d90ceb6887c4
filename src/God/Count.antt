-- ===== src/God/Count.antt =====
-- Locks and unlocks of live objects of prs/god.c, as counts.
use prs.Base.{ℕ, ◌+◌, ◌^◌, ◌<◌, ◌≡◌, ◌≢◌, refl, sym, subst, arith}
use prs.God.{God, Ops, get_entry, put, lock, unlock}
use prs.God.Fields.{Fits, encode, live, max_refcnt}
use prs.God.Laws.{Holds, lock-fields, unlock-fields, put-at, get_entry-put}

-- The object of `id` is in use with `c` references.
abbrev pub Live : God → (id c : ℕ) → Type 0
Live g id c = Holds g id (live id c)

live-Fits : (g : God) (id c d : ℕ) → Live g id c → d < 2 ^ 12 → Fits (live id d)
live-Fits g id c d holds fits = record { id_fits = holds.fits.id_fits; refcnt_fits = fits }

pub Live-put :
    (g : God) (id c d : ℕ)
    → Live g id c
    → d < 2 ^ 12
    → Live (put g (get_entry g id) (encode (live id d))) id d
Live-put g id c d holds fits = record {
  valid = holds.valid;
  fits = live-Fits g id c d holds fits;
  header = put-at g (get_entry g id) id (encode (live id d)) refl;
}

Live-other :
    (g : God) (id other c h : ℕ)
    → Live g other c
    → get_entry g other ≢ get_entry g id
    → Live (put g (get_entry g id) h) other c
Live-other g id other c h holds apart = record {
  valid = holds.valid;
  fits = holds.fits;
  header = rw (get_entry-put g (get_entry g id) h other) (ground (arith, holds.header));
}

pub lock-live :
    (g : God) (id c : ℕ)
    → Live g id c
    → c < max_refcnt
    → lock g id ≡ (put g (get_entry g id) (encode (live id (c + 1))), g.object (get_entry g id))
lock-live g id c holds room = rw (lock-fields holds) (ground arith)

pub unlock-live :
    (o : Ops) (g : God) (id c : ℕ)
    → Live g id (c + 1)
    → 0 < c
    → unlock o g id ≡ put g (get_entry g id) (encode (live id c))
unlock-live o g id c holds more = rw (unlock-fields o holds) (ground arith)

-- Two objects in different entries.
pub record Both (g : God) (id other c d : ℕ) : Type 0 where
  pub first : Live g id c
  pub second : Live g other d
  pub apart : get_entry g other ≢ get_entry g id
  pub object : g.object (get_entry g id) ≢ 0
  pub object' : g.object (get_entry g other) ≢ 0

pub swap : {g : God} {id other c d : ℕ} → Both g id other c d → Both g other id d c
swap b = record {
  first = b.second;
  second = b.first;
  apart = λ e. b.apart (sym e);
  object = b.object';
  object' = b.object;
}

Both-put :
    (g : God) (id other c d n : ℕ)
    → Both g id other c d
    → n < 2 ^ 12
    → Both (put g (get_entry g id) (encode (live id n))) id other n d
Both-put g id other c d n b fits =
    let h = encode (live id n) in
    let e = get_entry g id in
    record {
      first = Live-put g id c n b.first fits;
      second = Live-other g id other d h b.second b.apart;
      apart = rw (get_entry-put g e h other, get_entry-put g e h id) b.apart;
      object = rw (get_entry-put g e h id) b.object;
      object' = rw (get_entry-put g e h other) b.object';
    }

-- A lock of the first one finds its object and adds a reference; an unlock takes one.
pub lock-Both :
    (g : God) (id other c d : ℕ)
    → Both g id other c d
    → c < max_refcnt
    → ((lock g id).1 ≢ 0) × Both (lock g id).0 id other (c + 1) d
lock-Both g id other c d b room =
    subst (λ r. (r.1 ≢ 0) × Both r.0 id other (c + 1) d) (sym (lock-live g id c b.first room))
      (b.object, Both-put g id other c d (c + 1) b (omega arith))

pub unlock-Both :
    (o : Ops) (g : God) (id other c d : ℕ)
    → Both g id other (c + 1) d
    → 0 < c
    → Both (unlock o g id) id other c d
unlock-Both o g id other c d b more =
    subst (λ r. Both r id other c d) (sym (unlock-live o g id c b.first more))
      (Both-put g id other (c + 1) d c b (omega (arith, b.first.fits.refcnt_fits)))
