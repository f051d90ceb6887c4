-- ===== src/God/Protocol.antt =====
-- What the steps of God.Steps keep of one entry of the directory of prs/god.c, in any interleaving.
use mathlib.Core.Option
use prs.Base.{
  inr, ◌==◌, ℕ, zero, suc, ◌+◌, ◌^◌, ◌<◌, ◌≡◌, refl, sym, ◌∙◌, ap, true, false, none, some, arith,
  bit_and,
}
use prs.God.Header.{
  header_refcnt, test_flag, try_unlock_next, header_id, is_free, lock_next, unlock_next,
}
use prs.God.Fields.{
  refcnt-fields, try_unlock_fields, encode_outcome, try_unlock_next-fields, Fields, fields, encode,
  Fits, live, dying, lock_fields, unlock_fields, lock_next-fields, unlock_next-fields,
  is_free-fields, clear-fields, reserved_header-fields, used_header-fields,
}
use prs.God.Steps.{
  Phase, idle, reserving, in_use, freeing, State, state, left, called, Step, reserves, publishes,
  locks, unlocks, unlocks_final, frees, Steps, stay, step, start,
}

-- The fields of the header in each phase, and the references and calls of `free` that go with them.
abbrev pub fields_in : Phase → (id refs : ℕ) → Fields
fields_in idle i r = fields i false false false 0
fields_in reserving i r = fields i true false false 1
fields_in in_use i r = live i r
fields_in freeing i r = dying i

abbrev pub Agrees : Phase → (refs frees : ℕ) → Type 0
Agrees idle r n = (r ≡ 0) × (n < 2)
Agrees reserving r n = (r ≡ 1) × (n ≡ 0)
Agrees in_use r n = (0 < r) × (r < 2 ^ 12) × (n ≡ 0)
Agrees freeing r n = (r ≡ 0) × (n ≡ 1)

pub record Counted (s : State) : Type 0 where
  pub id_fits : s.id < 2 ^ 32
  pub header : s.header ≡ encode (fields_in s.phase s.id s.refs)
  pub agrees : Agrees s.phase s.refs s.frees

in_phase-Fits : (p : Phase) (i r n : ℕ) → i < 2 ^ 32 → Agrees p r n → Fits (fields_in p i r)
in_phase-Fits idle i r n lt a = record { id_fits = lt; refcnt_fits = omega arith }
in_phase-Fits reserving i r n lt a = record { id_fits = lt; refcnt_fits = omega arith }
in_phase-Fits in_use i r n lt a = record { id_fits = lt; refcnt_fits = omega arith }
in_phase-Fits freeing i r n lt a = record { id_fits = lt; refcnt_fits = omega arith }

pub Counted-Fits : {s : State} → Counted s → Fits (fields_in s.phase s.id s.refs)
Counted-Fits {s} c = in_phase-Fits s.phase s.id s.refs s.frees c.id_fits c.agrees

-- What the exchanges read, on the fields of the phase.
read_lock :
    (p : Phase) (h g i id r n : ℕ)
    → Counted (state h p i r n)
    → lock_next id h ≡ some g
    → Option.map encode (lock_fields id (fields_in p i r)) ≡ some g
read_lock p h g i id r n c e =
    sym (lock_next-fields (fields_in p i r) (Counted-Fits c) id)
    ∙ ap (lock_next id) (sym c.header)
    ∙ e

read_unlock :
    (h g i r n : ℕ)
    → Counted (state h in_use i r n)
    → unlock_next i h ≡ some g
    → Option.map encode (unlock_fields i (live i r)) ≡ some g
read_unlock h g i r n c e =
    sym (unlock_next-fields (live i r) (Counted-Fits c) i) ∙ ap (unlock_next i) (sym c.header) ∙ e

read_unlock_final :
    (h g i r n : ℕ)
    → (c : Counted (state h in_use i r n)) → try_unlock_next i h ≡ inr g
    → encode_outcome (live i r) (Counted-Fits c) (try_unlock_fields i (live i r)) ≡ inr g
read_unlock_final h g i r n c e =
    sym (try_unlock_next-fields (live i r) (Counted-Fits c) i)
    ∙ ap (try_unlock_next i) (sym c.header)
    ∙ e

-- What an unlock decides by the header that it stored.
pub left-last :
    (g i n : ℕ) → i < 2 ^ 32 → g ≡ encode (dying i) → (left g ≡ freeing) × (called g n ≡ n + 1)
unfolding left called
left-last g i n fits e =
    let test =
      ap (λ h. test_flag h header_refcnt) e
      ∙ refcnt-fields (dying i) (record { id_fits = fits; refcnt_fits = omega arith }) in
    (rw test refl, rw test refl)

pub left-more :
    (g i r n : ℕ)
    → i < 2 ^ 32
    → suc r < 2 ^ 12
    → g ≡ encode (live i (suc r))
    → (left g ≡ in_use) × (called g n ≡ n)
unfolding left called
left-more g i r n fits few e =
    let test =
      ap (λ h. test_flag h header_refcnt) e
      ∙ refcnt-fields (live i (suc r)) (record { id_fits = fits; refcnt_fits = few }) in
    let some_left : (suc r == 0) ≡ false = ground arith in
    (rw (test, some_left) refl, rw (test, some_left) refl)

-- A lock succeeds in one phase only, and there it counts.
lock-Counted :
    (p : Phase) (h g i id r n : ℕ)
    → Counted (state h p i r n)
    → lock_next id h ≡ some g
    → Counted (state g p i (r + 1) n)
lock-Counted idle h g i id r n c e = absurd (ground (arith, read_lock idle h g i id r n c e))
lock-Counted reserving h g i id r n c e =
    absurd (ground (arith, read_lock reserving h g i id r n c e))
lock-Counted freeing h g i id r n c e = absurd (ground (arith, read_lock freeing h g i id r n c e))
lock-Counted in_use h g i id r n c e = record {
  id_fits = c.id_fits;
  header = ground (arith, read_lock in_use h g i id r n c e);
  agrees = ground (arith, read_lock in_use h g i id r n c e);
}

unlock-Counted :
    (h g i r n : ℕ)
    → Counted (state h in_use i (suc r) n)
    → unlock_next i h ≡ some g
    → Counted (state g (left g) i r (called g n))
unlock-Counted h g i zero n c e =
    let header : g ≡ encode (dying i) = ground (arith, read_unlock h g i 1 n c e) in
    let (phase, calls) = left-last g i n c.id_fits header in
    rw (phase, calls)
      (record { id_fits = c.id_fits; header = header; agrees = (refl, omega (arith, c.agrees)) })
unlock-Counted h g i (suc r) n c e =
    let header : g ≡ encode (live i (suc r)) =
      ground (arith, read_unlock h g i (suc (suc r)) n c e) in
    let (phase, calls) = left-more g i r n c.id_fits (omega (arith, c.agrees)) header in
    rw (phase, calls)
      (record {
        id_fits = c.id_fits;
        header = header;
        agrees = (omega arith, omega (arith, c.agrees), c.agrees.2);
      })

unlock_final-Counted :
    (h g i r n : ℕ)
    → Counted (state h in_use i (suc r) n)
    → try_unlock_next i h ≡ inr g
    → Counted (state g freeing i r (n + 1))
unlock_final-Counted h g i zero n c e = record {
  id_fits = c.id_fits;
  header = ground (arith, read_unlock_final h g i 1 n c e);
  agrees = (refl, omega (arith, c.agrees));
}
unlock_final-Counted h g i (suc r) n c e =
    absurd (ground (arith, read_unlock_final h g i (suc (suc r)) n c e))

pub step-Counted : {s t : State} → Counted s → Step s t → Counted t
step-Counted c (reserves lt e) = record {
  id_fits = lt;
  header = reserved_header-fields _ lt;
  agrees = (refl, refl);
}
step-Counted c publishes = record {
  id_fits = c.id_fits;
  header = used_header-fields _ c.id_fits;
  agrees = (omega arith, omega arith, refl);
}
step-Counted c (locks id e) = lock-Counted _ _ _ _ id _ _ c e
step-Counted c (unlocks e) = unlock-Counted _ _ _ _ _ c e
step-Counted c (unlocks_final e) = unlock_final-Counted _ _ _ _ _ c e
step-Counted c frees = record {
  id_fits = c.id_fits;
  header = ap (λ h. bit_and h header_id) c.header ∙ clear-fields _ (Counted-Fits c);
  agrees = (refl, omega arith);
}

Steps-Counted : {s t : State} → Counted s → Steps s t → Counted t
Steps-Counted c stay = c
Steps-Counted c (step run last) = step-Counted (Steps-Counted c run) last

-- In every state that is reached, the header is exactly the encoding of the phase's flags, of the ID
-- and of the number of references that were handed out and not given back: the entry is in use as
-- long as there is such a reference, `free` of the object has been called once when it is in the
-- phase behind it, and not at all while the entry is reserved or in use.
pub reached-Counted : {s : State} → Steps start s → Counted s
reached-Counted run =
    Steps-Counted (record { id_fits = omega arith; header = refl; agrees = (refl, omega arith) })
      run

-- While `free` of an object runs, nobody holds a reference to it, `free` has been called once, no
-- lock or unlock of any ID succeeds in the entry, and the entry is not allocated.
pub freeing-closed :
    {h i r n : ℕ}
    → Steps start (state h freeing i r n)
    → (r ≡ 0)
      × (n ≡ 1)
      × ((id : ℕ) → (lock_next id h ≡ none) × (unlock_next id h ≡ none) × (is_free h id ≡ false))
freeing-closed {h} {i} {r} {n} run =
    let c = reached-Counted run in
    let fits = Counted-Fits c in
    (
      c.agrees.0,
      c.agrees.1,
      λ id. (
        ap (lock_next id) c.header ∙ lock_next-fields (dying i) fits id ∙ ground arith,
        ap (unlock_next id) c.header ∙ unlock_next-fields (dying i) fits id ∙ ground arith,
        ap (λ w. is_free w id) c.header ∙ is_free-fields (dying i) fits id,
      ),
    )
