-- ===== src/Mpmcq/Count.antt =====
-- The references that the queue of prs/lib/ds/mpmcq.c takes on its nodes.
use prs.Base.{
  ℕ, ◌+◌, ◌-◌, ◌^◌, ◌<◌, ◌≡◌, ◌≢◌, refl, ap, fun_ext, false, none, some, ◌==◌, if◌then◌else◌,
  update, arith, test_self,
}
use prs.Pd
use prs.Pd.{Pd}
use prs.Pd.Count.{count, max_refcnt}
use prs.Pd.Refs.{Holds, lock-count, unlock-count}
use prs.Mpmcq.{Mpmcq, lock, unlock}

-- The directory with `r` references to this ID.
abbrev pub counted : Pd → (id r : ℕ) → Pd
counted pd id r = Pd.put pd (Pd.get_entry pd id) (count r id)

pub get_entry-put : (pd : Pd) (e h id : ℕ) → Pd.get_entry (Pd.put pd e h) id ≡ Pd.get_entry pd id
unfolding Pd.get_entry
get_entry-put pd e h id = refl

-- An ID of the queue, with its references.
pub record Counted (pd : Pd) (id r : ℕ) : Type 0 where
  pub valid : id < 2 ^ 52
  pub few : r < 2 ^ 12
  pub header : pd.header (Pd.get_entry pd id) ≡ count r id

pub Counted-Holds : {pd : Pd} {id r : ℕ} → Counted pd id r → Holds pd id r id
Counted-Holds c = record { refcnt_fits = c.few; id_fits = c.valid; header = c.header }

pub counted-Counted :
    {pd : Pd} {id r : ℕ} (n : ℕ) → Counted pd id r → n < 2 ^ 12 → Counted (counted pd id n) id n
counted-Counted {pd} {id} n c few = record {
  valid = c.valid;
  few = few;
  header =
      rw (get_entry-put pd (Pd.get_entry pd id) (count n id) id, test_self (Pd.get_entry pd id))
        refl;
}

-- A change of the references to another entry.
pub other-Counted :
    {pd : Pd} {id r : ℕ} (other n : ℕ)
    → Counted pd id r
    → Pd.get_entry pd id ≢ Pd.get_entry pd other
    → Counted (counted pd other n) id r
other-Counted {pd} {id} {r} other n c apart =
    let e = Pd.get_entry pd other in
    let test : (Pd.get_entry pd id == e) ≡ false = ground arith in
    record {
      valid = c.valid;
      few = c.few;
      header = rw (get_entry-put pd e (count n other) id, test) c.header;
    }

pub lock_lem :
    (q : Mpmcq) (id r node : ℕ)
    → Counted q.pd id (r + 1)
    → r + 2 < 2 ^ 12
    → q.pd.ptr (Pd.get_entry q.pd id) ≡ node
    → lock q id ≡ (record q { pd = counted q.pd id (r + 2) }, record { node = some node; id = id })
unfolding lock
lock_lem q id r node c room ptr =
    let valid = c.valid in
    let some_id : (id == Pd.id_invalid) ≡ false = ground arith in
    let some_ref : (r + 1 == 0) ≡ false = ground arith in
    let fits : (r + 1 == max_refcnt) ≡ false = ground arith in
    let more : r + 1 + 1 ≡ r + 2 = omega arith in
    rw (some_id, lock-count (Counted-Holds c), test_self id, some_ref, fits, ptr, more) refl

pub lock-invalid :
    (q : Mpmcq) → lock q Pd.id_invalid ≡ (q, record { node = none; id = Pd.id_invalid })
unfolding lock
lock-invalid q = refl

pub unlock_lem :
    (q : Mpmcq) (node id r : ℕ)
    → Counted q.pd id (r + 1)
    → unlock q node id ≡ record q {
      pd = counted q.pd id r;
      nodes = if r == 0 then update q.nodes node none else q.nodes;
    }
unfolding unlock
unlock_lem q node id r c =
    let some_ref : (r + 1 == 0) ≡ false = ground arith in
    let less : r + 1 - 1 ≡ r = omega arith in
    let last : (r + 1 == 1) ≡ (r == 0) = ground arith in
    rw (unlock-count (Counted-Holds c), test_self id, some_ref, less, last) refl

-- References that are taken and given back leave the directory as it was.
pub counted_back :
    {pd : Pd} {id r : ℕ} (n : ℕ) → Counted pd id r → counted (counted pd id n) id r ≡ pd
unfolding Pd.get_entry
counted_back {pd} {id} {r} n c =
    ap (λ h. record pd { header = h }) (fun_ext λ j. ground (arith, c.header))

-- The same for the second of two entries, while the first loses its references.
pub counted_away :
    {pd : Pd} (a : ℕ) {b : ℕ}
    → Counted pd b 1
    → Pd.get_entry pd a ≢ Pd.get_entry pd b
    → counted (counted (counted (counted (counted pd a 2) b 2) a 1) b 1) a 0 ≡ counted pd a 0
unfolding Pd.get_entry
counted_away {pd} a {b} c apart =
    ap (λ h. record pd { header = h }) (fun_ext λ j. ground (arith, c.header))

pub counted_next :
    (pd : Pd) (a b : ℕ)
    → Pd.get_entry pd a ≢ Pd.get_entry pd b
    → counted (counted (counted (counted pd a 2) b 2) a 1) a 0 ≡ counted (counted pd a 0) b 2
unfolding Pd.get_entry
counted_next pd a b apart = ap (λ h. record pd { header = h }) (fun_ext λ j. ground arith)
