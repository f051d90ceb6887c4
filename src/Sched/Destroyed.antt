-- ===== src/Sched/Destroyed.antt =====
-- What the directory holds of a scheduler of prs/sched.c that was destroyed.
use prs.Base.{ℕ, ◌+◌, ◌<◌, ◌≡◌, ◌≢◌, refl, sym, subst, true, false, List, ◌==◌, arith, test_self}
use prs.God
use prs.God.{God, Ops}
use prs.God.Fields.{encode, live, max_refcnt}
use prs.God.Laws.{get_entry-put}
use prs.God.Count.{Live, Live-put, lock-live, unlock-live}
use prs.Name
use prs.Name.{Name, free_loop, with_list}
use prs.Sched.Lifecycle.{World, Env, destroy, stop}

-- The ID is that of this object, with `c` references.
pub record Held (g : God) (id c object : ℕ) : Type 0 where
  pub live : Live g id c
  pub same : g.object (God.get_entry g id) ≡ object

Held-put :
    (g : God) (id c d object : ℕ)
    → Held g id c object
    → d < max_refcnt + 1
    → Held (God.put g (God.get_entry g id) (encode (live id d))) id d object
Held-put g id c d object h fits = record {
  live = Live-put g id c d h.live (omega (arith, fits));
  same = rw (get_entry-put g (God.get_entry g id) (encode (live id d)) id) h.same;
}

pub lock-Held :
    (g : God) (id c object : ℕ)
    → Held g id c object
    → c < max_refcnt
    → ((God.lock g id).1 ≡ object) × Held (God.lock g id).0 id (c + 1) object
lock-Held g id c object h room =
    subst (λ (r : God × ℕ). (r.1 ≡ object) × Held r.0 id (c + 1) object)
      (sym (lock-live g id c h.live room))
      (h.same, Held-put g id c (c + 1) object h (omega (arith, room)))

pub unlock-Held :
    (o : Ops) (g : God) (id c object : ℕ)
    → Held g id (c + 1) object
    → 0 < c
    → c < max_refcnt
    → Held (God.unlock o g id) id c object
unlock-Held o g id c object h more room =
    subst (λ (r : God). Held r id c object) (sym (unlock-live o g id c h.live more))
      (Held-put g id (c + 1) c object h (omega (arith, room)))

-- `prs_name_free` takes a reference and gives it back.
free-Held :
    (o : Ops) (memory : ℕ → List ℕ) (n : Name) (g : God) (id c object : ℕ)
    → Held g id c object
    → 0 < c
    → c < max_refcnt
    → object ≢ 0
    → Held (Name.free o memory n g id).1 id c object
unfolding Name.free with_list
free-Held o memory n g id c object h more room there =
    let l = lock-Held g id c object h room in
    let test : ((God.lock g id).1 == 0) ≡ false = ground (arith, l.0, there) in
    rw test (unlock-Held o (God.lock g id).0 id c object l.1 more room)

module _ {D : Type 0} (env : Env D) where
  -- The object that `prs_sched_destroy` frees stays in the directory, with the references that it had:
  -- its ID can still be locked, and yields the freed memory. Each `prs_sched_stop` adds a reference, which
  -- is never given back.
  pub destroy-stays :
      (w : World D) (id c sched : ℕ)
      → Held w.god id c sched
      → 0 < c
      → c + 1 < max_refcnt
      → sched ≢ 0
      → let left = (destroy env w id).0 in
        (left.freed sched ≡ true)
        × Held left.god id c sched
        × ((God.lock left.god id).1 ≡ sched)
        × Held (stop env w id).0.god id (c + 1) sched
  unfolding destroy stop
  destroy-stays w id c sched h more room there =
      let l = lock-Held w.god id c sched h (omega (arith, room)) in
      let g = (God.lock w.god id).0 in
      let test : ((God.lock w.god id).1 == 0) ≡ false = ground (arith, l.0, there) in
      let named =
        free-Held env.ops w.memory w.names g id (c + 1) sched l.1 (omega arith) room there in
      let left = unlock-Held env.ops _ id c sched named more (omega (arith, room)) in
      (
        rw (test, l.0, test_self sched) refl,
        rw test left,
        rw test (lock-Held _ id c sched left (omega (arith, room))).0,
        rw test l.1,
      )
