-- ===== src/Mpmcq/Drain.antt =====
-- The pops of `prs_mpmcq_destroy` in prs/lib/ds/mpmcq.c.
use prs.Base.{ℕ, suc, ◌≡◌, refl, ap, false, some, arith, List, [], ◌∷◌, length, if◌then◌else◌}
use prs.Base.Partial.{◌>>=◌}
use prs.Sched.{is_ok}
use prs.Mpmcq.{Mpmcq, drain, destroy}
use prs.Mpmcq.Values.{Values, pop-Values, pop_result}

-- What the pops leave.
record Drains (q : Mpmcq) (pops fuel : ℕ) : Type 0 where
  left : Mpmcq
  drains : drain pops fuel q ≡ some left
  leaves : Values left []

drain-Values :
    (q : Mpmcq) (vs : List ℕ) (fuel : ℕ) → Values q vs → Drains q (suc (length vs)) (suc (suc fuel))
unfolding drain
drain-Values q [] fuel h =
    let p = pop-Values q [] fuel h in
    let found_none : is_ok (pop_result q []) ≡ false = ground arith in
    record { left = p.left; drains = rw (p.pops, found_none) refl; leaves = p.leaves }
drain-Values q (v ∷ vs) fuel h =
    let p = pop-Values q (v ∷ vs) fuel h in
    let d = drain-Values p.left vs fuel p.leaves in
    record { left = d.left; drains = rw (p.pops, d.drains) refl; leaves = d.leaves }

-- What `prs_mpmcq_destroy` does: it frees one block, or two where the queue owns its directory, and
-- leaves no values.
pub record Destroys (q : Mpmcq) (pops fuel : ℕ) : Type 0 where
  pub left : Mpmcq
  pub destroys : destroy pops fuel q ≡ some (left, if left.owns_pd then 2 else 1)
  pub leaves : Values left []

-- `prs_mpmcq_destroy` of a queue that holds `n` values ends: `n` pops, and one more that finds nothing,
-- are enough. The queue holds no value then, and the function has freed the queue, and the block of a
-- directory that the queue owns.
pub destroy-ends :
    (q : Mpmcq) (vs : List ℕ) (fuel : ℕ)
    → Values q vs
    → Destroys q (suc (length vs)) (suc (suc fuel))
unfolding destroy
destroy-ends q vs fuel h =
    let d = drain-Values q vs fuel h in
    record {
      left = d.left;
      destroys = ap (λ o. o >>= λ left. some (left, if left.owns_pd then 2 else 1)) d.drains;
      leaves = d.leaves;
    }
