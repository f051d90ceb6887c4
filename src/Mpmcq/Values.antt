-- ===== src/Mpmcq/Values.antt =====
-- The queue of prs/lib/ds/mpmcq.c as a list of values, the oldest first: what a pop makes of it.
use prs.Base.{
  ℕ, suc, ◌≡◌, refl, ap, subst, sym, ◌∙◌, Bool, true, false, not, Option, none, some, List, [], ◌∷◌,
  ◌==◌, if◌then◌else◌, update, test_self, arith,
}
use prs.Base.Result.{Result, ok, unknown, empty}
use prs.Pd
use prs.Mpmcq.{Mpmcq, LockedNode, lock, pop, pop_loop}
use prs.Mpmcq.Count.{counted, lock_lem, lock-invalid}
use prs.Mpmcq.Cells.{Cell, At, first_id, last_id, Linked, Off, Linked-Off}
use prs.Mpmcq.Pop.{taken, test_of, used_up, pop_loop-last, pop_loop-first, pop_loop-skips}

abbrev pub values : List Cell → List ℕ
values [] = []
values (c ∷ cs) = c.value ∷ values cs

-- A first node that was consumed has no value any more.
abbrev pub live : (consumed : Bool) → List Cell → List ℕ
live consumed [] = []
live consumed (c ∷ cs) = if consumed then values cs else c.value ∷ values cs

-- The queue holds these values.
pub record Values (q : Mpmcq) (vs : List ℕ) : Type 0 where
  pub consumed : Bool
  pub cells : List Cell
  pub linked : Linked q consumed cells
  pub head : q.head ≡ first_id cells
  pub tail : q.tail ≡ last_id cells
  pub same : vs ≡ live consumed cells

-- What a pop does: it finds a value and leaves values.
pub record Pops (q : Mpmcq) (fuel : ℕ) (result : Result) (found : Option ℕ) (vs : List ℕ)
    : Type 0 where
  pub left : Mpmcq
  pub pops : pop fuel q ≡ some (left, result, found)
  pub leaves : Values left vs

-- The loop of a pop from the first node on.
record Loops (q : Mpmcq) (c : Cell) (fuel : ℕ) (result : Result) (found : Option ℕ) (vs : List ℕ)
    : Type 0 where
  left : Mpmcq
  pops : pop_loop fuel (taken q c) (test_of c) ≡ some (left, result, found)
  leaves : Values left vs

-- The first node goes.
gone : Mpmcq → Cell → (next : ℕ) → Mpmcq
gone q c next = record q {
  pd = counted q.pd c.id 0;
  head = next;
  nodes = update q.nodes c.node none;
}

gone-Off : (q : Mpmcq) (c : Cell) (next : ℕ) → Off q (gone q c next) c
unfolding gone Pd.get_entry
gone-Off q c next = record {
  entry = λ i. refl;
  header = λ j away. ground (arith, away);
  ptr = λ j away. refl;
  nodes = λ a away. ground (arith, away);
}

-- The last node stays, and is consumed.
stays :
    (q : Mpmcq) (consumed : Bool) (c : Cell)
    → At q consumed c Pd.id_invalid
    → q.head ≡ c.id
    → q.tail ≡ c.id
    → Values (record q { nodes = update q.nodes c.node (some (used_up c Pd.id_invalid)) }) []
stays q consumed c at head tail = record {
  consumed = true;
  cells = c ∷ [];
  linked =
      (record { counted = at.counted; ptr = at.ptr; node = rw (test_self c.node) refl }, tt, tt);
  head = head;
  tail = tail;
  same = refl;
}

Loops-ok :
    (q : Mpmcq) (c : Cell) (cs : List Cell) (fuel : ℕ)
    → Linked q false (c ∷ cs)
    → q.head ≡ c.id
    → q.tail ≡ last_id (c ∷ cs)
    → Loops q c (suc fuel) ok (some c.value) (values cs)
unfolding gone
Loops-ok q c [] fuel (at, _, _) head tail = record {
  left = record q { nodes = update q.nodes c.node (some (used_up c Pd.id_invalid)) };
  pops = pop_loop-last q false c fuel at;
  leaves = stays q false c at head tail;
}
Loops-ok q c (d ∷ ds) fuel (at, apart, rest) head tail = record {
  left = gone q c d.id;
  pops = pop_loop-first q c d (first_id ds) fuel at rest.0 apart.0 head;
  leaves = record {
    consumed = false;
    cells = d ∷ ds;
    linked = Linked-Off false (d ∷ ds) (gone-Off q c d.id) apart rest;
    head = refl;
    tail = tail;
    same = refl;
  };
}

Loops-empty :
    (q : Mpmcq) (c : Cell) (fuel : ℕ)
    → Linked q true (c ∷ [])
    → q.head ≡ c.id
    → q.tail ≡ c.id
    → Loops q c (suc fuel) empty none []
Loops-empty q c fuel (at, _, _) head tail = record {
  left = record q { nodes = update q.nodes c.node (some (used_up c Pd.id_invalid)) };
  pops = pop_loop-last q true c fuel at;
  leaves = stays q true c at head tail;
}

abbrev pub oldest : List ℕ → Option ℕ
oldest [] = none
oldest (v ∷ vs) = some v

abbrev pub later : List ℕ → List ℕ
later [] = []
later (v ∷ vs) = vs

-- A queue that was never pushed to has no first node.
abbrev pub pop_result : Mpmcq → List ℕ → Result
pop_result q [] = if q.head == Pd.id_invalid then unknown else empty
pop_result q (v ∷ vs) = ok

-- A pop locks the first node.
pop-first :
    (q : Mpmcq) (consumed : Bool) (c : Cell) (next fuel : ℕ)
    → At q consumed c next
    → q.head ≡ c.id
    → pop fuel q ≡ pop_loop fuel (taken q c) (test_of c)
unfolding pop
pop-first q consumed c next fuel at head =
    ap (λ (q1, test). pop_loop fuel q1 test)
      (ap (lock q) head ∙ lock_lem q c.id 0 c.node at.counted (omega arith) at.ptr)

Loops-Pops :
    (q : Mpmcq) (consumed : Bool) (c : Cell) (next fuel : ℕ) {result : Result} {found : Option ℕ}
    {vs : List ℕ}
    → At q consumed c next
    → q.head ≡ c.id
    → Loops q c fuel result found vs
    → Pops q fuel result found vs
Loops-Pops q consumed c next fuel at head l = record {
  left = l.left;
  pops = pop-first q consumed c next fuel at head ∙ l.pops;
  leaves = l.leaves;
}

-- Behind a first node that was consumed, the next one is the first.
Loops-skips :
    (q : Mpmcq) (c d : Cell) (ds : List Cell) (fuel : ℕ)
    → Linked q true (c ∷ d ∷ ds)
    → q.head ≡ c.id
    → q.tail ≡ last_id (d ∷ ds)
    → Loops q c (suc (suc fuel)) ok (some d.value) (values ds)
unfolding gone
Loops-skips q c d ds fuel (at, apart, rest) head tail =
    let l =
      Loops-ok (gone q c d.id) d ds fuel (Linked-Off false (d ∷ ds) (gone-Off q c d.id) apart rest)
        refl tail in
    record {
      left = l.left;
      pops = pop_loop-skips q c d (first_id ds) (suc fuel) at rest.0 apart.0 head ∙ l.pops;
      leaves = l.leaves;
    }

pop-unused :
    (q : Mpmcq) (fuel : ℕ) → q.head ≡ Pd.id_invalid → pop (suc fuel) q ≡ some (q, unknown, none)
unfolding pop pop_loop
pop-unused q fuel head =
    let nothing : lock q q.head ≡ (q, record { node = none; id = Pd.id_invalid }) =
      ap (lock q) head ∙ lock-invalid q in
    ap (λ (q1, test). pop_loop (suc fuel) q1 test) nothing
    ∙ ap
        (λ (again : Mpmcq × LockedNode).
          if not (again.1.id == Pd.id_invalid)
          then pop_loop fuel again.0 again.1
          else elim again.1.node [ none ↦ some (again.0, unknown, none) | some _ ↦ none ])
        nothing

Pops-cells :
    (q : Mpmcq) (consumed : Bool) (cs : List Cell) (fuel : ℕ)
    → Linked q consumed cs
    → q.head ≡ first_id cs
    → q.tail ≡ last_id cs
    → Pops q
        (suc (suc fuel))
        (pop_result q (live consumed cs))
        (oldest (live consumed cs))
        (later (live consumed cs))
Pops-cells q consumed [] fuel linked head tail = record {
  left = q;
  pops =
      pop-unused q (suc fuel) head
      ∙ ap (λ (i : ℕ). some (q, if i == Pd.id_invalid then unknown else empty, none)) (sym head);
  leaves = record {
    consumed = consumed;
    cells = [];
    linked = tt;
    head = head;
    tail = tail;
    same = refl;
  };
}
Pops-cells q false (c ∷ cs) fuel linked head tail =
    Loops-Pops q false c (first_id cs) (suc (suc fuel)) linked.0 head
      (Loops-ok q c cs (suc fuel) linked head tail)
Pops-cells q true (c ∷ []) fuel linked head tail =
    let valid = linked.0.counted.valid in
    let some_id : (q.head == Pd.id_invalid) ≡ false = ground (arith, head) in
    rw some_id (
      Loops-Pops q true c Pd.id_invalid (suc (suc fuel)) linked.0 head
        (Loops-empty q c (suc fuel) linked head tail))
Pops-cells q true (c ∷ d ∷ ds) fuel linked head tail =
    Loops-Pops q true c d.id (suc (suc fuel)) linked.0 head
      (Loops-skips q c d ds fuel linked head tail)

-- A pop of a queue that holds the values `vs` returns the oldest one with `PRS_OK`, and leaves the
-- others. With none it finds nothing: it returns `PRS_EMPTY`, or `PRS_UNKNOWN` where the queue was never
-- pushed to, and leaves an empty queue. Two rounds of the loop are enough.
pub pop-Values :
    (q : Mpmcq) (vs : List ℕ) (fuel : ℕ)
    → Values q vs
    → Pops q (suc (suc fuel)) (pop_result q vs) (oldest vs) (later vs)
pop-Values q vs fuel h =
    subst (λ l. Pops q (suc (suc fuel)) (pop_result q l) (oldest l) (later l)) (sym h.same)
      (Pops-cells q h.consumed h.cells fuel h.linked h.head h.tail)
