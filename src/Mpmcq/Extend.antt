-- ===== src/Mpmcq/Extend.antt =====
-- The nodes of a queue of prs/lib/ds/mpmcq.c with a new one behind the last.
use prs.Base.{
  ℕ, ◌≡◌, ◌≢◌, refl, ap, subst, sym, Bool, true, false, some, List, [], ◌∷◌, ◌++◌, ◌==◌, update,
  test_self, arith,
}
use prs.Pd
use prs.Pd.{Pd}
use prs.Mpmcq.{Mpmcq}
use prs.Mpmcq.Cells.{Cell, At, Apart, last_id, Linked}
use prs.Mpmcq.Values.{values, live}

abbrev pub last_cell : Cell → List Cell → Cell
last_cell c [] = c
last_cell c (d ∷ ds) = last_cell d ds

-- Only the first node may be consumed.
abbrev pub last_consumed : Bool → List Cell → Bool
last_consumed consumed [] = consumed
last_consumed consumed (d ∷ ds) = false

pub last_id_lem : (c : Cell) (cs : List Cell) → last_id (c ∷ cs) ≡ (last_cell c cs).id
last_id_lem c [] = refl
last_id_lem c (d ∷ ds) = last_id_lem d ds

pub last-At :
    (q : Mpmcq) (consumed : Bool) (c : Cell) (cs : List Cell)
    → Linked q consumed (c ∷ cs)
    → At q (last_consumed consumed cs) (last_cell c cs) Pd.id_invalid
last-At q consumed c [] (at, _, _) = at
last-At q consumed c (d ∷ []) (at, _, rest) = rest.0
last-At q consumed c (d ∷ e ∷ es) (at, _, rest) = last-At q false d (e ∷ es) rest

-- The last node leads to the new one.
abbrev pub extended : Mpmcq → (consumed : Bool) → (last : Cell) → (id : ℕ) → Mpmcq
extended q consumed last id = record q {
  tail = id;
  nodes =
      update q.nodes last.node
        (some (record { next = id; consumed = consumed; value = last.value }));
}

Apart-last :
    (pd : Pd) (c d : Cell) (ds : List Cell) → Apart pd c (d ∷ ds) → c.node ≢ (last_cell d ds).node
Apart-last pd c d [] apart = apart.1
Apart-last pd c d (e ∷ es) apart = Apart-last pd c e es apart.2

Apart-append :
    (pd : Pd) (c x : Cell) (ds : List Cell)
    → Apart pd c ds
    → Pd.get_entry pd x.id ≢ Pd.get_entry pd c.id
    → x.node ≢ c.node
    → Apart pd c (ds ++ x ∷ [])
Apart-append pd c x [] apart entry node = (λ e. entry (sym e), λ e. node (sym e), tt)
Apart-append pd c x (d ∷ ds) apart entry node =
    (apart.0, apart.1, Apart-append pd c x ds apart.2 entry node)

-- The other nodes are as they were.
At-extended :
    {q : Mpmcq} {consumed : Bool} {c : Cell} {next : ℕ} (consumed' : Bool) (last : Cell) (id : ℕ)
    → At q consumed c next
    → c.node ≢ last.node
    → At (extended q consumed' last id) consumed c next
At-extended {c} consumed' last id at away =
    let test : (c.node == last.node) ≡ false = ground (arith, away) in
    record { counted = at.counted; ptr = at.ptr; node = rw test at.node }

last_consumed_lem : (cs : List Cell) → last_consumed false cs ≡ false
last_consumed_lem [] = refl
last_consumed_lem (c ∷ cs) = refl

pub Linked-extended :
    (q : Mpmcq) (consumed : Bool) (c : Cell) (cs : List Cell) (x : Cell)
    → Linked q consumed (c ∷ cs)
    → Apart q.pd x (c ∷ cs)
    → At q false x Pd.id_invalid
    → Linked
        (extended q (last_consumed consumed cs) (last_cell c cs) x.id)
        consumed
        (c ∷ cs ++ x ∷ [])
Linked-extended q consumed c [] x (at, _, _) apart new = (
  record { counted = at.counted; ptr = at.ptr; node = rw (test_self c.node) refl },
  Apart-append q.pd c x [] tt apart.0 apart.1,
  (At-extended consumed c x.id new apart.1, tt, tt),
)
Linked-extended q consumed c (d ∷ ds) x (at, away, rest) apart new = (
  At-extended false (last_cell d ds) x.id at (Apart-last q.pd c d ds away),
  Apart-append q.pd c x (d ∷ ds) away apart.0 apart.1,
  subst (λ (b : Bool). Linked (extended q b (last_cell d ds) x.id) false (d ∷ ds ++ x ∷ []))
      (last_consumed_lem ds) (Linked-extended q false d ds x rest apart.2 new),
)

values-append : (cs : List Cell) (x : Cell) → values (cs ++ x ∷ []) ≡ values cs ++ x.value ∷ []
values-append [] x = refl
values-append (c ∷ cs) x = ap (λ l. c.value ∷ l) (values-append cs x)

pub live-append :
    (consumed : Bool) (c : Cell) (cs : List Cell) (x : Cell)
    → live consumed (c ∷ cs ++ x ∷ []) ≡ live consumed (c ∷ cs) ++ x.value ∷ []
live-append true c cs x = values-append cs x
live-append false c cs x = ap (λ l. c.value ∷ l) (values-append cs x)

pub last_id-append : (c : Cell) (cs : List Cell) (x : Cell) → last_id (c ∷ cs ++ x ∷ []) ≡ x.id
last_id-append c [] x = refl
last_id-append c (d ∷ ds) x = last_id-append d ds x
