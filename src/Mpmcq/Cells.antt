-- ===== src/Mpmcq/Cells.antt =====
-- The nodes of a queue of prs/lib/ds/mpmcq.c, the oldest first.
use prs.Base.{ℕ, ◌≡◌, ◌≢◌, sym, ◌∙◌, Bool, false, some, List, [], ◌∷◌}
use prs.Pd
use prs.Pd.{Pd}
use prs.Mpmcq.{Mpmcq}
use prs.Mpmcq.Count.{Counted}

pub record Cell : Type 0 where
  pub id : ℕ
  pub node : ℕ
  pub value : ℕ

-- The node is in the directory, with the reference of the queue, and leads to `next`.
pub record At (q : Mpmcq) (consumed : Bool) (c : Cell) (next : ℕ) : Type 0 where
  pub counted : Counted q.pd c.id 1
  pub ptr : q.pd.ptr (Pd.get_entry q.pd c.id) ≡ c.node
  pub node : q.nodes c.node ≡ some (record { next = next; consumed = consumed; value = c.value })

abbrev pub Apart : Pd → Cell → List Cell → Type 0
Apart pd c [] = Unit
Apart pd c (d ∷ ds) =
    (Pd.get_entry pd c.id ≢ Pd.get_entry pd d.id) × (c.node ≢ d.node) × Apart pd c ds

abbrev pub first_id : List Cell → ℕ
first_id [] = Pd.id_invalid
first_id (c ∷ cs) = c.id

abbrev pub last_id : List Cell → ℕ
last_id [] = Pd.id_invalid
last_id (c ∷ []) = c.id
last_id (c ∷ d ∷ ds) = last_id (d ∷ ds)

-- The first node may be consumed, the others are not.
abbrev pub Linked : Mpmcq → (consumed : Bool) → List Cell → Type 0
Linked q consumed [] = Unit
Linked q consumed (c ∷ cs) = At q consumed c (first_id cs) × Apart q.pd c cs × Linked q false cs

-- A change of one entry and one node.
pub record Off (q q' : Mpmcq) (x : Cell) : Type 0 where
  pub entry : (i : ℕ) → Pd.get_entry q'.pd i ≡ Pd.get_entry q.pd i
  pub header : (j : ℕ) → j ≢ Pd.get_entry q.pd x.id → q'.pd.header j ≡ q.pd.header j
  pub ptr : (j : ℕ) → j ≢ Pd.get_entry q.pd x.id → q'.pd.ptr j ≡ q.pd.ptr j
  pub nodes : (a : ℕ) → a ≢ x.node → q'.nodes a ≡ q.nodes a

pub At-Off :
    {q q' : Mpmcq} {x c : Cell} {consumed : Bool} {next : ℕ}
    → Off q q' x
    → Pd.get_entry q.pd x.id ≢ Pd.get_entry q.pd c.id
    → x.node ≢ c.node
    → At q consumed c next
    → At q' consumed c next
At-Off {q} {q'} {x} {c} off entry node at =
    let away : Pd.get_entry q.pd c.id ≢ Pd.get_entry q.pd x.id = λ e. entry (sym e) in
    record {
      counted = record {
        valid = at.counted.valid;
        few = at.counted.few;
        header = rw (off.entry c.id, off.header (Pd.get_entry q.pd c.id) away) at.counted.header;
      };
      ptr = rw (off.entry c.id, off.ptr (Pd.get_entry q.pd c.id) away) at.ptr;
      node = off.nodes c.node (λ e. node (sym e)) ∙ at.node;
    }

pub Apart-Off :
    {q q' : Mpmcq} {x : Cell} (c : Cell) (cs : List Cell)
    → Off q q' x
    → Apart q.pd c cs
    → Apart q'.pd c cs
Apart-Off c [] off apart = tt
Apart-Off c (d ∷ ds) off apart =
    (rw (off.entry c.id, off.entry d.id) apart.0, apart.1, Apart-Off c ds off apart.2)

pub Linked-Off :
    {q q' : Mpmcq} {x : Cell} (consumed : Bool) (cs : List Cell)
    → Off q q' x
    → Apart q.pd x cs
    → Linked q consumed cs
    → Linked q' consumed cs
Linked-Off consumed [] off apart l = tt
Linked-Off consumed (c ∷ cs) off apart l =
    (At-Off off apart.0 apart.1 l.0, Apart-Off c cs off l.1, Linked-Off false cs off apart.2 l.2)
