-- ===== src/Mpscq.antt =====
-- prs/lib/ds/mpscq.c: the queue of values that many workers push to and one consumes. Its links are kept
-- as those of prs/lib/ds/mpsciq.c are: the search for the oldest node, and the removal of a node, assign
-- the same fields in the same order. A node is an allocation of its own; the links of an address that is
-- not allocated read as null, so that a removal clears those of the node that it frees. The operations
-- run one at a time.
pub mod Values
mod Tests
use prs.Base.{ℕ, zero, suc, Bool, true, false, Option, none, some, ◌==◌, if◌then◌else◌, update}
use prs.Base.Partial.{◌>>=◌}
use prs.Base.Result.{Result, ok, out_of_memory}
use prs.Mpsciq
use prs.Mpsciq.{Mpsciq}

pub record Mpscq : Type 0 where
  pub links : Mpsciq
  pub data_of : ℕ → ℕ

unfoldable pub create : (memory : Bool) → Option Mpscq
create memory =
    if memory
    then some (record {
      links = record {
        next = λ node. 0;
        prev = λ node. 0;
        head = 0;
        reverse_tail = 0;
        reverse_head = 0;
        node_offset = 0;
      };
      data_of = λ node. 0;
    })
    else none

-- `node` is what `malloc` returns.
unfoldable pub push : Mpscq → (node value : ℕ) → Mpscq × Result
push q node value = if node == 0 then (q, out_of_memory) else (
  record {
    links = record q.links {
      next = update q.links.next node q.links.head;
      prev = update q.links.prev node 0;
      head = node;
    };
    data_of = update q.data_of node value;
  },
  ok,
)

unfoldable pub remove : ℕ → Mpscq → (node : ℕ) → Option Mpscq
unfolding Mpsciq.remove
remove fuel q node = Mpsciq.remove fuel q.links node >>= λ links. some (record q { links = links })

-- The queue with its links built, and its oldest node.
unfoldable pub begin : ℕ → Mpscq → Option (Mpscq × ℕ)
unfolding Mpsciq.begin
begin fuel q = Mpsciq.begin fuel q.links >>= λ r. some (record q { links = r.0 }, r.1)

-- The loop of `prs_mpscq_destroy`, at most `rounds` times: what is left of the queue.
unfoldable pub destroy : (rounds fuel : ℕ) → Mpscq → Option Mpscq
unfolding begin remove
destroy zero fuel q = none
destroy (suc rounds) fuel q = do
  (q', node) ← begin fuel q
  let rest = remove fuel q' node >>= λ removed. destroy rounds fuel removed
  if node == 0 then some q' else rest

unfoldable pub rbegin : Mpscq → ℕ
rbegin q = q.links.head

unfoldable pub end_of : Mpscq → ℕ
end_of q = 0

unfoldable pub next_of : Mpscq → (node : ℕ) → ℕ
next_of q node = q.links.prev node

unfoldable pub prev_of : Mpscq → (node : ℕ) → ℕ
prev_of q node = q.links.next node

unfoldable pub get_data : Mpscq → (node : ℕ) → ℕ
get_data q node = q.data_of node

unfoldable pub is_inserted : ℕ → Mpscq → (node : ℕ) → Option (Mpscq × Bool)
unfolding Mpsciq.is_inserted
is_inserted fuel q node =
    Mpsciq.is_inserted fuel q.links node >>= λ r. some (record q { links = r.0 }, r.1)
