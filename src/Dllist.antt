-- ===== src/Dllist.antt =====
-- prs/lib/ds/dllist.c: the doubly linked list that allocates its nodes. `live` says which addresses
-- hold a node that is allocated; the links and the data of the nodes are one memory, which the
-- list's record carries.
pub mod Laws
mod Tests
use prs.Base.{ℕ, zero, suc, Bool, true, false, Option, none, some, ◌==◌, if◌then◌else◌, update}
use prs.Base.Result.{Result, ok, out_of_memory}
use prs.Chain.{Chain, link, unlink}

pub record Dllist : Type 0 where
  pub chain : Chain
  pub content : ℕ → ℕ
  pub live : ℕ → Bool

-- What the record of the list holds when `malloc` has given memory for it.
unfoldable pub create :
    (memory : Bool) → Chain → (content : ℕ → ℕ) → (live : ℕ → Bool) → Option Dllist
create memory c content live =
    if memory
    then some (record {
      chain = record c { head = 0; tail = 0; size = 0 };
      content = content;
      live = live;
    })
    else none

-- `node` is what `malloc` returns.
unfoldable pub insert_before : (node : ℕ) → Dllist → (before element : ℕ) → Dllist × Result
insert_before node l before element = if node == 0 then (l, out_of_memory) else (
  record {
    chain = link l.chain before node;
    content = update l.content node element;
    live = update l.live node true;
  },
  ok,
)

unfoldable pub remove : Dllist → ℕ → Dllist
remove l node = record l { chain = unlink l.chain node; live = update l.live node false }

unfoldable pub begin : Dllist → ℕ
begin l = l.chain.head

unfoldable pub end_of : Dllist → ℕ
end_of l = 0

unfoldable pub next : Dllist → ℕ → ℕ
next l node = l.chain.next node

unfoldable pub get_data : Dllist → ℕ → ℕ
get_data l node = l.content node

unfoldable pub is_empty : Dllist → Bool
is_empty l = l.chain.size == 0

unfoldable pub size : Dllist → ℕ
size l = l.chain.size

-- The loop of `prs_dllist_destroy`; `none` if the fuel runs out.
unfoldable pub destroy_loop : ℕ → Dllist → Option Dllist
destroy_loop zero l = none
destroy_loop (suc fuel) l =
    let rest = destroy_loop fuel (remove l (begin l)) in if begin l == 0 then some l else rest

unfoldable pub destroy : Dllist → Option Dllist
unfolding destroy_loop
destroy l = destroy_loop (suc l.chain.size) l
