-- ===== src/Idllist.antt =====
-- prs/lib/ds/idllist.c: the intrusive doubly linked list. The links of all nodes are one memory,
-- which the list's record carries; `DEBUG` is off, so nodes have no `list` field.
pub mod Laws
mod Tests
use prs.Base.{
  ℕ, zero, suc, ◌+◌, Bool, true, false, Option, none, some, ◌==◌, if◌then◌else◌, update, sub_word,
  word,
}
use prs.Chain.{Chain, link, unlink, search_from}

pub record Idllist : Type 0 where
  pub chain : Chain
  pub node_offset : ℕ

-- `next` and `prev` are the links of the nodes that exist.
unfoldable pub create : (memory : Bool) → (node_offset : ℕ) → (next prev : ℕ → ℕ) → Option Idllist
create memory node_offset next prev =
    if memory
    then some (record {
      chain = record { next = next; prev = prev; head = 0; tail = 0; size = 0 };
      node_offset = node_offset;
    })
    else none

unfoldable pub insert_before : Idllist → (before node : ℕ) → Idllist
insert_before l before node =
    if l.chain.next node == 0
    then (if l.chain.prev node == 0 then record l { chain = link l.chain before node } else l)
    else l

-- `node->next = 0; node->prev = 0` between the links of the rest and the size.
unfoldable pub clear_node : Chain → ℕ → Chain
clear_node c node = record c { next = update c.next node 0; prev = update c.prev node 0 }

unfoldable pub remove : Idllist → ℕ → Idllist
unfolding clear_node
remove l node = record l { chain = clear_node (unlink l.chain node) node }

unfoldable pub begin : Idllist → ℕ
begin l = l.chain.head

unfoldable pub end_of : Idllist → ℕ
end_of l = 0

unfoldable pub next : Idllist → ℕ → ℕ
next l node = l.chain.next node

-- The address of the element that a node is part of.
unfoldable pub get_data : Idllist → ℕ → ℕ
get_data l node = sub_word node l.node_offset

unfoldable pub is_empty : Idllist → Bool
is_empty l = l.chain.size == 0

unfoldable pub size : Idllist → ℕ
size l = l.chain.size

-- The loop runs on a round more than the list has nodes.
unfoldable pub is_inserted : Idllist → ℕ → Bool
is_inserted l node = search_from (suc l.chain.size) l.chain.next node (begin l)

-- The loop of `prs_idllist_destroy`: the links that it leaves, or `none` if the fuel runs out.
unfoldable pub destroy_loop : ℕ → Idllist → Option Idllist
destroy_loop zero l = none
destroy_loop (suc fuel) l =
    let rest = destroy_loop fuel (remove l (begin l)) in if begin l == 0 then some l else rest

unfoldable pub destroy : Idllist → Option Idllist
unfolding destroy_loop
destroy l = destroy_loop (suc l.chain.size) l
