-- ===== src/Mpsciq.antt =====
-- prs/lib/ds/mpsciq.c: the intrusive queue that many workers push to and one consumes, the ready
-- queue of the schedulers. `head` is the newest node and `next` leads to older ones; the consumer
-- builds the `prev` links from the oldest node, `reverse_head`, up to `reverse_tail` when it needs
-- them. The operations run one at a time, so a compare-and-exchange succeeds at its first attempt;
-- `DEBUG` and the two check options are off.
pub mod Queue
pub mod Reverse
pub mod Remove
pub mod Laws
pub mod Content
mod Tests
use prs.Base.{
  ℕ, zero, suc, Bool, true, false, Option, none, some, ◌==◌, if◌then◌else◌, update, sub_word,
}
use prs.Chain.{update_if, search_from}

pub record Mpsciq : Type 0 where
  pub next : ℕ → ℕ
  pub prev : ℕ → ℕ
  pub head : ℕ
  pub reverse_tail : ℕ
  pub reverse_head : ℕ
  pub node_offset : ℕ

-- `next` and `prev` are the links of the nodes that exist.
unfoldable pub create : (memory : Bool) → (node_offset : ℕ) → (next prev : ℕ → ℕ) → Option Mpsciq
create memory node_offset next prev =
    if memory
    then some (record {
      next = next;
      prev = prev;
      head = 0;
      reverse_tail = 0;
      reverse_head = 0;
      node_offset = node_offset;
    })
    else none

-- The loop of `prs_mpsciq_build_reverse` from `node` on, on fuel: the `prev` links and the last node.
unfoldable pub build_loop : ℕ → (next prev : ℕ → ℕ) → (reverse_tail node : ℕ) → Option ((ℕ → ℕ) × ℕ)
build_loop zero next prev reverse_tail node = none
build_loop (suc fuel) next prev reverse_tail node =
    let prev' = update_if prev (next node) node in
    let rest = build_loop fuel next prev' reverse_tail (next node) in
    if next node == reverse_tail then some (prev', node) else rest

-- What follows the loop.
unfoldable pub built : Mpsciq → ℕ → (ℕ → ℕ) × ℕ → Mpsciq
built q head (prev, last) = record q {
  prev = prev;
  reverse_head = if q.reverse_head == 0 then last else q.reverse_head;
  reverse_tail = head;
}

unfoldable pub build_reverse : ℕ → Mpsciq → ℕ → Option Mpsciq
build_reverse fuel q head =
    if head == q.reverse_tail
    then some q
    else elim (build_loop fuel q.next q.prev q.reverse_tail head) [
      | none ↦ none
      | some r ↦ some (built q head r)
    ]

unfoldable pub push : Mpsciq → ℕ → Mpsciq
push q node =
    if q.next node == 0
    then (if q.prev node == 0
        then record q { next = update q.next node q.head; head = node }
        else q)
    else q

-- The part of `prs_mpsciq_remove` behind `prs_mpsciq_build_reverse`.
unfoldable pub unlink_node : Mpsciq → ℕ → Mpsciq
unlink_node q node =
    let next = q.next node in
    let prev = q.prev node in
    record q {
      next = update (update_if q.next prev next) node 0;
      prev = update (update_if q.prev next prev) node 0;
      reverse_head = if node == q.reverse_head then prev else q.reverse_head;
      reverse_tail = if node == q.reverse_tail then next else q.reverse_tail;
    }

unfoldable pub remove : ℕ → Mpsciq → ℕ → Option Mpsciq
remove fuel q node =
    if node == q.head
    then some (unlink_node (record q { head = q.next node }) node)
    else elim (build_reverse fuel q q.head) [ none ↦ none | some r ↦ some (unlink_node r node) ]

-- The queue with its links built, and its oldest node.
unfoldable pub begin : ℕ → Mpsciq → Option (Mpsciq × ℕ)
begin fuel q = elim (build_reverse fuel q q.head) [
  | none ↦ none
  | some r ↦ some (r, r.reverse_head)
]

unfoldable pub rbegin : Mpsciq → ℕ
rbegin q = q.head

unfoldable pub end_of : Mpsciq → ℕ
end_of q = 0

unfoldable pub next_of : Mpsciq → ℕ → ℕ
next_of q node = q.prev node

unfoldable pub prev_of : Mpsciq → ℕ → ℕ
prev_of q node = q.next node

unfoldable pub get_data : Mpsciq → ℕ → ℕ
get_data q node = sub_word node q.node_offset

unfoldable pub is_inserted : ℕ → Mpsciq → ℕ → Option (Mpsciq × Bool)
is_inserted fuel q node = elim (begin fuel q) [
  | none ↦ none
  | some (r, first) ↦ some (r, search_from fuel r.prev node first)
]
