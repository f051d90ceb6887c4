-- ===== src/Chain.antt =====
-- The pointer work that prs/lib/ds/idllist.c and prs/lib/ds/dllist.c have in common: the links of
-- the nodes, a list's head, tail and size, and the assignments that link a node in and out. A node
-- is its address, and 0 is null.
pub mod Seg
pub mod Link
pub mod Walk
use prs.Base.{ℕ, zero, suc, ◌+◌, Bool, true, false, ◌==◌, if◌then◌else◌, word, sub_word, update}

pub record Chain : Type 0 where
  pub next : ℕ → ℕ
  pub prev : ℕ → ℕ
  pub head : ℕ
  pub tail : ℕ
  pub size : ℕ

-- An assignment through a pointer, which the code guards by the pointer.
abbrev pub update_if : (ℕ → ℕ) → ℕ → ℕ → ℕ → ℕ
update_if f p v = if p == 0 then f else update f p v

-- The assignments of `prs_idllist_insert_before` and `prs_dllist_insert_before` with `next` and
-- `prev` computed.
unfoldable pub link_between : Chain → (next prev node : ℕ) → Chain
link_between c next prev node = record {
  next = update_if (update c.next node next) prev node;
  prev = update_if (update c.prev node prev) next node;
  head = if next == c.head then node else c.head;
  tail = if prev == c.tail then node else c.tail;
  size = word (c.size + 1);
}

-- `before ? before->prev : list->tail`.
unfoldable pub prev_of : Chain → ℕ → ℕ
prev_of c before = if before == 0 then c.tail else c.prev before

unfoldable pub link : Chain → (before node : ℕ) → Chain
unfolding link_between prev_of
link c before node = link_between c before (prev_of c before) node

-- The assignments of `prs_idllist_remove` and `prs_dllist_remove` on the rest of the list.
unfoldable pub unlink_between : Chain → (next prev node : ℕ) → Chain
unlink_between c next prev node = record {
  next = update_if c.next prev next;
  prev = update_if c.prev next prev;
  head = if node == c.head then next else c.head;
  tail = if node == c.tail then prev else c.tail;
  size = sub_word c.size 1;
}

unfoldable pub unlink : Chain → ℕ → Chain
unfolding unlink_between
unlink c node = unlink_between c (c.next node) (c.prev node) node

-- The loop of `prs_idllist_is_inserted`, on fuel.
unfoldable pub search_from : ℕ → (ℕ → ℕ) → (node search : ℕ) → Bool
search_from zero next node search = false
search_from (suc fuel) next node search =
    let rest = search_from fuel next node (next search) in
    if search == 0 then false else (if search == node then true else rest)
