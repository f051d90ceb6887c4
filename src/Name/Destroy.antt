-- ===== src/Name/Destroy.antt =====
-- `prs_name_destroy` of prs/name.c on the nodes in memory. Nodes are named by their addresses, 0 is null.
use prs.Base.{
  ℕ, zero, suc, ◌+◌, ◌<◌, ◌≤◌, ◌≡◌, ◌≢◌, refl, ap, sym, ◌∙◌, Bool, false, arith, ◌==◌,
  if◌then◌else◌, update, test_self, inl, inr, ◌⊎◌, Bool-cases,
}

-- The pointers to the first nodes of the entries, the pointers in the nodes, and which nodes are allocated.
pub record Nodes : Type 0 where
  pub lists : ℕ → ℕ
  pub next : ℕ → ℕ
  pub live : ℕ → Bool

-- What `node_ptr` points to: the pointer in an entry of the table, or the one in a node.
pub data NodePtr : Type 0 where
  list_of next_in : ℕ → NodePtr

-- How a destruction ends: with the nodes that are left, with a load from a node that is freed, or not
-- within the rounds.
pub data DestroyEnd : Type 0 where
  destroyed : Nodes → DestroyEnd
  reads_freed : (node : ℕ) → DestroyEnd
  out_of_rounds : DestroyEnd

unfoldable pub load : Nodes → NodePtr → DestroyEnd ⊎ ℕ
load m (list_of i) = inr (m.lists i)
load m (next_in node) = if m.live node then inr (m.next node) else inl (reads_freed node)

unfoldable pub free_node : Nodes → (node : ℕ) → Nodes
free_node m node = record m { live = update m.live node false }

-- The loop on one list.
unfoldable pub destroy_list : (rounds : ℕ) → Nodes → (node_ptr : NodePtr) → DestroyEnd
unfolding load free_node
destroy_list zero m node_ptr = out_of_rounds
destroy_list (suc rounds) m node_ptr = elim (load m node_ptr) [
  | inl fails ↦ fails
  | inr node ↦
      let rest = destroy_list rounds (free_node m node) (next_in node) in
      if node == 0 then destroyed m else rest
]

-- The entries from `i` on, with the number of them left.
unfoldable pub destroy_entries : (left rounds : ℕ) → Nodes → (i : ℕ) → DestroyEnd
destroy_entries zero rounds m i = destroyed m
destroy_entries (suc left) rounds m i = elim (destroy_list rounds m (list_of i)) [
  | destroyed m' ↦ destroy_entries left rounds m' (i + 1)
  | reads_freed node ↦ reads_freed node
  | out_of_rounds ↦ out_of_rounds
]

unfoldable pub destroy : (max_entries rounds : ℕ) → Nodes → DestroyEnd
destroy max_entries rounds m = destroy_entries max_entries rounds m 0

list-empty :
    (rounds : ℕ) (m : Nodes) (i : ℕ)
    → m.lists i ≡ 0
    → destroy_list (suc rounds) m (list_of i) ≡ destroyed m
unfolding destroy_list load
list-empty rounds m i empty = rw empty refl

list-first :
    (rounds : ℕ) (m : Nodes) (i : ℕ)
    → m.lists i ≢ 0
    → destroy_list (suc (suc rounds)) m (list_of i) ≡ reads_freed (m.lists i)
unfolding destroy_list load free_node
list-first rounds m i some_node =
    let test : (m.lists i == 0) ≡ false = ground (arith, some_node) in
    rw (test, test_self (m.lists i)) refl

entries-first :
    (left rounds : ℕ) (m : Nodes) (i j : ℕ)
    → i ≤ j
    → j < i + left
    → ((k : ℕ) → i ≤ k → k < j → m.lists k ≡ 0)
    → m.lists j ≢ 0
    → destroy_entries left (suc (suc rounds)) m i ≡ reads_freed (m.lists j)
unfolding destroy_entries
entries-first zero rounds m i j lo hi empty some_node = absurd (omega arith)
entries-first (suc left) rounds m i j lo hi empty some_node = elim (Bool-cases (i == j)) [
  | inl e ↦
      let same : i ≡ j = ground arith in
      let here : m.lists i ≢ 0 = λ none_there. some_node (ap m.lists (sym same) ∙ none_there) in
      rw (destroy_entries, list-first rounds m i here) (ap (λ k. reads_freed (m.lists k)) same)
  | inr e ↦
      let before : i < j = ground arith in
      rw (destroy_entries, list-empty (suc rounds) m i (empty i (omega arith) before))
        (entries-first left rounds m (i + 1) j (omega arith) (omega arith)
          (λ k above below. empty k (omega arith) below) some_node)
]

-- `prs_name_destroy` of a table to which a name was added loads a pointer from a node that it has freed:
-- from the first node of the first list that has one, in the second round on that list.
pub destroy-reads_freed :
    (max_entries rounds : ℕ) (m : Nodes) (j : ℕ)
    → j < max_entries
    → ((k : ℕ) → k < j → m.lists k ≡ 0)
    → m.lists j ≢ 0
    → destroy max_entries (suc (suc rounds)) m ≡ reads_freed (m.lists j)
unfolding destroy
destroy-reads_freed max_entries rounds m j hi empty some_node =
    entries-first max_entries rounds m 0 j (omega arith) (omega arith) (λ k lo below. empty k below)
      some_node
