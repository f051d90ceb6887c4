-- ===== src/God/Steps.antt =====
-- The references to one entry of prs/god.c, in any interleaving of the functions of several workers.
-- Each step is the one access to the header that takes effect: the store, or the compare-and-exchange
-- that succeeds, on the header that it replaces. Attempts that fail, and functions that return early,
-- change nothing.
use prs.Base.{inr, if◌then◌else◌, ◌==◌, ℕ, suc, ◌+◌, ◌^◌, ◌<◌, ◌≡◌, true, some, bit_and}
use prs.God.Header.{
  header_refcnt, test_flag, try_unlock_next, header_id, reserved_header, used_header, is_free,
  lock_next, unlock_next,
}

-- Where the entry stands: free under its last ID; taken by a worker that has yet to store the object;
-- in use; without references, while `free` of the object runs.
pub data Phase : Type 0 where
  idle reserving in_use freeing : Phase

-- `refs` counts the references that were handed out and not given back, `frees` the calls of `free`
-- since the ID `id` was allocated.
pub record State : Type 0 where
  pub header : ℕ
  pub phase : Phase
  pub id : ℕ
  pub refs : ℕ
  pub frees : ℕ

abbrev pub state : ℕ → Phase → (id refs frees : ℕ) → State
state h p i r n = record { header = h; phase = p; id = i; refs = r; frees = n }

-- The phase behind an unlock that stored `new_header`, and the calls of `free`.
unfoldable pub left : (new_header : ℕ) → Phase
unfolding test_flag
left new_header = if test_flag new_header header_refcnt == 0 then freeing else in_use

unfoldable pub called : (new_header n : ℕ) → ℕ
unfolding test_flag
called new_header n = if test_flag new_header header_refcnt == 0 then n + 1 else n

-- The worker that reserves the entry holds the first reference; a worker that unlocks holds one.
pub data Step : State → State → Type 0 where
  reserves :
      {h old i n : ℕ}
      → i < 2 ^ 32
      → is_free h i ≡ true
      → Step (state h idle old 0 n) (state (reserved_header i) reserving i 1 0)
  publishes :
      {i : ℕ}
      → Step
          (state (reserved_header i) reserving i 1 0)
          (state (used_header (reserved_header i)) in_use i 1 0)
  locks :
      {h g i r n : ℕ} {p : Phase} (id : ℕ)
      → lock_next id h ≡ some g
      → Step (state h p i r n) (state g p i (r + 1) n)
  unlocks :
      {h g i r n : ℕ}
      → unlock_next i h ≡ some g
      → Step (state h in_use i (suc r) n) (state g (left g) i r (called g n))
  unlocks_final :
      {h g i r n : ℕ}
      → try_unlock_next i h ≡ inr g
      → Step (state h in_use i (suc r) n) (state g freeing i r (n + 1))
  frees : {h i n : ℕ} → Step (state h freeing i 0 n) (state (bit_and h header_id) idle i 0 n)

pub data Steps : State → State → Type 0 where
  stay : {s : State} → Steps s s
  step : {s t u : State} → Steps s t → Step t u → Steps s u

-- The entry as `prs_god_create` leaves it.
abbrev pub start : State
start = state 0 idle 0 0 0
