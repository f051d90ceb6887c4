-- ===== src/Task.antt =====
-- prs/task.c and prs/task.h: the token of a task, one word that holds the state of the task, the
-- cause of its last unblocking and a count of the changes, and the operations on it. Assertions are
-- on: a failed one ends the program, which `none` stands for.
pub mod Token
pub mod Laws
pub mod Lifecycle
pub mod Destroy
pub mod Create
mod Tests
use prs.Base.{
  ℕ, ◌+◌, ◌-◌, ◌*◌, ◌/◌, ◌^◌, Bool, true, false, not, Option, none, some, bit_and, bit_or, ◌==◌,
  if◌then◌else◌, word,
}

-- `enum prs_task_state`, as the numbers that a token holds.
abbrev pub stopped : ℕ
stopped = 0

abbrev pub ready : ℕ
ready = 1

abbrev pub running : ℕ
running = 2

abbrev pub blocked : ℕ
blocked = 3

abbrev pub zombie : ℕ
zombie = 4

abbrev pub state_bits : ℕ
state_bits = 4

abbrev pub cause_bits : ℕ
cause_bits = 8

abbrev pub count_bits : ℕ
count_bits = 64 - state_bits - cause_bits

abbrev pub state_mask : ℕ
state_mask = 2 ^ state_bits - 1

abbrev pub cause_mask : ℕ
cause_mask = (2 ^ cause_bits - 1) * 2 ^ state_bits

-- The complement of the two masks below it.
abbrev pub count_mask : ℕ
count_mask = (2 ^ count_bits - 1) * 2 ^ (state_bits + cause_bits)

unfoldable pub get_state_of : ℕ → ℕ
get_state_of token = bit_and token state_mask

unfoldable pub get_cause_of : ℕ → ℕ
get_cause_of token = bit_and token cause_mask / 2 ^ state_bits

unfoldable pub get_count_of : ℕ → ℕ
get_count_of token = bit_and token count_mask / 2 ^ (state_bits + cause_bits)

unfoldable pub set_token : (s ca co : ℕ) → ℕ
set_token s ca co =
    bit_or
      (bit_or (word (co * 2 ^ (state_bits + cause_bits)))
        (bit_and (word (ca * 2 ^ state_bits)) cause_mask))
      (bit_and s state_mask)

abbrev pub count_increment : ℕ
count_increment = 2 ^ (state_bits + cause_bits)

-- The members that the operations on the token use.
pub record Task : Type 0 where
  pub id : ℕ
  pub state : ℕ

unfoldable pub get_state : Task → ℕ
get_state task = get_state_of task.state

unfoldable pub change_state : Task → (expected_state new_state : ℕ) → Option Task
change_state task expected_state new_state =
    let token = task.state in
    let state_before = get_state_of token in
    let new_token =
      set_token new_state (get_cause_of token) (word (get_count_of token + count_increment)) in
    if state_before == expected_state then some (record task { state = new_token }) else none

-- With the token that `prs_task_unblock` takes.
unfoldable pub block : Task → Option (Task × ℕ)
block task =
    let token = task.state in
    let new_token = set_token blocked 0 (word (get_count_of token + count_increment)) in
    if not (get_state_of token == blocked)
    then some (record task { state = new_token }, new_token)
    else none

-- What `prs_task_unblock` exchanges in.
unfoldable pub unblock_token : (is_current_task : Bool) → (token cause : ℕ) → ℕ
unblock_token is_current_task token cause =
    set_token (if is_current_task then running else ready) cause
      (word (get_count_of token + count_increment))

-- The task, the result, and whether the task goes to `prs_sched_ready`. `is_current_task` says that
-- `prs_task_current` returns the task.
unfoldable pub unblock : (is_current_task : Bool) → Task → (token cause : ℕ) → Task × Bool × Bool
unblock is_current_task task token cause =
    if task.state == token
    then (
      record task { state = unblock_token is_current_task token cause },
      true,
      not is_current_task,
    )
    else (task, false, false)

unfoldable pub get_last_unblock_cause : Task → ℕ
get_last_unblock_cause task = get_cause_of task.state
