-- ===== src/Task/Token.antt =====
-- The token of prs/task.c as three fields.
use prs.Base.{ℕ, ◌+◌, ◌-◌, ◌*◌, ◌%◌, ◌^◌, ◌<◌, ◌≡◌, ◌∙◌, arith, bit_and, bit_or, word}
use prs.Base.Bits.{bit_and-low, bit_and-field, bit_or-add}
use prs.Task.{get_state_of, get_cause_of, get_count_of, set_token}

abbrev pub token_of : (state cause count : ℕ) → ℕ
token_of state cause count = count * 2 ^ 12 + (cause * 2 ^ 4 + state)

pub get_state-token : (s ca co : ℕ) → s < 2 ^ 4 → get_state_of (token_of s ca co) ≡ s
unfolding get_state_of
get_state-token s ca co h = bit_and-low 4 (token_of s ca co) ∙ omega (arith, h)

pub get_cause-token : (s ca co : ℕ) → s < 2 ^ 4 → ca < 2 ^ 8 → get_cause_of (token_of s ca co) ≡ ca
unfolding get_cause_of
get_cause-token s ca co h k = omega (arith, bit_and-field 4 8 (token_of s ca co), h, k)

pub get_count-token :
    (s ca co : ℕ) → s < 2 ^ 4 → ca < 2 ^ 8 → co < 2 ^ 52 → get_count_of (token_of s ca co) ≡ co
unfolding get_count_of
get_count-token s ca co h k l = omega (arith, bit_and-field 12 52 (token_of s ca co), h, k, l)

-- The count wraps at 52 bits.
pub set_token-token :
    (s ca co : ℕ) → s < 2 ^ 4 → ca < 2 ^ 8 → set_token s ca co ≡ token_of s ca (co % 2 ^ 52)
unfolding set_token
set_token-token s ca co h k =
    let count : word (co * 2 ^ 12) ≡ co % 2 ^ 52 * 2 ^ 12 = omega arith in
    let cause : bit_and (word (ca * 2 ^ 4)) ((2 ^ 8 - 1) * 2 ^ 4) ≡ ca * 2 ^ 4 =
      omega (arith, bit_and-field 4 8 (word (ca * 2 ^ 4)), k) in
    let state : bit_and s (2 ^ 4 - 1) ≡ s = omega (arith, bit_and-low 4 s, h) in
    let above : bit_or (co % 2 ^ 52 * 2 ^ 12) (ca * 2 ^ 4) ≡ (co % 2 ^ 52 * 2 ^ 8 + ca) * 2 ^ 4 =
      bit_or-add 12 (co % 2 ^ 52) (ca * 2 ^ 4) (omega (arith, k)) ∙ omega arith in
    rw (count, cause, state, above) (bit_or-add 4 (co % 2 ^ 52 * 2 ^ 8 + ca) s h ∙ omega arith)
