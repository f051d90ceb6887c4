-- ===== src/Proc/Tests.antt =====
-- Runs of the processes of prs/proc.c, and each theorem at an input.
use mathlib.Core.List.{map}
use prs.Base.{ℕ, ◌≡◌, ◌≢◌, ◌<◌, refl, true, false, some, none, [], ◌∷◌, arith, ◌==◌, if◌then◌else◌}
use prs.Proc.{
  RangeTable, parse_cmdline, get_argv, range_table_add, range_table_del, is_user_text, find_index,
  max_objects, count_args, split, next, begins, write, take_out,
}
use prs.Proc.Words.{words, string_at, until_zero, parse_cmdline-words}
use prs.Proc.Ranges.{added, back, del-add}

-- `a "b c"`: the second argument begins behind its quote, and ends at the closing one.
quoted :
    let m = parse_cmdline (97 ∷ 32 ∷ 34 ∷ 98 ∷ 32 ∷ 99 ∷ 34 ∷ []) in
    (map (string_at m.buffer) m.argv ≡ (97 ∷ []) ∷ (98 ∷ 32 ∷ 99 ∷ []) ∷ [])
    × (get_argv m 1 ≡ some 3)
    × (get_argv m 2 ≡ none)
unfolding parse_cmdline count_args split next begins write string_at until_zero get_argv
quoted = (refl, refl, refl)

-- An object that is registered is found once.
objects : (take_out 7 (5 ∷ 7 ∷ []) ≡ (5 ∷ [], true)) × (take_out 7 (5 ∷ []) ≡ (5 ∷ [], false))
unfolding take_out
objects = (refl, refl)

-- `a  bc`
parse_cmdline-words_example :
    let m = parse_cmdline (97 ∷ 32 ∷ 32 ∷ 98 ∷ 99 ∷ []) in
    map (string_at m.buffer) m.argv ≡ words (97 ∷ 32 ∷ 32 ∷ 98 ∷ 99 ∷ [])
parse_cmdline-words_example = parse_cmdline-words (97 ∷ 32 ∷ 32 ∷ 98 ∷ 99 ∷ []) (
  omega arith,
  omega arith,
  (
    omega arith,
    omega arith,
    (omega arith, omega arith, (omega arith, omega arith, (omega arith, omega arith, tt))),
  ),
)

-- The table with the ranges of two programs, the first of which is gone.
abbrev two : RangeTable
two = record {
  range_table =
      λ j. if j == 1 then record { base = 4096; size = 100 } else record { base = 0; size = 0 };
  range_table_count = 2;
}

some_base : ◌≢◌ {A = ℕ} 8192 0
some_base = omega arith

room : two.range_table_count < max_objects
room = omega arith

del-add_example :
    let t = added two 8192 50 some_base room in
    (range_table_add two 8192 50 ≡ some (t, 0))
    × (range_table_del t 0 ≡ some (back two 8192 50 some_base room))
    × ((ip : ℕ) → is_user_text (back two 8192 50 some_base room) ip ≡ is_user_text two ip)
unfolding find_index
del-add_example = del-add two 8192 50 some_base room
