-- ===== src/God/Tests.antt =====
-- Runs of the directory of prs/god.c, and each theorem at an input.
use prs.Base.{
  ℕ, ◌+◌, ◌-◌, ◌%◌, ◌^◌, ◌≡◌, ◌≢◌, refl, true, false, not, none, some, arith, ◌==◌, if◌then◌else◌,
  subst, ◌≤◌, ◌<◌,
}
use prs.Base.Scan.{scan}
use prs.Base.Result.{ok, locked}
use prs.God.{
  God, Ops, get_entry, can_take, publish, take_index, create, alloc_and_lock, put, call, free, find,
  lock_entry, lock, release, unlock, try_unlock_final, object_destroy, object_of, destroy_locked,
}
use prs.God.Header.{
  lock_next, unlock_next, try_unlock_next, is_free, reserved_header, used_header, test_flag, marked,
  id_invalid,
}
use prs.God.Fields.{fields, encode, live, dying}
use prs.God.Laws.{Holds, unlock-freed}
use prs.God.Alloc.{IsSized, alloc_and_lock-reaches, alloc_and_lock-wrapped}
use prs.God.Steps.{
  in_use, freeing, State, state, left, called, reserves, publishes, unlocks, Steps, stay, step,
  start,
}
use prs.God.Protocol.{Counted, reached-Counted, freeing-closed}
use prs.God.Drain.{gone, in_use-drains}

program : Unit {0}
unfolding create alloc_and_lock find lock lock_entry object_of unlock try_unlock_final
    object_destroy destroy_locked call free release take_index publish can_take
program = tt

-- The operations at 9 destroy nothing and free an object by doing nothing to the directory.
abbrev quiet : Ops
quiet = record { destroy_of = λ _. none; free_of = λ _. some (λ _ g. g) }

abbrev four : (ℕ → ℕ) → ℕ → God
four header next = record {
  header = header;
  object = λ _. 77;
  ops = λ _. 9;
  max_entries = 4;
  max_entries_mask = 3;
  write_index = next;
}

-- One object, under ID 1, with one reference.
abbrev one : God
one =
    four
      (λ j.
        if j == 1
        then encode (live 1 1)
        else (if j == 0 then encode (fields 0 true true false 0) else 0))
      2

sized : (h : ℕ → ℕ) (n : ℕ) → IsSized 2 (four h n)
sized h n = omega arith

one-Holds : Holds one 1 (live 1 1)
unfolding get_entry
one-Holds = record {
  valid = omega arith;
  fits = record { id_fits = omega arith; refcnt_fits = omega arith };
  header = refl;
}

-- A new directory gives its first object ID 1; the destruction of an object frees it once its last
-- reference is gone.
first_object :
    let fresh = four (λ j. if j == 0 then (2 ^ 14 + 2 ^ 13) else 0) 1 in
    let a = (alloc_and_lock fresh 77 9).0 in
    let b = (lock a 1).0 in
    let c = (try_unlock_final quiet b 1).0 in
    ((alloc_and_lock fresh 77 9).1 ≡ 1)
    × ((lock a 1).1 ≡ 77)
    × ((try_unlock_final quiet b 1).1 ≡ locked)
    × ((object_destroy quiet c 1).1 ≡ ok)
    × ((unlock quiet (unlock quiet c 1) 1).header 1 ≡ 2 ^ 32)
unfolding program scan is_free test_flag get_entry lock_next unlock_next try_unlock_next
    reserved_header used_header marked
first_object = (refl, refl, refl, refl, refl)

unlock-freed_example :
    let e = get_entry one 1 in
    let before : God = put one e (encode (dying 1)) in
    let gone : God =
      put (call (quiet.free_of 9) 77 before) e (encode (fields 1 false false false 0)) in
    (unlock quiet one 1 ≡ gone)
    × (lock before 1 ≡ (before, 0))
    × ((i : ℕ) → get_entry one i ≡ e → (lock gone i ≡ (gone, 0)) × (can_take gone i ≡ not (1 == i)))
unfolding call get_entry
unlock-freed_example = unlock-freed quiet one-Holds (record { mask = refl; header = refl })

-- Entry 1 is in use, and the search for an ID passes over it from 5 on.
five_taken : (m : ℕ) → 5 ≤ m → m < 6 → can_take (four one.header 5) m ≡ false
unfolding can_take get_entry is_free test_flag
five_taken m lo hi =
    let five : 5 ≡ m = omega arith in subst (λ n. can_take (four one.header 5) n ≡ false) five refl

alloc_and_lock-reaches_example :
    let r = alloc_and_lock (four one.header 5) 5 9 in
    (r.1 ≡ 6)
    × (find r.0 6 ≡ 5)
    × (lock r.0 6 ≡ (put r.0 2 (encode (live 6 2)), 5))
    × ((c : ℕ) → c ≢ 6 → c % 2 ^ 2 ≡ 2 → lock r.0 c ≡ (r.0, 0))
unfolding can_take get_entry is_free test_flag
alloc_and_lock-reaches_example =
    alloc_and_lock-reaches (sized one.header 5) (omega arith) 6 5 9 (omega arith) (omega arith)
      (omega arith) refl five_taken

-- Every entry is free, but the search ends at 0.
alloc_and_lock-wrapped_example :
    alloc_and_lock (four (λ _. 0) (2 ^ 32 - 4)) 5 9 ≡ (four (λ _. 0) (2 ^ 32 - 4), id_invalid)
alloc_and_lock-wrapped_example =
    alloc_and_lock-wrapped (sized (λ _. 0) (2 ^ 32 - 4)) 5 9 (omega arith) (omega arith)

-- The first object is allocated, and its only reference is given back.
abbrev used : State
used = state (used_header (reserved_header 1)) in_use 1 1 0

run : Steps start used
unfolding is_free test_flag
run = step (step stay (reserves (omega arith) refl)) publishes

last : Steps start (state (marked (used_header (reserved_header 1))) freeing 1 0 1)
unfolding unlock_next test_flag reserved_header used_header left called marked
last = step run (unlocks refl)

reached-Counted_example : Counted used
reached-Counted_example = reached-Counted run

freeing-closed_example :
    let h = marked (used_header (reserved_header 1)) in
    ◌≡◌ {A = ℕ} 0 0
    × ◌≡◌ {A = ℕ} 1 1
    × ((id : ℕ) → (lock_next id h ≡ none) × (unlock_next id h ≡ none) × (is_free h id ≡ false))
freeing-closed_example = freeing-closed last

in_use-drains_example : Steps used (gone 1)
in_use-drains_example = in_use-drains run
