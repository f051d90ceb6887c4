-- ===== src/Idllist/Tests.antt =====
-- Runs of the intrusive list of prs/lib/ds/idllist.c, and each theorem at an input.
use prs.Base.{◌≡◌, refl, true, false, [], ◌∷◌, arith, ◌==◌, if◌then◌else◌}
use prs.Chain.{link_between, prev_of, link, unlink_between, unlink, search_from}
use prs.Chain.Seg.{has}
use prs.Idllist.{Idllist, insert_before, clear_node, remove, begin, is_inserted}
use prs.Idllist.Laws.{Holds, remove-Holds}

program : Unit {0}
unfolding link unlink insert_before remove begin is_inserted search_from
program = tt

-- The nodes 16 and 32.
abbrev two : Idllist
two = record {
  chain = record {
    next = λ j. if j == 16 then 32 else 0;
    prev = λ j. if j == 32 then 16 else 0;
    head = 16;
    tail = 32;
    size = 2;
  };
  node_offset = 8;
}

two-Holds : Holds two (16 ∷ 32 ∷ [])
two-Holds = record {
  seg = (refl, refl, omega arith, refl, (refl, refl, omega arith, refl, tt));
  head = refl;
  tail = refl;
  size = refl;
  small = omega arith;
}

-- Node 48 goes in front of 32, and 16 goes out.
run :
    let l = insert_before two 32 48 in
    let r = remove l 16 in
    (l.chain.next 16 ≡ 48)
    × (l.chain.next 48 ≡ 32)
    × (begin r ≡ 48)
    × (r.chain.size ≡ 2)
    × (is_inserted r 48 ≡ true)
    × (is_inserted r 16 ≡ false)
unfolding program link_between prev_of unlink_between clear_node
run = (refl, refl, refl, refl, refl, refl)

remove-Holds_example :
    let r = remove two 16 in
    Holds r (32 ∷ []) × (r.chain.next 16 ≡ 0) × (r.chain.prev 16 ≡ 0) × (has 16 (32 ∷ []) ≡ false)
remove-Holds_example = remove-Holds two [] (32 ∷ []) 16 two-Holds
