-- ===== src/Dllist/Tests.antt =====
-- Runs of the list of prs/lib/ds/dllist.c.
use mathlib.Core.Option
use prs.Base.{ℕ, Bool, ◌≡◌, some, false, refl, ◌||◌, ◌==◌, if◌then◌else◌}
use prs.Chain.{unlink}
use prs.Dllist.{Dllist, destroy, destroy_loop, remove, begin}

-- The nodes 16 and 32 with the elements 7 and 8.
abbrev two : Dllist
two = record {
  chain = record {
    next = λ j. if j == 16 then 32 else 0;
    prev = λ j. if j == 32 then 16 else 0;
    head = 16;
    tail = 32;
    size = 2;
  };
  content = λ j. if j == 16 then 7 else 8;
  live = λ j. (j == 16) || (j == 32);
}

-- The size, and whether each node is still allocated.
abbrev left : Dllist → ℕ × Bool × Bool
left l = (l.chain.size, l.live 16, l.live 32)

destroy_run : Option.map left (destroy two) ≡ some (0, false, false)
unfolding destroy destroy_loop remove begin unlink
destroy_run = refl
