-- ===== src/Thread/Tests.antt =====
-- The theorem on the threads of prs/pal/posix/thread.c at an input.
use prs.Base.{◌≡◌, refl, true, false, none, some}
use prs.Base.Result.{ok, invalid_state}
use prs.Thread.{Thread, create, start, entry, join, destroy}
use prs.Thread.Laws.{sleeping, start-ends}

start-ends_example :
    let (started, result) = start (λ t. t) true (sleeping true) in
    (create true true true true true ≡ some (sleeping true))
    × (entry (λ t. t) (sleeping false) ≡ none)
    × (result ≡ ok)
    × ((e : Thread) × (some started ≡ some e)
        × (join (λ t. t) e ≡ (e, ok))
        × (destroy e ≡ (false, invalid_state)))
start-ends_example = start-ends (λ t. t) (λ t. t) (λ t. (refl, refl)) true
