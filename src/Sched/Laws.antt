-- ===== src/Sched/Laws.antt =====
-- Adding a thread to a scheduler, against the list of its workers.
use prs.Base.{
  ℕ, ◌+◌, ◌-◌, ◌^◌, ◌<◌, ◌≡◌, ◌≢◌, refl, ◌∙◌, sym, ap, subst, Bool, true, false, List, [], ◌∷◌,
  ◌++◌, arith, ◌==◌, length,
}
use prs.Base.Result.{Result, ok}
use prs.Dllist.{Dllist, insert_before, remove, begin, get_data}
use prs.Dllist.Laws.{Holds, insert_before-adds, remove-frees}
use prs.Sched.{is_ok, start_worker, inserted, add_thread}

append_nil : (xs : List ℕ) → xs ++ [] ≡ xs
append_nil [] = refl
append_nil (x ∷ xs) = ap (λ l. x ∷ l) (append_nil xs)

module _ (l : Dllist) (sched_worker node : ℕ) (some_worker : sched_worker ≢ 0)
    (some_node : node ≢ 0) (fresh : l.live node ≡ false) where
  -- The list with the new worker behind the others.
  extended :
      (xs : List ℕ)
      → Holds l xs
      → length xs + 1 < 2 ^ 64 - 1
      → (r : Dllist) × (insert_before node l 0 sched_worker ≡ (r, ok))
        × Holds r (xs ++ node ∷ [])
        × (get_data r node ≡ sched_worker)
  extended xs holds room =
      let holds' = subst (Holds l) (sym (append_nil xs)) holds in
      let room' = subst (λ ys. length ys + 1 < 2 ^ 64 - 1) (sym (append_nil xs)) room in
      let (result, h, element, _) =
        insert_before-adds l xs [] node sched_worker holds' some_node fresh room' in
      (
        (insert_before node l 0 sched_worker).0,
        ap (λ e. ((insert_before node l 0 sched_worker).0, e)) result,
        h,
        element,
      )

  add_thread_lem :
      (created : Result) (r : Dllist)
      → insert_before node l 0 sched_worker ≡ (r, ok)
      → add_thread true sched_worker node created l ≡ start_worker created r
  unfolding add_thread inserted
  add_thread_lem created r e =
      let taken : (sched_worker == 0) ≡ false = ground (arith, some_worker) in rw (taken, e) refl

  -- `prs_sched_add_thread`, where the worker is created, puts it behind the other workers.
  pub add_thread-adds :
      (xs : List ℕ)
      → Holds l xs
      → length xs + 1 < 2 ^ 64 - 1
      → (r : Dllist) × (add_thread true sched_worker node ok l ≡ (r, ok, false))
        × Holds r (xs ++ node ∷ [])
        × (get_data r node ≡ sched_worker)
  unfolding start_worker
  add_thread-adds xs holds room =
      let (r, e, h, element) = extended xs holds room in (r, add_thread_lem ok r e, h, element)

  -- Where another worker is in the list and the new one is not created, `prs_sched_add_thread` frees
  -- the new structure but takes the first worker out of the list, and the node of the freed structure
  -- stays in it.
  pub add_thread-loses_first :
      (x : ℕ) (xs : List ℕ) (created : Result)
      → is_ok created ≡ false
      → Holds l (x ∷ xs)
      → length (x ∷ xs) + 1 < 2 ^ 64 - 1
      → (r : Dllist) × (add_thread true sched_worker node created l ≡ (r, created, true))
        × Holds r (xs ++ node ∷ [])
        × (get_data r node ≡ sched_worker)
  unfolding start_worker get_data remove begin
  add_thread-loses_first x xs created failed holds room =
      let (r, e, h, element) = extended (x ∷ xs) holds room in
      let first : begin r ≡ x = h.chain.head in
      let run : ◌≡◌ {A = Dllist × Result × Bool} (start_worker created r)
          (remove r x, created, true) =
        rw (failed, first) refl in
      (
        remove r x,
        add_thread_lem created r e ∙ run,
        remove-frees r [] (xs ++ node ∷ []) x h,
        element,
      )
