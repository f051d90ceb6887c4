-- ===== src/Task/Destroy.antt =====
-- A task of prs/task.c is destroyed once.
use prs.Base.{
  ℕ, ◌<◌, ◌≡◌, ◌≢◌, refl, ap, sym, subst, ◌∙◌, fun_ext, false, Option, some, List, [], ◌∷◌, ◌==◌,
  if◌then◌else◌, update, arith, inl, inr, Bool-cases, test_self,
}
use prs.Base.Partial.{All, nothing, just, All-bind_with, All-some}
use prs.Base.Result.{not_found}
use prs.God
use prs.God.{God, Ops}
use prs.God.Header.{id_invalid}
use prs.Name
use prs.Name.{Name, free_loop, get_key, get_entry, with_list}
use prs.Name.Laws.{count_of}
use prs.Sched.{is_ok}
use prs.Task.Lifecycle.{
  Object, World, Env, unlock_god, unregister_by, unregister, leave_sched, leave_locked,
  destroy_named, destroy,
}

free_loop-absent :
    (id : ℕ) (ids : List ℕ) → count_of id ids ≡ 0 → free_loop id ids ≡ (ids, not_found)
unfolding free_loop count_of
free_loop-absent id [] once = refl
free_loop-absent id (x ∷ ids) once = elim (Bool-cases (x == id)) [
  | inl e ↦ absurd (ground arith)
  | inr e ↦ rw (e, free_loop-absent id ids (ground arith)) refl
]

count_of-free_loop :
    (id : ℕ) (ids : List ℕ)
    → id ≢ id_invalid
    → count_of id ids < 2
    → count_of id (free_loop id ids).0 ≡ 0
unfolding free_loop count_of
count_of-free_loop id [] valid once = refl
count_of-free_loop id (x ∷ ids) valid once = ground (arith, count_of-free_loop id ids)

get_entry-entries :
    (n : Name) (key : List ℕ) (entries : ℕ → List ℕ)
    → get_entry (record n { entries = entries }) key ≡ get_entry n key
unfolding get_entry
get_entry-entries n key entries = refl

module _ {D : Type 0} (env : Env D) where
  -- The table of names is as in this one.
  abbrev SameNames : World D → World D → Type 0
  SameNames w u = u.names ≡ w.names

  unregister_by-SameNames :
      (proc proc_id task_id : ℕ) (w : World D) (proc_task_id : ℕ)
      → All (SameNames w) (unregister_by env proc proc_id task_id w proc_task_id)
  unregister_by-SameNames proc proc_id task_id w proc_task_id =
      elim (Bool-cases (proc_task_id == id_invalid)) [
        | inl e ↦ rw e nothing
        | inr e ↦ elim (Bool-cases (proc_task_id == (w.task env.current).id)) [
          | inl e' ↦ rw (e, e') (just refl)
          | inr e' ↦ rw (e, e') (just refl)
        ]
      ]

  unregister-SameNames :
      (proc proc_id task_id : ℕ) (w : World D)
      → All (SameNames w) (unregister env proc proc_id task_id w)
  unfolding unregister
  unregister-SameNames proc proc_id task_id w =
      let found = Name.find env.ops w.memory w.names w.god env.proc_svc_name in
      unregister_by-SameNames proc proc_id task_id (record w { god = found.0 }) found.1

  leave_sched-SameNames : (x : Object) (w : World D) → SameNames w (leave_sched env x w)
  leave_sched-SameNames x w = elim (Bool-cases (x.sched_id == id_invalid)) [
    | inl e ↦ rw e refl
    | inr e ↦ rw e refl
  ]

  leave_locked-SameNames :
      (x : Object) (w : World D) (locked : God × ℕ)
      → All (SameNames w) (leave_locked env x w locked)
  leave_locked-SameNames x w (g, proc) = elim (Bool-cases (proc == 0)) [
    | inl e ↦ rw e nothing
    | inr e ↦ rw e (
        All-bind_with (SameNames w) (SameNames w)
          (unregister env proc x.proc_id x.id (record w { god = g }))
          (λ u. some (unlock_god env (unlock_god env u x.proc_id) x.proc_id))
          (unregister-SameNames proc x.proc_id x.id (record w { god = g })) (λ u same. just same))
  ]

  destroy_named-SameNames : (x : Object) (w : World D) → All (SameNames w) (destroy_named env x w)
  destroy_named-SameNames x w =
      let left = leave_sched env x w in
      let left_same = leave_sched-SameNames x w in
      let last : World D → Option (World D) = λ u. some (unlock_god env u x.id) in
      elim (Bool-cases (x.proc_id == id_invalid)) [
        | inl e ↦ rw e (just left_same)
        | inr e ↦ rw e (
            All-bind_with (SameNames left) (SameNames w)
              (leave_locked env x left (God.lock left.god x.proc_id)) last
              (leave_locked-SameNames x left (God.lock left.god x.proc_id))
              (λ u same. just (same ∙ left_same)))
      ]

  -- A name that is not in its list is not found.
  with_list-absent :
      (memory : ℕ → List ℕ) (n : Name) (id : ℕ) (locked : God × ℕ)
      → (locked.1 ≢ 0 → count_of id (n.entries (get_entry n (get_key n memory locked.1))) ≡ 0)
      → with_list env.ops memory (free_loop id) n id locked
        ≡ (n, if locked.1 == 0 then locked.0 else God.unlock env.ops locked.0 id, not_found)
  unfolding with_list
  with_list-absent memory n id (g, object) absent = elim (Bool-cases (object == 0)) [
    | inl e ↦ rw e refl
    | inr e ↦
        let entry = get_entry n (get_key n memory object) in
        let none_there = absent (ground arith) in
        let same : update n.entries entry (n.entries entry) ≡ n.entries =
          fun_ext λ j. ground arith in
        rw (e, free_loop-absent id (n.entries entry) none_there)
          (ap (λ entries. (record n { entries = entries }, God.unlock env.ops g id, not_found))
            same)
  ]

  -- The table after the name was taken out of its list.
  with_list-taken :
      (memory : ℕ → List ℕ) (n : Name) (id : ℕ) (locked : God × ℕ)
      → id ≢ id_invalid
      → locked.1 ≢ 0
      → let key = get_key n memory locked.1 in
        let left = (with_list env.ops memory (free_loop id) n id locked).0 in
        count_of id (n.entries (get_entry n key)) < 2
        → count_of id (left.entries (get_entry left key)) ≡ 0
  unfolding with_list
  with_list-taken memory n id (g, object) valid there once =
      let key = get_key n memory object in
      let entry = get_entry n key in
      let ids = (free_loop id (n.entries entry)).0 in
      let some_object : (object == 0) ≡ false = ground (arith, there) in
      rw (some_object, get_entry-entries n key (update n.entries entry ids), test_self entry)
        (count_of-free_loop id (n.entries entry) valid once)

  destroy-SameNames :
      (w : World D) (task : ℕ)
      → let id = (w.task task).id in
        All
          (λ u.
            u.names ≡ (with_list env.ops w.memory (free_loop id) w.names id (God.lock w.god id)).0)
          (destroy env w task)
  unfolding destroy Name.free
  destroy-SameNames w task =
      let x = w.task task in
      let (names, g, result) = Name.free env.ops w.memory w.names w.god x.id in
      let freed : World D = record w { names = names; god = g } in
      elim (Bool-cases (is_ok result)) [
        | inl e ↦ rw e (destroy_named-SameNames x freed)
        | inr e ↦ rw e (just refl)
      ]

  -- Once a task whose name could be taken from the table was destroyed, `prs_task_destroy` of it at any
  -- later time, whether its object can still be locked or not, changes nothing but what a lock and an
  -- unlock of the object do: it does not reach the scheduler, the process or the reference of the task
  -- again. The list of its name held its ID at most once, and neither name nor table have changed since.
  pub destroy-again :
      (w left later : World D) (task : ℕ)
      → let id = (w.task task).id in
        let key = get_key w.names w.memory (God.lock w.god id).1 in
        id ≢ id_invalid
        → (God.lock w.god id).1 ≢ 0
        → count_of id (w.names.entries (get_entry w.names key)) < 2
        → destroy env w task ≡ some left
        → later.names ≡ left.names
        → (later.task task).id ≡ id
        → ((God.lock later.god id).1 ≢ 0
            → get_key later.names later.memory (God.lock later.god id).1 ≡ key)
        → destroy env later task
          ≡ some (record later {
            god =
                if (God.lock later.god id).1 == 0
                then (God.lock later.god id).0
                else God.unlock env.ops (God.lock later.god id).0 id;
          })
  unfolding destroy Name.free
  destroy-again w left later task valid there once destroyed names same_id same_key =
      let id = (w.task task).id in
      let key = get_key w.names w.memory (God.lock w.god id).1 in
      let table = (with_list env.ops w.memory (free_loop id) w.names id (God.lock w.god id)).0 in
      let taken = with_list-taken w.memory w.names id (God.lock w.god id) valid there once in
      let kept : later.names ≡ table =
        names
        ∙ All-some
            (subst (All (λ (u : World D). u.names ≡ table)) destroyed (destroy-SameNames w task)) in
      let none_there : count_of id (later.names.entries (get_entry later.names key)) ≡ 0 =
        subst (λ (n : Name). count_of id (n.entries (get_entry n key)) ≡ 0) (sym kept) taken in
      let absent = with_list-absent later.memory later.names id (God.lock later.god id) (λ locked.
        subst (λ (k : List ℕ). count_of id (later.names.entries (get_entry later.names k)) ≡ 0)
          (sym (same_key locked)) none_there) in
      rw (same_id, absent) refl
