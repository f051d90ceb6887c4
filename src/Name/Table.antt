-- ===== src/Name/Table.antt =====
-- What prs/name.c finds after an addition and after a removal.
use prs.Base.{
  ℕ, ◌<◌, ◌≡◌, ◌≢◌, refl, ap, sym, ◌∙◌, true, false, Option, none, some, List, [], ◌∷◌, ◌++◌, arith,
  ◌==◌, is_some, update, test_self,
}
use prs.Base.Result.{Result, ok}
use prs.God
use prs.God.{God, Ops}
use prs.God.Header.{id_invalid}
use prs.God.Fields.{Fields, lock_fields}
use prs.God.Laws.{Holds, lock_outcome, lock-fields}
use prs.God.Undo.{lock_fields-Lockable, unlock-locked}
use prs.Name.{Name, get_key, get_entry, alloc_loop, free_loop, with_list, alloc, free, find}
use prs.Name.Laws.{
  Settled, names, first_of, count_of, find-first, first_of-alloc_loop, first_of-free_loop,
}

-- An object that can be locked, whose name no other ID of a lockable object has.
pub record Named {g : God} (settled : Settled g) (memory : ℕ → List ℕ) (n : Name) (id : ℕ)
    (key : List ℕ) : Type 0 where
  pub valid : id ≢ id_invalid
  pub locks : is_some (lock_fields id (settled.at (God.get_entry g id))) ≡ true
  pub key_is : get_key n memory (g.object (God.get_entry g id)) ≡ key
  pub named : names settled memory n key id ≡ true
  pub unique : (x : ℕ) → x ≢ id → names settled memory n key x ≡ false

module _ {g : God} {settled : Settled g} {memory : ℕ → List ℕ} {n : Name} {id : ℕ} {key : List ℕ}
    (o : Ops) (named : Named settled memory n id key) where
  held : Holds g id (settled.at (God.get_entry g id))
  held = record {
    valid = named.valid;
    fits = settled.fits (God.get_entry g id);
    header = settled.header (God.get_entry g id);
  }

  abbrev pub ids : List ℕ
  ids = n.entries (get_entry n key)

  -- The name table with another list of this key.
  abbrev pub with_ids : List ℕ → Name
  with_ids l = record n { entries = update n.entries (get_entry n key) l }

  listed :
      (loop : List ℕ → List ℕ × Result) (r : Option Fields)
      → lock_fields id (settled.at (God.get_entry g id)) ≡ r
      → is_some r ≡ true
      → with_list o memory loop n id (lock_outcome g (God.get_entry g id) r)
        ≡ (with_ids (loop ids).0, g, (loop ids).1)
  unfolding with_list
  listed loop none e some_fields = absurd (ground arith)
  listed loop (some f') e some_fields =
      let at = God.get_entry g id in
      let l = lock_fields-Lockable id (settled.at at) f' e in
      let known : (settled.at at).id ≢ id_invalid = λ invalid. named.valid (sym l.same ∙ invalid) in
      let there : (g.object at == 0) ≡ false = ground (arith, settled.object at known l.used) in
      rw (unlock-locked o held (settled.counted at known l.used l.unmarked) e, there, named.key_is)
        refl

  pub with_list_lem :
      (loop : List ℕ → List ℕ × Result)
      → with_list o memory loop n id (God.lock g id) ≡ (with_ids (loop ids).0, g, (loop ids).1)
  with_list_lem loop = rw (lock-fields held) (listed loop _ refl named.locks)

  find-with_ids :
      (l : List ℕ) → find o memory (with_ids l) g key ≡ (g, first_of (names settled memory n key) l)
  unfolding get_entry get_key
  find-with_ids l =
      rw (find-first settled o memory (with_ids l) key, test_self (get_entry n key)) refl

  -- Where an object can be locked and no other ID of an object that can be locked has its name,
  -- `prs_name_find` of this name finds its ID after `prs_name_alloc`, and the directory is as before.
  pub alloc-find : find o memory (alloc o memory n g id).0 g key ≡ (g, id)
  unfolding alloc
  alloc-find =
      rw (with_list_lem (alloc_loop id), find-with_ids (alloc_loop id ids).0)
        (ap (λ x. (g, x))
          (first_of-alloc_loop (names settled memory n key) id named.valid named.unique ids
            named.named))

  -- After `prs_name_free` of the same object the name is found no more, where the list of its key held
  -- the ID at most once.
  pub free-find :
      count_of id ids < 2 → (find o memory (free o memory n g id).0 g key ≡ (g, id_invalid))
  unfolding free
  free-find once =
      rw (with_list_lem (free_loop id), find-with_ids (free_loop id ids).0)
        (ap (λ x. (g, x))
          (first_of-free_loop (names settled memory n key) id named.valid named.unique ids once))

-- `prs_name_alloc` reuses the first freed node without a look at the nodes behind it: an ID that is
-- there already is added again with `PRS_OK`, and `prs_name_free`, which reports `PRS_OK`, takes only
-- the new node from the list, so that the ID stays in it.
pub free-keeps_second :
    (id : ℕ) (front back : List ℕ)
    → id ≢ id_invalid
    → count_of id front ≡ 0
    → count_of id_invalid front ≡ 0
    → (alloc_loop id (front ++ id_invalid ∷ back) ≡ (front ++ id ∷ back, ok))
      × (free_loop id (front ++ id ∷ back) ≡ (front ++ id_invalid ∷ back, ok))
unfolding alloc_loop free_loop count_of
free-keeps_second id [] back valid fresh full = ground arith
free-keeps_second id (x ∷ front) back valid fresh full =
    let rest = free-keeps_second id front back valid (ground arith) (ground arith) in
    ground (arith, rest)
