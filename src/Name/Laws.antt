-- ===== src/Name/Laws.antt =====
-- What the functions of prs/name.c find.
use prs.Base.{
  update, bit_or, ◌-◌, subst, ℕ, ◌+◌, ◌<◌, ◌≡◌, ◌≢◌, refl, sym, ◌∙◌, Bool, true, false, not, ◌&&◌,
  Option, none, some, List, [], ◌∷◌, arith, ◌==◌, if◌then◌else◌, is_some, inl, inr, Bool-cases,
}
use prs.God
use prs.God.{God, Ops}
use prs.God.Header.{id_invalid}
use prs.God.Fields.{fields, Fields, Fits, encode, lock_fields}
use prs.God.Laws.{Holds, lock_outcome, lock-fields}
use prs.God.Undo.{lock_fields-Lockable, unlock-locked}
use prs.Name.{
  Name, get_key, get_entry, alloc_loop, free_loop, same_string, compare, visit, find_loop,
  find_internal, find,
}

-- What the headers of the directory read when no operation is under way: an entry in use that is not
-- marked and has a valid ID has a reference and an object. Entry 0, which `prs_god_create` reserves, has
-- neither, and the invalid ID.
pub record Settled (g : God) : Type 0 where
  pub at : ℕ → Fields
  pub fits : (e : ℕ) → Fits (at e)
  pub header : (e : ℕ) → g.header e ≡ encode (at e)
  pub counted :
      (e : ℕ)
      → (at e).id ≢ id_invalid
      → (at e).used ≡ true
      → (at e).mark ≡ false
      → 0 < (at e).refcnt
  pub object : (e : ℕ) → (at e).id ≢ id_invalid → (at e).used ≡ true → g.object e ≢ 0

-- The directory that `prs_god_create` leaves is such a one.
create-Settled : (n : ℕ) {g : God} → God.create n true true ≡ inr g → Settled g
unfolding God.create
create-Settled n {g} made =
    let at : ℕ → Fields =
      λ e. if e == 0 then fields 0 true true false 0 else fields 0 false false false 0 in
    let left : God = record {
      header = update (λ _. 0) 0 (bit_or God.Header.header_reserved God.Header.header_used);
      object = λ _. 0;
      ops = λ _. 0;
      max_entries = n;
      max_entries_mask = n - 1;
      write_index = 1;
    } in
    let same : left ≡ g = ground (arith, made) in
    subst Settled same (record {
      at = at;
      fits = λ e. record { id_fits = ground arith; refcnt_fits = ground arith };
      header = λ e. ground arith;
      counted = λ e valid used unmarked. ground arith;
      object = λ e valid used. ground arith;
    })

-- The first ID of a list that passes a test, or the invalid ID.
unfoldable pub first_of : (ℕ → Bool) → List ℕ → ℕ
first_of test [] = id_invalid
first_of test (id ∷ ids) = if test id then id else first_of test ids

unfoldable pub count_of : ℕ → List ℕ → ℕ
count_of id [] = 0
count_of id (x ∷ ids) = if x == id then 1 + count_of id ids else count_of id ids

if_pair :
    (b : Bool) (g : God) (x y : ℕ)
    → ◌≡◌ {A = God × ℕ} (if b then (g, x) else (g, y)) (g, if b then x else y)
if_pair true g x y = refl
if_pair false g x y = refl

module _ {g : God} (settled : Settled g) where
  -- Whether an ID is that of an object that can be locked and has this name.
  abbrev pub names : (memory : ℕ → List ℕ) → Name → (key : List ℕ) → ℕ → Bool
  names memory n key id =
      not (id == id_invalid)
      && is_some (lock_fields id (settled.at (God.get_entry g id)))
      && same_string (get_key n memory (g.object (God.get_entry g id))) key

  compared :
      (o : Ops) (memory : ℕ → List ℕ) (n : Name) (key : List ℕ) (id : ℕ) (r : Option Fields)
      → id ≢ id_invalid
      → lock_fields id (settled.at (God.get_entry g id)) ≡ r
      → compare o memory n key false id (lock_outcome g (God.get_entry g id) r)
        ≡ (g, is_some r && same_string (get_key n memory (g.object (God.get_entry g id))) key)
  unfolding compare
  compared o memory n key id none valid e = refl
  compared o memory n key id (some f') valid e =
      let at = God.get_entry g id in
      let holds : Holds g id (settled.at at) = record {
        valid = valid;
        fits = settled.fits at;
        header = settled.header at;
      } in
      let l = lock_fields-Lockable id (settled.at at) f' e in
      let known : (settled.at at).id ≢ id_invalid = λ none. valid (sym l.same ∙ none) in
      let there : (g.object at == 0) ≡ false = ground (arith, settled.object at known l.used) in
      let more : 0 < (settled.at at).refcnt = settled.counted at known l.used l.unmarked in
      rw (unlock-locked o holds more e, there) (ground arith)

  visit_lem :
      (o : Ops) (memory : ℕ → List ℕ) (n : Name) (key : List ℕ) (id : ℕ)
      → visit o memory n key false g id ≡ (g, names memory n key id)
  unfolding visit
  visit_lem o memory n key id = elim (Bool-cases (id == id_invalid)) [
    | inl e ↦ rw e refl
    | inr e ↦
        let at = God.get_entry g id in
        let holds : Holds g id (settled.at at) = record {
          valid = ground arith;
          fits = settled.fits at;
          header = settled.header at;
        } in
        rw (e, lock-fields holds) (compared o memory n key id _ holds.valid refl)
  ]

  find_loop_lem :
      (o : Ops) (memory : ℕ → List ℕ) (n : Name) (key : List ℕ) (ids : List ℕ)
      → find_loop o memory n key false g ids ≡ (g, first_of (names memory n key) ids)
  unfolding find_loop first_of
  find_loop_lem o memory n key [] = refl
  find_loop_lem o memory n key (id ∷ ids) =
      rw (visit_lem o memory n key id, find_loop_lem o memory n key ids)
        (if_pair (names memory n key id) g id (first_of (names memory n key) ids))

  -- `prs_name_find` leaves the directory as it was, and returns the first ID in the list of the key's
  -- hash whose object can be locked and has the key as its name, or the invalid ID.
  pub find-first :
      (o : Ops) (memory : ℕ → List ℕ) (n : Name) (key : List ℕ)
      → find o memory n g key ≡ (g, first_of (names memory n key) (n.entries (get_entry n key)))
  unfolding find find_internal
  find-first o memory n key = find_loop_lem o memory n key (n.entries (get_entry n key))

-- What the loops do to a search that only `id` passes.
module _ (test : ℕ → Bool) (id : ℕ) (valid : id ≢ id_invalid)
    (others : (x : ℕ) → x ≢ id → test x ≡ false) where
  pub first_of-alloc_loop :
      (ids : List ℕ) → test id ≡ true → first_of test (alloc_loop id ids).0 ≡ id
  unfolding first_of alloc_loop
  first_of-alloc_loop [] passes = rw passes refl
  first_of-alloc_loop (x ∷ ids) passes =
      ground (arith, others x, passes, first_of-alloc_loop ids passes)

  first_of-none : (ids : List ℕ) → count_of id ids ≡ 0 → first_of test ids ≡ id_invalid
  unfolding first_of count_of
  first_of-none [] once = refl
  first_of-none (x ∷ ids) once = ground (arith, others x, first_of-none ids)

  pub first_of-free_loop :
      (ids : List ℕ) → count_of id ids < 2 → first_of test (free_loop id ids).0 ≡ id_invalid
  unfolding first_of free_loop count_of
  first_of-free_loop [] once = refl
  first_of-free_loop (x ∷ ids) once =
      ground (arith, others x, others id_invalid, first_of-none ids, first_of-free_loop ids)
