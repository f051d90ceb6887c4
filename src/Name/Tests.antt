-- ===== src/Name/Tests.antt =====
-- Runs of the table of prs/name.c, and each theorem at an input.
use prs.Base.{
  not, is_some, ℕ, ◌≡◌, ◌≢◌, ◌<◌, refl, Bool, ◌&&◌, true, false, none, [], ◌∷◌, arith, ◌==◌,
  if◌then◌else◌, List,
}
use prs.God
use prs.God.{God, Ops}
use prs.God.Fields.{Fields, Fits, fields, live, encode, lock_fields}
use prs.Name.{Name, hash, get_key, alloc, find, same_string}
use prs.Name.Laws.{Settled, names, first_of, find-first}
use prs.Name.Table.{Named, alloc-find}
use prs.Name.Destroy.{Nodes, reads_freed, destroy, destroy-reads_freed}

-- The hash of the empty string, and of "a".
hash_a : (hash [] ≡ 0x811C9DC5) × (hash (97 ∷ []) ≡ 0xE40C292C)
unfolding hash
hash_a = (refl, refl)

abbrev quiet : Ops
quiet = record { destroy_of = λ _. none; free_of = λ _. none }

-- Object 1 at address 8, with the name "a", behind the entry that `prs_god_create` reserves.
abbrev fields_at : ℕ → Fields
fields_at e =
    if e == 1
    then live 1 1
    else (if e == 0 then fields 0 true true false 0 else fields 0 false false false 0)

abbrev one : God
one = record {
  header = λ e. encode (fields_at e);
  object = λ e. if e == 1 then 8 else 0;
  ops = λ _. 0;
  max_entries = 4;
  max_entries_mask = 3;
  write_index = 2;
}

fields_at-Fits : (e : ℕ) → Fits (fields_at e)
fields_at-Fits e = record { id_fits = ground arith; refcnt_fits = ground arith }

fields_at-counted :
    (e : ℕ)
    → (fields_at e).id ≢ 0
    → (fields_at e).used ≡ true
    → (fields_at e).mark ≡ false
    → 0 < (fields_at e).refcnt
fields_at-counted e valid used unmarked = ground arith

fields_at-object : (e : ℕ) → (fields_at e).id ≢ 0 → (fields_at e).used ≡ true → one.object e ≢ 0
fields_at-object e valid used = ground arith

abbrev one-Settled : Settled one
one-Settled = record {
  at = fields_at;
  fits = fields_at-Fits;
  header = λ _. refl;
  counted = fields_at-counted;
  object = fields_at-object;
}

abbrev memory : ℕ → List ℕ
memory p = if p == 12 then 97 ∷ [] else []

abbrev table : List ℕ → Name
table ids = record { max_entries = 64; string_offset = 4; entries = λ _. ids }

find-first_example :
    find quiet memory (table (0 ∷ 1 ∷ [])) one (97 ∷ [])
    ≡ (one, first_of (names one-Settled memory (table (0 ∷ 1 ∷ [])) (97 ∷ [])) (0 ∷ 1 ∷ []))
find-first_example = find-first one-Settled quiet memory (table (0 ∷ 1 ∷ [])) (97 ∷ [])

no_other :
    (x e : ℕ) (same : Bool)
    → x ≢ 1
    → (not (x == 0) && is_some (lock_fields x (fields_at e)) && same) ≡ false
no_other x e same other = ground arith

one-Named : (ids : List ℕ) → Named one-Settled memory (table ids) 1 (97 ∷ [])
unfolding God.get_entry get_key same_string
one-Named ids = record {
  valid = omega arith;
  locks = refl;
  key_is = refl;
  named = refl;
  unique = λ x other. no_other x (God.get_entry one x) _ other;
}

-- The list holds a freed node, which is reused.
alloc-find_example :
    find quiet memory (alloc quiet memory (table (0 ∷ [])) one 1).0 one (97 ∷ []) ≡ (one, 1)
alloc-find_example = alloc-find quiet (one-Named (0 ∷ []))

-- Two nodes in entry 1.
abbrev nodes : Nodes
nodes = record {
  lists = λ i. if i == 1 then 16 else 0;
  next = λ node. if node == 16 then 32 else 0;
  live = λ node. true;
}

destroy-reads_freed_example : destroy 4 2 nodes ≡ reads_freed 16
destroy-reads_freed_example =
    destroy-reads_freed 4 0 nodes 1 (omega arith) (λ k below. ground arith) (omega arith)
