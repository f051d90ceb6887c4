-- ===== src/Name.antt =====
-- prs/name.c: the names of objects, a hash table of object IDs over the global object directory. The
-- list of an entry is the list of the IDs of its nodes, in order: a node is never unlinked, and an ID
-- of zero marks one that can be reused. Each function runs without interference. The allocations
-- succeed: the code stops the program where one fails.
pub mod Laws
pub mod Table
pub mod Destroy
mod Tests
use prs.Base.{
  ℕ, zero, suc, Option, none, some, ◌+◌, ◌-◌, ◌*◌, ◌%◌, ◌^◌, Bool, true, false, not, ◌&&◌, ◌||◌,
  List, [], ◌∷◌, ◌==◌, ltb, if◌then◌else◌, update,
}
use prs.Base.Result.{Result, ok, not_found, already_exists}
use mathlib.Core.Option
use prs.Base.Partial.{◌>>=◌}
use prs.God
use prs.God.{God, Ops}
use prs.God.Header.{id_invalid}
use Prim.Native.Nat.{bit_xor}

-- `entries` is the array, `memory` the string at an address, without its terminator.
pub record Name : Type 0 where
  pub max_entries : ℕ
  pub string_offset : ℕ
  pub entries : ℕ → List ℕ

-- `*p ^ hash`: a `char` is signed, and is extended to 32 bits.
abbrev pub char_word : ℕ → ℕ
char_word c = if ltb c 128 then c else c + 2 ^ 32 - 2 ^ 8

-- FNV-1a, from the hash so far.
unfoldable pub hash_from : (hash : ℕ) → List ℕ → ℕ
hash_from hash [] = hash
hash_from hash (c ∷ cs) = hash_from (bit_xor (char_word c) hash * 0x01000193 % 2 ^ 32) cs

unfoldable pub hash : List ℕ → ℕ
unfolding hash_from
hash key = hash_from 0x811C9DC5 key

unfoldable pub get_key : Name → (memory : ℕ → List ℕ) → (object : ℕ) → List ℕ
get_key n memory object = memory (object + n.string_offset)

-- The index of the entry of a key.
unfoldable pub get_entry : Name → (key : List ℕ) → ℕ
unfolding hash
get_entry n key = hash key % n.max_entries

unfoldable pub create : (max_entries string_offset : ℕ) → Name
create max_entries string_offset = record {
  max_entries = max_entries;
  string_offset = string_offset;
  entries = λ _. [];
}

-- The loop of `prs_name_alloc`.
unfoldable pub alloc_loop : (id : ℕ) → List ℕ → List ℕ × Result
alloc_loop id [] = (id ∷ [], ok)
alloc_loop id (object_id ∷ ids) =
    let (rest, result) = alloc_loop id ids in
    if object_id == id
    then (object_id ∷ ids, already_exists)
    else (if object_id == id_invalid then (id ∷ ids, ok) else (object_id ∷ rest, result))

-- The loop of `prs_name_free`.
unfoldable pub free_loop : (id : ℕ) → List ℕ → List ℕ × Result
free_loop id [] = ([], not_found)
free_loop id (object_id ∷ ids) =
    let (rest, result) = free_loop id ids in
    if object_id == id then (id_invalid ∷ ids, ok) else (object_id ∷ rest, result)

-- What `prs_name_alloc` and `prs_name_free` do around the loop: they lock the object, run the loop on
-- the list of its key, and unlock it.
unfoldable pub with_list :
    Ops
    → (memory : ℕ → List ℕ) → (List ℕ → List ℕ × Result)
    → Name
    → (id : ℕ) → God × ℕ
    → Name × God × Result
unfolding get_key get_entry
with_list o memory loop n id (g, object) =
    let entry = get_entry n (get_key n memory object) in
    let (ids, result) = loop (n.entries entry) in
    if object == 0
    then (n, g, not_found)
    else (record n { entries = update n.entries entry ids }, God.unlock o g id, result)

unfoldable pub alloc : Ops → (memory : ℕ → List ℕ) → Name → God → (id : ℕ) → Name × God × Result
unfolding with_list alloc_loop
alloc o memory n g id = with_list o memory (alloc_loop id) n id (God.lock g id)

unfoldable pub free : Ops → (memory : ℕ → List ℕ) → Name → God → (id : ℕ) → Name × God × Result
unfolding with_list free_loop
free o memory n g id = with_list o memory (free_loop id) n id (God.lock g id)

-- `!strcmp(str, key)`
unfoldable pub same_string : List ℕ → List ℕ → Bool
same_string [] [] = true
same_string [] (_ ∷ _) = false
same_string (_ ∷ _) [] = false
same_string (c ∷ cs) (d ∷ ds) = (c == d) && same_string cs ds

-- What the loop of `prs_name_find_internal` does with the locked object of a node, and whether it was
-- found.
unfoldable pub compare :
    Ops
    → (memory : ℕ → List ℕ) → Name
    → (key : List ℕ) → (keep_locked : Bool) → (object_id : ℕ) → God × ℕ
    → God × Bool
unfolding get_key same_string
compare o memory n key keep_locked object_id (g, object) =
    let found = same_string (get_key n memory object) key in
    if object == 0
    then (g, false)
    else (if not found || not keep_locked then God.unlock o g object_id else g, found)

unfoldable pub visit :
    Ops
    → (memory : ℕ → List ℕ) → Name
    → (key : List ℕ) → (keep_locked : Bool) → God
    → (object_id : ℕ) → God × Bool
unfolding compare
visit o memory n key keep_locked g object_id =
    if object_id == id_invalid
    then (g, false)
    else compare o memory n key keep_locked object_id (God.lock g object_id)

unfoldable pub find_loop :
    Ops
    → (memory : ℕ → List ℕ) → Name
    → (key : List ℕ) → (keep_locked : Bool) → God
    → List ℕ
    → God × ℕ
unfolding visit
find_loop o memory n key keep_locked g [] = (g, id_invalid)
find_loop o memory n key keep_locked g (object_id ∷ ids) =
    let (h, found) = visit o memory n key keep_locked g object_id in
    let rest = find_loop o memory n key keep_locked h ids in if found then (h, object_id) else rest

unfoldable pub find_internal :
    Ops → (memory : ℕ → List ℕ) → Name → God → (key : List ℕ) → (keep_locked : Bool) → God × ℕ
unfolding get_entry find_loop
find_internal o memory n g key keep_locked =
    find_loop o memory n key keep_locked g (n.entries (get_entry n key))

unfoldable pub find : Ops → (memory : ℕ → List ℕ) → Name → God → (key : List ℕ) → God × ℕ
unfolding find_internal
find o memory n g key = find_internal o memory n g key false

unfoldable pub find_and_lock : Ops → (memory : ℕ → List ℕ) → Name → God → (key : List ℕ) → God × ℕ
unfolding find_internal
find_and_lock o memory n g key = find_internal o memory n g key true
