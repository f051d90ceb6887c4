-- ===== src/Proc.antt =====
-- prs/proc.c: the command line of a process, the table of the address ranges of the programs that are
-- loaded, and the objects that belong to a process. A command line is the list of its characters,
-- without its terminator; `argv` holds positions in it. A list of objects is the list of their IDs, as
-- prs/lib/ds/mpsciq.c keeps them. `none` stands for a fatal error. Allocations succeed: the code stops the
-- program where one fails.
pub mod Cmdline
pub mod Words
pub mod Ranges
mod Tests
use prs.Base.{
  ℕ, zero, suc, ◌+◌, ◌-◌, Bool, true, false, not, ◌&&◌, ◌||◌, Option, none, some, List, [], ◌∷◌,
  ◌++◌, ◌==◌, ltb, leb, if◌then◌else◌, word, update, get_elem?, length,
}
use prs.Base.Result.{Result, ok, not_found, empty}
use prs.God
use prs.God.{God, Ops}

abbrev pub space : ℕ
space = 32

abbrev pub quote : ℕ
quote = 34

-- What both loops of `prs_proc_parse_cmdline` keep.
pub record Scan : Type 0 where
  pub in_quote : Bool
  pub in_arg : Bool

abbrev pub start : Scan
start = record { in_quote = false; in_arg = false }

-- The two flags behind a character.
unfoldable pub next : Scan → (c : ℕ) → Scan
next s c =
    if c == space
    then (if not s.in_quote && s.in_arg then record s { in_arg = false } else s)
    else record { in_quote = if c == quote then not s.in_quote else s.in_quote; in_arg = true }

-- Whether an argument begins at a character.
unfoldable pub begins : Scan → (c : ℕ) → Bool
begins s c = not (c == space) && not s.in_arg

-- The first loop: `argc` at the end.
unfoldable pub count_args : Scan → List ℕ → (argc : ℕ) → ℕ
unfolding next begins
count_args s [] argc = argc
count_args s (c ∷ cs) argc = count_args (next s c) cs (if begins s c then argc + 1 else argc)

-- What the second loop leaves of a character.
unfoldable pub write : Scan → (c : ℕ) → ℕ
write s c =
    if c == space
    then (if not s.in_quote && s.in_arg then 0 else c)
    else (if c == quote then 0 else c)

-- The second loop, from position `p`: the buffer and the arguments behind it.
unfoldable pub split : Scan → List ℕ → (p : ℕ) → List ℕ × List ℕ
unfolding next begins write
split s [] p = ([], [])
split s (c ∷ cs) p =
    let (buffer, argv) = split (next s c) cs (p + 1) in
    (
      write s c ∷ buffer,
      if begins s c then (if (next s c).in_quote then p + 1 else p) ∷ argv else argv,
    )

pub record MainParams : Type 0 where
  pub argc : ℕ
  pub buffer : List ℕ
  pub argv : List ℕ

unfoldable pub parse_cmdline : List ℕ → MainParams
unfolding count_args split
parse_cmdline cmdline = record {
  argc = count_args start cmdline 0;
  buffer = (split start cmdline 0).0;
  argv = (split start cmdline 0).1;
}

-- With run-time checks.
unfoldable pub get_argv : MainParams → (arg : ℕ) → Option ℕ
get_argv m arg = if leb m.argc arg then none else get_elem? m.argv arg

abbrev pub max_objects : ℕ
max_objects = 4096

pub record Range : Type 0 where
  pub base : ℕ
  pub size : ℕ

pub record RangeTable : Type 0 where
  pub range_table : ℕ → Range
  pub range_table_count : ℕ

-- The loop of `prs_proc_range_table_add` over the indices below `i`, from the highest down.
unfoldable pub find_index : RangeTable → (i count : ℕ) → ℕ
find_index t zero count = count
find_index t (suc i) count =
    let rest = find_index t i count in if (t.range_table i).base == 0 then i else rest

-- The table and the index of the process.
unfoldable pub range_table_add : RangeTable → (base size : ℕ) → Option (RangeTable × ℕ)
unfolding find_index
range_table_add t base size =
    let index = find_index t t.range_table_count t.range_table_count in
    if leb max_objects index
    then none
    else some (
      record {
        range_table = update t.range_table index (record { base = base; size = size });
        range_table_count =
            if leb t.range_table_count index then index + 1 else t.range_table_count;
      },
      index,
    )

unfoldable pub range_table_del : RangeTable → (index : ℕ) → Option RangeTable
range_table_del t index =
    if leb max_objects index
    then none
    else some
        (record t { range_table = update t.range_table index (record { base = 0; size = 0 }) })

-- The tests that `prs_proc_is_user_text` makes on a range.
unfoldable pub in_range : Range → (ip : ℕ) → Bool
in_range r ip =
    not (r.base == 0) && ltb r.base ip && not (r.size == 0) && ltb ip (word (r.base + r.size))

-- Its loop, from index `i` on, with the rounds left.
unfoldable pub search : RangeTable → (left i ip : ℕ) → Bool
unfolding in_range
search t zero i ip = false
search t (suc left) i ip = in_range (t.range_table i) ip || search t left (i + 1) ip

unfoldable pub is_user_text : RangeTable → (ip : ℕ) → Bool
unfolding search
is_user_text t ip = search t t.range_table_count 0 ip

-- The process keeps a reference to itself for each of its objects; `id` is its ID.
unfoldable pub register_object :
    God → (id : ℕ) → (objects : List ℕ) → (object_id : ℕ) → Option (God × List ℕ)
register_object g id objects object_id =
    let (h, ptr) = God.lock g id in if ptr == 0 then none else some (h, objects ++ object_id ∷ [])

-- The loop of `prs_proc_unregister_object`: the list without the first such object, and whether there
-- was one.
unfoldable pub take_out : (object_id : ℕ) → List ℕ → List ℕ × Bool
take_out object_id [] = ([], false)
take_out object_id (x ∷ xs) =
    let (rest, found) = take_out object_id xs in
    if x == object_id then (xs, true) else (x ∷ rest, found)

unfoldable pub unregister_object :
    Ops → God → (id : ℕ) → (objects : List ℕ) → (object_id : ℕ) → God × List ℕ × Result
unfolding take_out
unregister_object o g id objects object_id =
    let (rest, found) = take_out object_id objects in
    if found then (God.unlock o g id, rest, ok) else (g, rest, not_found)
