-- ===== src/Proc/Ranges.antt =====
-- The address ranges of the programs that prs/proc.c has loaded.
use prs.Base.{
  ℕ, zero, suc, ◌+◌, ◌^◌, ◌≤◌, ◌<◌, ◌≡◌, ◌≢◌, refl, ap, subst, ◌∙◌, Bool, true, false, ◌||◌, some,
  ◌==◌, leb, if◌then◌else◌, update, arith, Bool-cases, test_self, eq_of_test, inl, inr,
}
use prs.Proc.{
  Range, RangeTable, max_objects, find_index, range_table_add, range_table_del, in_range, search,
  is_user_text,
}

-- The index that a range goes to is that of a free entry, or the first one behind all others.
find_index-free :
    (t : RangeTable) (i count : ℕ)
    → i ≤ count
    → (find_index t i count ≤ count)
      × (find_index t i count < count → (t.range_table (find_index t i count)).base ≡ 0)
unfolding find_index
find_index-free t zero count fits = ground arith
find_index-free t (suc i) count fits = ground (arith, find_index-free t i count (omega arith))

-- A free entry holds no address.
in_range-free : (r : Range) (ip : ℕ) → r.base ≡ 0 → in_range r ip ≡ false
unfolding in_range
in_range-free r ip free = ground arith

or_true : (b : Bool) → (b || true) ≡ true
or_true true = refl
or_true false = refl

-- An address between the base and the end lies in the range.
in_range-inside :
    (base size ip : ℕ)
    → base ≢ 0
    → size ≢ 0
    → base + size < 2 ^ 64
    → base < ip
    → ip < base + size
    → in_range (record { base = base; size = size }) ip ≡ true
unfolding in_range
in_range-inside base size ip some_base some_size fits lo hi = ground arith

search-finds :
    (t : RangeTable) (left i j ip : ℕ)
    → i ≤ j
    → j < i + left
    → in_range (t.range_table j) ip ≡ true
    → search t left i ip ≡ true
unfolding search
search-finds t zero i j ip lo hi inside = absurd (omega arith)
search-finds t (suc left) i j ip lo hi inside = elim (Bool-cases (i == j)) [
  | inl e ↦ let same : i ≡ j = ground arith in rw (same, inside) refl
  | inr e ↦
      rw (search-finds t left (i + 1) j ip (ground arith) (omega arith) inside)
        (or_true (in_range (t.range_table i) ip))
]

search-same :
    (t u : RangeTable) (left i ip : ℕ)
    → ((j : ℕ) → j < i + left → in_range (t.range_table j) ip ≡ in_range (u.range_table j) ip)
    → search t left i ip ≡ search u left i ip
unfolding search
search-same t u zero i ip same = refl
search-same t u (suc left) i ip same =
    rw (same i (omega arith), search-same t u left (i + 1) ip (λ j lt. same j (omega arith))) refl

search-extend :
    (t : RangeTable) (left i ip : ℕ)
    → in_range (t.range_table (i + left)) ip ≡ false
    → search t (suc left) i ip ≡ search t left i ip
unfolding search
search-extend t zero i ip blank =
    let here : i + 0 ≡ i = omega arith in
    let none_here : in_range (t.range_table i) ip ≡ false =
      subst (λ n. in_range (t.range_table n) ip ≡ false) here blank in
    rw none_here refl
search-extend t (suc left) i ip blank =
    let next : i + suc left ≡ i + 1 + left = omega arith in
    ap (λ b. in_range (t.range_table i) ip || b)
      (search-extend t left (i + 1) ip
        (subst (λ n. in_range (t.range_table n) ip ≡ false) next blank))

module _ (t : RangeTable) (base size : ℕ) (some_base : base ≢ 0)
    (room : t.range_table_count < max_objects) where
  abbrev index : ℕ
  index = find_index t t.range_table_count t.range_table_count

  abbrev pub added : RangeTable
  added = record {
    range_table = update t.range_table index (record { base = base; size = size });
    range_table_count = if leb t.range_table_count index then index + 1 else t.range_table_count;
  }

  index-free :
      (index ≤ t.range_table_count) × (index < t.range_table_count → (t.range_table index).base ≡ 0)
  index-free = find_index-free t t.range_table_count t.range_table_count (omega arith)

  index-inside : leb max_objects index ≡ false
  index-inside = ground (arith, index-free.0)

  range_table_add_lem : range_table_add t base size ≡ some (added, index)
  unfolding range_table_add
  range_table_add_lem = rw (range_table_add, index-inside) refl

  -- The table behind the deletion.
  abbrev pub back : RangeTable
  back = record added {
    range_table = update added.range_table index (record { base = 0; size = 0 });
  }

  at_index : (r : Range) (f : ℕ → Range) → update f index r index ≡ r
  at_index r f = rw (test_self index) refl

  back-index : (ip : ℕ) → in_range (back.range_table index) ip ≡ false
  back-index ip =
      rw (at_index (record { base = 0; size = 0 }) added.range_table)
        (in_range-free (record { base = 0; size = 0 }) ip refl)

  back-same :
      (ip j : ℕ)
      → j < t.range_table_count
      → in_range (back.range_table j) ip ≡ in_range (t.range_table j) ip
  back-same ip j lt = elim (Bool-cases (j == index)) [
    | inl e ↦
        let same : j ≡ index = eq_of_test j index e in
        let blank : (t.range_table index).base ≡ 0 = index-free.1 (omega (arith, same)) in
        rw (same, back-index ip, in_range-free (t.range_table index) ip blank) refl
    | inr e ↦ rw e refl
  ]

  -- The addresses that a range added by `prs_proc_range_table_add` makes known to
  -- `prs_proc_is_user_text` are those behind its base and below its end.
  pub add-is_user_text :
      (ip : ℕ)
      → size ≢ 0
      → base + size < 2 ^ 64
      → base < ip
      → ip < base + size
      → (range_table_add t base size ≡ some (added, index)) × (is_user_text added ip ≡ true)
  unfolding is_user_text
  add-is_user_text ip some_size fits lo hi = (
    range_table_add_lem,
    search-finds added added.range_table_count 0 index ip (omega arith)
        (ground (arith, index-free.0))
        (rw (at_index (record { base = base; size = size }) t.range_table)
          (in_range-inside base size ip some_base some_size fits lo hi)),
  )

  -- When the range is deleted, every address is answered as before it was added.
  pub del-add :
      (range_table_add t base size ≡ some (added, index))
      × (range_table_del added index ≡ some back)
      × ((ip : ℕ) → is_user_text back ip ≡ is_user_text t ip)
  unfolding is_user_text range_table_del
  del-add = (
    range_table_add_lem,
    rw index-inside refl,
    λ ip. elim (Bool-cases (leb t.range_table_count index)) [
      | inl e ↦
          let last : index ≡ t.range_table_count = ground (arith, index-free.0) in
          let one_more : index + 1 ≡ suc t.range_table_count = omega arith in
          rw (e, one_more)
            (search-extend back t.range_table_count 0 ip (
                subst (λ n. in_range (back.range_table n) ip ≡ false) (omega arith) (back-index ip))
              ∙ search-same back t t.range_table_count 0 ip (λ j lt. back-same ip j (omega arith)))
      | inr e ↦
          rw e (search-same back t t.range_table_count 0 ip (λ j lt. back-same ip j (omega arith)))
    ],
  )
