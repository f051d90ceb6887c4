-- ===== src/Proc/Words.antt =====
-- What the arguments read that prs/proc.c finds in a command line without quotes.
use mathlib.Core.List.{map}
use prs.Base.{
  fun_ext, ℕ, zero, suc, ◌+◌, ◌≡◌, ◌≢◌, refl, ap, sym, subst, Bool, true, false, not, ◌&&◌, List,
  [], ◌∷◌, ◌++◌, ◌==◌, if◌then◌else◌, length, length-append, arith, Bool-cases, inl, inr,
}
use prs.Proc.{Scan, next, begins, write, split, parse_cmdline, space, quote}

-- The first piece of a text up to a space, and the pieces behind it.
unfoldable pub pieces : List ℕ → List ℕ × List (List ℕ)
pieces [] = ([], [])
pieces (c ∷ cs) =
    let (piece, rest) = pieces cs in if c == space then ([], piece ∷ rest) else (c ∷ piece, rest)

unfoldable pub non_empty : List (List ℕ) → List (List ℕ)
non_empty [] = []
non_empty ([] ∷ rest) = non_empty rest
non_empty ((c ∷ cs) ∷ rest) = (c ∷ cs) ∷ non_empty rest

-- The words of a text.
unfoldable pub words : List ℕ → List (List ℕ)
unfolding pieces non_empty
words cs = let (piece, rest) = pieces cs in non_empty (piece ∷ rest)

-- The string at a position of a buffer, up to its terminator.
unfoldable pub until_zero : List ℕ → List ℕ
until_zero [] = []
until_zero (c ∷ cs) = let rest = until_zero cs in if c == 0 then [] else c ∷ rest

unfoldable pub string_at : List ℕ → ℕ → List ℕ
unfolding until_zero
string_at [] k = []
string_at (c ∷ cs) zero = until_zero (c ∷ cs)
string_at (c ∷ cs) (suc k) = string_at cs k

-- No quote and no terminator among the characters.
abbrev pub Plain : List ℕ → Type 0
Plain [] = Unit
Plain (c ∷ cs) = (c ≢ quote) × (c ≢ 0) × Plain cs

abbrev unquoted : Bool → Scan
unquoted b = record { in_quote = false; in_arg = b }

module _ (c : ℕ) (b : Bool) where
  next-space : (c == space) ≡ true → next (unquoted b) c ≡ unquoted false
  unfolding next
  next-space e = ground arith

  next-char : (c == space) ≡ false → c ≢ quote → next (unquoted b) c ≡ unquoted true
  unfolding next
  next-char e plain = ground arith

  write-space : (c == space) ≡ true → write (unquoted b) c ≡ (if b then 0 else c)
  unfolding write
  write-space e = ground arith

  write-char : (c == space) ≡ false → c ≢ quote → write (unquoted b) c ≡ c
  unfolding write
  write-char e plain = ground arith

  begins_lem : begins (unquoted b) c ≡ (not (c == space) && not b)
  unfolding begins
  begins_lem = refl

-- The string that begins behind the characters of `front`.
string_at-behind :
    (front : List ℕ) (c : ℕ) (cs : List ℕ)
    → string_at (front ++ c ∷ cs) (length front) ≡ until_zero (c ∷ cs)
unfolding string_at
string_at-behind [] c cs = refl
string_at-behind (x ∷ front) c cs = string_at-behind front c cs

append_one : (front : List ℕ) (c : ℕ) (cs : List ℕ) → front ++ c ∷ cs ≡ (front ++ c ∷ []) ++ cs
append_one [] c cs = refl
append_one (x ∷ front) c cs = ap (λ l. x ∷ l) (append_one front c cs)

-- How the arguments in a buffer read, which `place` puts behind what was written before, outside and
-- inside an argument.
abbrev Reads : Bool → (place : List ℕ → List ℕ) → List ℕ × List ℕ → List ℕ × List (List ℕ) → Type 0
Reads false place (buffer, argv) (piece, rest) =
    map (string_at (place buffer)) argv ≡ non_empty (piece ∷ rest)
Reads true place (buffer, argv) (piece, rest) =
    (until_zero buffer ≡ piece) × (map (string_at (place buffer)) argv ≡ non_empty rest)

-- Behind one more character.
shift_Reads :
    (b : Bool) (front : List ℕ) (w : ℕ) (cs : List ℕ)
    → Reads b
        (λ l. (front ++ w ∷ []) ++ l)
        (split (unquoted b) cs (length (front ++ w ∷ [])))
        (pieces cs)
    → Reads b (λ l. front ++ w ∷ l) (split (unquoted b) cs (length front + 1)) (pieces cs)
shift_Reads b front w cs reads =
    let far : length (front ++ w ∷ []) ≡ length front + 1 = length-append front (w ∷ []) in
    let places = fun_ext (λ l. sym (append_one front w l)) in
    subst (λ place. Reads b place (split (unquoted b) cs (length front + 1)) (pieces cs)) places
      (subst (λ n. Reads b (λ l. (front ++ w ∷ []) ++ l) (split (unquoted b) cs n) (pieces cs)) far
        reads)

split-Reads :
    (cs : List ℕ) (b : Bool) (front : List ℕ)
    → Plain cs
    → Reads b (λ l. front ++ l) (split (unquoted b) cs (length front)) (pieces cs)
unfolding split pieces until_zero non_empty
split-Reads [] true front plain = (refl, refl)
split-Reads [] false front plain = refl
split-Reads (c ∷ cs) true front (no_quote, no_zero, plain) = elim (Bool-cases (c == space)) [
  | inl e ↦
      let reads = shift_Reads false front 0 cs (split-Reads cs false (front ++ 0 ∷ []) plain) in
      rw (next-space c true e, write-space c true e, begins_lem c true, e) (refl, reads)
  | inr e ↦
      let reads = shift_Reads true front c cs (split-Reads cs true (front ++ c ∷ []) plain) in
      let more : (c == 0) ≡ false = ground arith in
      rw (next-char c true e no_quote, write-char c true e no_quote, begins_lem c true, e, more)
        (ap (λ l. c ∷ l) reads.0, reads.1)
]
split-Reads (c ∷ cs) false front (no_quote, no_zero, plain) = elim (Bool-cases (c == space)) [
  | inl e ↦
      let reads = shift_Reads false front c cs (split-Reads cs false (front ++ c ∷ []) plain) in
      rw (next-space c false e, write-space c false e, begins_lem c false, e) reads
  | inr e ↦
      let reads = shift_Reads true front c cs (split-Reads cs true (front ++ c ∷ []) plain) in
      let more : (c == 0) ≡ false = ground arith in
      rw
        (
          next-char c false e no_quote,
          write-char c false e no_quote,
          begins_lem c false,
          e,
          string_at-behind front c _,
          more,
          reads.0,
          reads.1,
        )
        refl
]

-- Of a command line without quotes, the arguments that `prs_proc_parse_cmdline` stores read, each up to
-- its terminator in the buffer, as the words of the command line: its pieces between spaces that are
-- not empty, in order.
pub parse_cmdline-words :
    (cmdline : List ℕ)
    → Plain cmdline
    → let m = parse_cmdline cmdline in map (string_at m.buffer) m.argv ≡ words cmdline
unfolding parse_cmdline words
parse_cmdline-words cmdline plain = split-Reads cmdline false [] plain
