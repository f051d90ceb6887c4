-- ===== src/Proc/Cmdline.antt =====
-- The command lines of prs/proc.c.
use prs.Base.{
  ℕ, suc, ◌+◌, ◌≤◌, ◌≡◌, refl, ap, subst, Bool, true, false, List, [], ◌∷◌, if◌then◌else◌, length,
  arith, Bool-cases, inl, inr,
}
use prs.Proc.{Scan, start, next, begins, count_args, split, parse_cmdline}

-- Each position is that of a character, or the one behind the last.
abbrev pub AllInside : (end : ℕ) → List ℕ → Type 0
AllInside end [] = Unit
AllInside end (k ∷ argv) = (k ≤ end) × AllInside end argv

count_args-split :
    (s : Scan) (cs : List ℕ) (argc p : ℕ) → count_args s cs argc ≡ argc + length (split s cs p).1
unfolding count_args split
count_args-split s [] argc p = omega arith
count_args-split s (c ∷ cs) argc p = elim (Bool-cases (begins s c)) [
  | inl e ↦ rw e (omega (arith, count_args-split (next s c) cs (argc + 1) (p + 1)))
  | inr e ↦ rw e (count_args-split (next s c) cs argc (p + 1))
]

split-buffer : (s : Scan) (cs : List ℕ) (p : ℕ) → length (split s cs p).0 ≡ length cs
unfolding split
split-buffer s [] p = refl
split-buffer s (c ∷ cs) p = ap suc (split-buffer (next s c) cs (p + 1))

inside_if :
    (b : Bool) (k end : ℕ) (argv : List ℕ)
    → k ≤ end
    → AllInside end argv
    → AllInside end (if b then k ∷ argv else argv)
inside_if true k end argv low rest = (low, rest)
inside_if false k end argv low rest = rest

-- The position of an argument: behind its quote, where it begins with one.
position : (b : Bool) (p n : ℕ) → (if b then p + 1 else p) ≤ p + suc n
position true p n = omega arith
position false p n = omega arith

split-inside : (s : Scan) (cs : List ℕ) (p : ℕ) → AllInside (p + length cs) (split s cs p).1
unfolding split
split-inside s [] p = tt
split-inside s (c ∷ cs) p =
    let end : p + 1 + length cs ≡ p + suc (length cs) = omega arith in
    inside_if (begins s c) _ _ _ (position (next s c).in_quote p (length cs)) (
      subst (λ n. AllInside n (split (next s c) cs (p + 1)).1) end
        (split-inside (next s c) cs (p + 1)))

-- Both loops of `prs_proc_parse_cmdline` find the same number of arguments: the second one fills exactly
-- the `argc` places that were allocated for `argv`, each with a position in the buffer or that of its
-- terminator, and it leaves the buffer as long as the command line.
pub parse_cmdline-fills :
    (cmdline : List ℕ)
    → let m = parse_cmdline cmdline in
      (m.argc ≡ length m.argv)
      × AllInside (length cmdline) m.argv
      × (length m.buffer ≡ length cmdline)
unfolding parse_cmdline
parse_cmdline-fills cmdline =
    let end : 0 + length cmdline ≡ length cmdline = omega arith in
    (
      omega (arith, count_args-split start cmdline 0 0),
      subst (λ n. AllInside n (split start cmdline 0).1) end (split-inside start cmdline 0),
      split-buffer start cmdline 0,
    )
