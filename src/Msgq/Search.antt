-- ===== src/Msgq/Search.antt =====
-- The searches of prs/msgq.c.
use prs.Base.{
  ℕ, ◌≡◌, ◌≢◌, refl, sym, ◌∙◌, Bool, true, false, Option, none, some, List, [], ◌∷◌, ◌++◌, ◌==◌,
  if◌then◌else◌, Bool-cases, inl, inr, arith, test_self,
}
use prs.Msgq.{passes, from_hint, search_loop, search}

-- No node is null, and the last one of a queue stands there once.
abbrev pub NodesBefore : (last : ℕ) → List ℕ → Type 0
NodesBefore last [] = Unit
NodesBefore last (node ∷ nodes) = (node ≢ last) × (node ≢ 0) × NodesBefore last nodes

-- The first message that passes.
unfoldable pub first_passing : Option (ℕ → Bool) → List ℕ → Option ℕ
first_passing function [] = none
first_passing function (msg ∷ nodes) =
    let rest = first_passing function nodes in if passes function msg then some msg else rest

pub search_loop-first :
    (function : Option (ℕ → Bool)) (nodes : List ℕ) (hint prev : ℕ)
    → (search_loop function nodes hint prev).0 ≡ first_passing function nodes
unfolding search_loop first_passing
search_loop-first function [] hint prev = refl
search_loop-first function (msg ∷ nodes) hint prev = elim (Bool-cases (passes function msg)) [
  | inl e ↦ rw e refl
  | inr e ↦ rw e (search_loop-first function nodes hint msg)
]

none_if :
    (b : Bool) (msg : ℕ) (rest : Option ℕ)
    → (if b then some msg else rest) ≡ none
    → (b ≡ false) × (rest ≡ none)
none_if true msg rest nothing = absurd (ground arith)
none_if false msg rest nothing = (refl, nothing)

-- Nothing passes in a part of a queue in which nothing passes.
first_passing-front :
    (function : Option (ℕ → Bool)) (front nodes : List ℕ)
    → first_passing function (front ++ nodes) ≡ none
    → first_passing function front ≡ none
unfolding first_passing
first_passing-front function [] nodes nothing = refl
first_passing-front function (msg ∷ front) nodes nothing =
    let split = none_if (passes function msg) msg _ nothing in
    rw split.0 (first_passing-front function front nodes split.1)

-- Behind messages that do not pass, the search goes on.
first_passing-append :
    (function : Option (ℕ → Bool)) (front nodes : List ℕ)
    → first_passing function front ≡ none
    → first_passing function (front ++ nodes) ≡ first_passing function nodes
unfolding first_passing
first_passing-append function [] nodes nothing = refl
first_passing-append function (msg ∷ front) nodes nothing =
    let split = none_if (passes function msg) msg _ nothing in
    rw split.0 (first_passing-append function front nodes split.1)

from_hint-last :
    (last : ℕ) (front nodes : List ℕ)
    → NodesBefore last front
    → from_hint last (front ++ last ∷ nodes) ≡ last ∷ nodes
unfolding from_hint
from_hint-last last [] nodes before = rw (test_self last) refl
from_hint-last last (node ∷ front) nodes (other, _, before) =
    let test : (node == last) ≡ false = ground arith in
    rw test (from_hint-last last front nodes before)

-- The hint of a search that finds nothing is the last node.
search_loop-hint :
    (function : Option (ℕ → Bool)) (front : List ℕ) (last hint prev : ℕ)
    → first_passing function (front ++ last ∷ []) ≡ none
    → search_loop function (front ++ last ∷ []) hint prev ≡ (none, last)
unfolding search_loop first_passing
search_loop-hint function [] last hint prev nothing =
    rw ((none_if (passes function last) last none nothing).0) refl
search_loop-hint function (msg ∷ front) last hint prev nothing =
    let split = none_if (passes function msg) msg _ nothing in
    rw split.0 (search_loop-hint function front last hint msg split.1)

-- A search without a hint finds the oldest message that passes the function. Where it finds nothing,
-- the hint that it leaves is the youngest message, and the next search, with this hint, on the queue to
-- which any messages have been added since, finds the same as a search without a hint: the oldest
-- message that passes.
pub search-hint :
    (function : Option (ℕ → Bool)) (front new : List ℕ) (last : ℕ)
    → last ≢ 0
    → NodesBefore last front
    → first_passing function (front ++ last ∷ []) ≡ none
    → let queue = front ++ last ∷ new in
      (search function (front ++ last ∷ []) 0 ≡ (none, last))
      × ((search function queue last).0 ≡ first_passing function queue)
      × ((search function queue 0).0 ≡ first_passing function queue)
unfolding search
search-hint function front new last some_last before nothing =
    let test : (last == 0) ≡ false = ground arith in
    (
      search_loop-hint function front last 0 _ nothing,
      rw (search, test, from_hint-last last front new before)
          (search_loop-first function (last ∷ new) last last
            ∙ sym (
                first_passing-append function front (last ∷ new)
                  (first_passing-front function front (last ∷ []) nothing))),
      search_loop-first function (front ++ last ∷ new) 0 _,
    )
