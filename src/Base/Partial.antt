-- ===== src/Base/Partial.antt =====
-- Computations that may have no result, as an assertion that fails or memory that was freed.
use mathlib.Core.Path.{◌≡◌, refl}
use mathlib.Core.Bool.{Bool, true, false}
use mathlib.Core.Option.{Option, none, some}
use prs.Base.Tests.{if◌then◌else◌}

infixl 5 ◌>>=◌
abbrev pub ◌>>=◌ : {A B : Type 0} → Option A → (A → Option B) → Option B
none >>= f = none
some a >>= f = f a

-- What holds for the value, if there is one.
pub data All {A : Type 0} (P : A → Type 0) : Option A → Type 0 where
  nothing : All P none
  just : {a : A} → P a → All P (some a)

pub All-bind :
    {A B : Type 0} (P : B → Type 0) (o : Option A) (f : A → Option B)
    → ((a : A) → All P (f a))
    → All P (o >>= f)
All-bind P none f each = nothing
All-bind P (some a) f each = each a

pub All-bind_with :
    {A B : Type 0} (Q : A → Type 0) (P : B → Type 0) (o : Option A) (f : A → Option B)
    → All Q o
    → ((a : A) → Q a → All P (f a))
    → All P (o >>= f)
All-bind_with Q P none f all each = nothing
All-bind_with Q P (some a) f (just q) each = each a q

pub All-if :
    {A : Type 0} (P : A → Type 0) (b : Bool) (o p : Option A)
    → (b ≡ true → All P o)
    → (b ≡ false → All P p)
    → All P (if b then o else p)
All-if P true o p left right = left refl
All-if P false o p left right = right refl

pub All-some : {A : Type 0} {P : A → Type 0} {a : A} → All P (some a) → P a
All-some (just p) = p
