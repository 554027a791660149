-- ===== src/Base/Loop.antt =====
-- Loops on fuel over results that may fail. `none` stands for a fault (a read outside the
-- memory) and for fuel that runs out; `Returns` says that neither happens.
use Prim.Native.Nat.{ℕ, zero, suc, ◌<◌}
use mathlib.Core.Path.{◌≡◌, refl}
use mathlib.Core.Option.{Option, none, some}
use mathlib.Core.Bool.{Bool, true, false}
use b1c3995fdcf53d46308da.Base.Numbers.{if◌then◌else◌}
use native.Mathlib.Omega.{arith}

-- One round of a loop: the state to go on with, or the result.
pub data Step (S R : Type 0) : Type 0 where
  again : S → Step S R
  done : R → Step S R

infixl 5 ◌>>=◌
abbrev pub ◌>>=◌ : {A B : Type 0} → Option A → (A → Option B) → Option B
none >>= f = none
some a >>= f = f a

-- `assert`
abbrev pub asserting : {A : Type 0} → Bool → Option A → Option A
asserting true m = m
asserting false m = none

-- The computation returns a value, and the value satisfies `P`.
abbrev pub Returns : {A : Type 0} → Option A → (A → Type 0) → Type 0
Returns none P = ⊥
Returns (some a) P = P a

pub Returns->>= :
    {A B : Type 0} (P : A → Type 0) (Q : B → Type 0) (m : Option A) (f : A → Option B)
    → Returns m P
    → ((a : A) → P a → Returns (f a) Q)
    → Returns (m >>= f) Q
Returns->>= P Q none f h k = absurd h
Returns->>= P Q (some a) f h k = k a h

pub Returns-weaken :
    {A : Type 0} (P Q : A → Type 0) (m : Option A)
    → Returns m P
    → ((a : A) → P a → Q a)
    → Returns m Q
Returns-weaken P Q none h k = absurd h
Returns-weaken P Q (some a) h k = k a h

pub Returns-value :
    {A : Type 0} (P : A → Type 0) (m : Option A) → Returns m P → (a : A) × (m ≡ some a) × P a
Returns-value P none h = absurd h
Returns-value P (some a) h = (a, refl, h)

module _ {S R : Type 0} where
  -- What follows one round, by `k` if the loop goes on.
  pub continue_with : (S → Option R) → Option (Step S R) → Option R
  continue_with k none = none
  continue_with k (some (again s)) = k s
  continue_with k (some (done r)) = some r

  unfoldable pub iterate : ℕ → (S → Option (Step S R)) → S → Option R
  unfolding continue_with
  iterate zero step s = none
  iterate (suc fuel) step s = continue_with (iterate fuel step) (step s)

  pub iterate-again :
      (fuel : ℕ) (step : S → Option (Step S R)) (s s' : S)
      → step s ≡ some (again s')
      → iterate (suc fuel) step s ≡ iterate fuel step s'
  unfolding iterate continue_with
  iterate-again fuel step s s' e = rw e refl

  pub iterate-done :
      (fuel : ℕ) (step : S → Option (Step S R)) (s : S) (r : R)
      → step s ≡ some (done r)
      → iterate (suc fuel) step s ≡ some r
  unfolding iterate continue_with
  iterate-done fuel step s r e = rw e refl

  -- What a round must establish: the invariant and a smaller measure, or the result's property.
  abbrev pub StepOk : (P : S → Type 0) (Q : R → Type 0) → (S → ℕ) → ℕ → Step S R → Type 0
  StepOk P Q measure bound (again s) = P s × (measure s < bound)
  StepOk P Q measure bound (done r) = Q r

  continue_with-Returns :
      (P : S → Type 0) (Q : R → Type 0) (measure : S → ℕ) (bound : ℕ) (k : S → Option R)
      (o : Option (Step S R))
      → Returns o (StepOk P Q measure bound)
      → ((s : S) → P s → measure s < bound → Returns (k s) Q)
      → Returns (continue_with k o) Q
  unfolding continue_with
  continue_with-Returns P Q measure bound k none h next = absurd h
  continue_with-Returns P Q measure bound k (some (again s)) h next = next s h.0 h.1
  continue_with-Returns P Q measure bound k (some (done r)) h next = h

  -- A loop whose rounds keep an invariant and lower a measure returns.
  pub iterate-Returns :
      (P : S → Type 0) (Q : R → Type 0) (measure : S → ℕ) (step : S → Option (Step S R))
      → ((s : S) → P s → Returns (step s) (StepOk P Q measure (measure s)))
      → (fuel : ℕ) (s : S) → measure s < fuel
      → P s
      → Returns (iterate fuel step s) Q
  unfolding iterate
  iterate-Returns P Q measure step keep zero s m h = absurd (omega arith)
  iterate-Returns P Q measure step keep (suc fuel) s m h =
      continue_with-Returns P Q measure (measure s) (iterate fuel step) (step s) (keep s h)
        (λ s' h' smaller. iterate-Returns P Q measure step keep fuel s' (omega arith) h')

-- A conditional returns what is asked if both branches do.
pub Returns-if :
    {A : Type 0} (P : A → Type 0) (b : Bool) (x y : Option A)
    → (b ≡ true → Returns x P)
    → (b ≡ false → Returns y P)
    → Returns (if b then x else y) P
Returns-if P true x y h k = h refl
Returns-if P false x y h k = k refl
