-- ===== src/Prelude/Panics.antt =====
-- Calls that may panic, as optional results: the bind that do blocks use, and what holds
-- of a run that does not panic.
use mathlib.Core.Path.{◌≡◌, refl, subst}
use mathlib.Core.Option.{Option, none, some}

module _ {A B : Type 0} where
  infixl 5 ◌>>=◌
  abbrev pub ◌>>=◌ : Option A → (A → Option B) → Option B
  none >>= f = none
  some a >>= f = f a

-- What holds of the result, if there is one
abbrev pub Returns : {A : Type 0} → (A → Type 0) → Option A → Type 0
Returns P none = Unit
Returns P (some a) = P a

pub Returns-self : {A : Type 0} (o : Option A) → Returns (λ a. o ≡ some a) o
Returns-self none = tt
Returns-self (some a) = refl

pub Returns->>= :
    {A B : Type 0} (P : A → Type 0) (Q : B → Type 0) (o : Option A) (f : A → Option B)
    → Returns P o
    → ((a : A) → P a → Returns Q (f a))
    → Returns Q (o >>= f)
Returns->>= P Q none f h k = tt
Returns->>= P Q (some a) f h k = k a h

pub Returns-some :
    {A : Type 0} (P : A → Type 0) (o : Option A) (a : A) → Returns P o → o ≡ some a → P a
Returns-some P o a h e = subst (Returns P) e h

pub Returns-any : {A : Type 0} (o : Option A) → Returns (λ a. Unit {0}) o
Returns-any none = tt
Returns-any (some a) = tt

pub Returns-map :
    {A : Type 0} (P Q : A → Type 0) (o : Option A)
    → ((a : A) → P a → Q a)
    → Returns P o
    → Returns Q o
Returns-map P Q none f h = tt
Returns-map P Q (some a) f h = f a h
