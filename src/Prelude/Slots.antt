-- ===== src/Prelude/Slots.antt =====
-- A vector of ids each of which knows its place in it: `push`, and `swap_remove` with the relabelling of
-- the id that it moves.
use Prim.Native.Nat.{ℕ, zero, suc, ◌+◌, ◌-◌, ◌<◌, ◌≤◌}
use mathlib.Core.Path.{◌≡◌, refl, sym, ap, ◌∙◌}
use mathlib.Core.Logic.{◌≢◌}
use mathlib.Core.Option.{Option, none, some}
use mathlib.Core.List.{List, [], ◌∷◌, ◌++◌}
use native.Mathlib.Omega.{arith}
use orthotope.Prelude.Tests.{◌==◌, if◌then◌else◌}
use orthotope.Prelude.Lists.{length, get_elem?, take, set_elem, sum_by, length-take}
use orthotope.Prelude.Panics.{◌>>=◌, Returns, Returns->>=, Returns-self}

-- `Vec::swap_remove`: the last element takes the place of the one that is removed.
unfoldable pub swap_remove : List ℕ → ℕ → Option (ℕ × List ℕ)
swap_remove xs i = do
  removed ← get_elem? xs i
  last ← get_elem? xs (length xs - 1)
  some (removed, set_elem (take (length xs - 1) xs) i last)

module _ {ℓ} {A : Type ℓ} where
  pub get-append_left :
      (xs ys : List A) (k : ℕ) → k < length xs → get_elem? (xs ++ ys) k ≡ get_elem? xs k
  get-append_left [] ys k h = absurd (omega arith)
  get-append_left (x ∷ xs) ys zero h = refl
  get-append_left (x ∷ xs) ys (suc k) h = get-append_left xs ys k (omega arith)

  pub get-append_last : (xs : List A) (y : A) → get_elem? (xs ++ (y ∷ [])) (length xs) ≡ some y
  get-append_last [] y = refl
  get-append_last (x ∷ xs) y = get-append_last xs y

  pub get-some-lt : (xs : List A) (k : ℕ) (x : A) → get_elem? xs k ≡ some x → k < length xs
  get-some-lt [] k x e = cc
  get-some-lt (y ∷ xs) zero x e = omega arith
  get-some-lt (y ∷ xs) (suc k) x e = omega (arith, get-some-lt xs k x e)

  pub get-lt-some : (xs : List A) (k : ℕ) → k < length xs → (x : A) × (get_elem? xs k ≡ some x)
  get-lt-some [] k h = absurd (omega arith)
  get-lt-some (x ∷ xs) zero h = (x, refl)
  get-lt-some (x ∷ xs) (suc k) h = get-lt-some xs k (omega arith)

  get-take : (xs : List A) (n k : ℕ) → k < n → get_elem? (take n xs) k ≡ get_elem? xs k
  get-take xs zero k h = absurd (omega arith)
  get-take [] (suc n) k h = refl
  get-take (x ∷ xs) (suc n) zero h = refl
  get-take (x ∷ xs) (suc n) (suc k) h = get-take xs n k (omega arith)

  pub get-set_same :
      (xs : List A) (i : ℕ) (y : A) → i < length xs → get_elem? (set_elem xs i y) i ≡ some y
  get-set_same [] i y h = absurd (omega arith)
  get-set_same (x ∷ xs) zero y h = refl
  get-set_same (x ∷ xs) (suc i) y h = get-set_same xs i y (omega arith)

  pub get-set_other :
      (xs : List A) (i k : ℕ) (y : A) → k ≢ i → get_elem? (set_elem xs i y) k ≡ get_elem? xs k
  get-set_other [] i k y ne = refl
  get-set_other (x ∷ xs) zero zero y ne = absurd (ne refl)
  get-set_other (x ∷ xs) zero (suc k) y ne = refl
  get-set_other (x ∷ xs) (suc i) zero y ne = refl
  get-set_other (x ∷ xs) (suc i) (suc k) y ne = get-set_other xs i k y (λ e. ne (ap suc e))

  pub length-set : (xs : List A) (i : ℕ) (y : A) → length (set_elem xs i y) ≡ length xs
  length-set [] i y = refl
  length-set (x ∷ xs) zero y = refl
  length-set (x ∷ xs) (suc i) y = ap suc (length-set xs i y)

-- The vector lists exactly the ids that have a place, each at its place.
abbrev pub Agree : (slot : ℕ → Option ℕ) → List ℕ → Type 0
Agree slot ids =
    ((k id : ℕ) → get_elem? ids k ≡ some id → slot id ≡ some k)
    × ((k id : ℕ) → slot id ≡ some k → get_elem? ids k ≡ some id)

abbrev pub place : (ℕ → Option ℕ) → ℕ → Option ℕ → ℕ → Option ℕ
place slot id v j = if j == id then v else slot j

abbrev some_weight {ℓ} : {A : Type ℓ} → (A → ℕ) → Option A → ℕ
some_weight f none = 0
some_weight f (some a) = f a

pub sum_by-set {ℓ} :
    {A : Type ℓ} (f : A → ℕ) (xs : List A) (i : ℕ) (x y : A)
    → get_elem? xs i ≡ some x
    → sum_by f (set_elem xs i y) + f x ≡ sum_by f xs + f y
sum_by-set f [] i x y e = cc
sum_by-set f (z ∷ xs) zero x y e = omega (arith, ap (some_weight f) e)
sum_by-set f (z ∷ xs) (suc i) x y e = omega (arith, sum_by-set f xs i x y e)

-- What is left after a removal: the other elements but the last keep their places, and the last is in the
-- place of the one that is removed, if that was another. Nothing is at or past the last place.
abbrev pub Removed : List ℕ → ℕ → ℕ × List ℕ → Type 0
Removed xs i (removed, ys) =
    ((k : ℕ) → k ≢ i → k + 1 < length xs → get_elem? ys k ≡ get_elem? xs k)
    × (i + 1 < length xs → get_elem? ys i ≡ get_elem? xs (length xs - 1))
    × ((k : ℕ) (y : ℕ) → get_elem? ys k ≡ some y → k + 1 < length xs)

pub swap_remove-get : (xs : List ℕ) (i : ℕ) → Returns (Removed xs i) (swap_remove xs i)
unfolding swap_remove
swap_remove-get xs i =
    Returns->>= (λ r. get_elem? xs i ≡ some r) (Removed xs i) (get_elem? xs i) _
      (Returns-self (get_elem? xs i))
      (λ removed e.
        Returns->>= (λ l. get_elem? xs (length xs - 1) ≡ some l) (Removed xs i)
          (get_elem? xs (length xs - 1)) _ (Returns-self (get_elem? xs (length xs - 1)))
          (λ last e'. (
            λ k ne h.
                get-set_other (take (length xs - 1) xs) i k last ne
                ∙ get-take xs (length xs - 1) k (omega arith),
            λ h.
                get-set_same (take (length xs - 1) xs) i last
                  (omega (arith, length-take (length xs - 1) xs))
                ∙ sym e',
            λ k y h. omega (
              arith,
              get-some-lt _ k y h,
              length-set (take (length xs - 1) xs) i last,
              length-take (length xs - 1) xs,
            ),
          )))

pub sum_by-get {ℓ} :
    {A : Type ℓ} (f : A → ℕ) (xs : List A) (i : ℕ) (x : A)
    → get_elem? xs i ≡ some x
    → f x ≤ sum_by f xs
sum_by-get f [] i x e = cc
sum_by-get f (z ∷ xs) zero x e = omega (arith, ap (some_weight f) e)
sum_by-get f (z ∷ xs) (suc i) x e = omega (arith, sum_by-get f xs i x e)

pub sum_by-none {ℓ} :
    {A : Type ℓ} (f : A → ℕ) (xs : List A)
    → ((i : ℕ) (x : A) → get_elem? xs i ≡ some x → f x ≡ 0)
    → sum_by f xs ≡ 0
sum_by-none f [] h = refl
sum_by-none f (z ∷ xs) h = omega (arith, h 0 z refl, sum_by-none f xs (λ i x e. h (suc i) x e))
