-- ===== src/FreeList/Chain.antt =====
-- What a chain of blocks in memory stands for: the list of its addresses.
use orthotope.Prelude.{
  ℕ, zero, suc, ◌≤◌, ◌≡◌, refl, sym, subst, ◌≢◌, Option, none, some, List, [], ◌∷◌, ◌++◌, arith,
  length, take, drop, All, eq→==, ne→==,
}
use orthotope.Header.Memory.{
  Memory, non_null, addr_or_null, read_small_free_list_next, write_small_free_list_next,
}
use orthotope.FreeList.{walk}

-- No block of the list is `a`.
abbrev pub Fresh : ℕ → List ℕ → Type 0
Fresh a = All (λ x. x ≢ a)

abbrev pub Distinct : List ℕ → Type 0
Distinct [] = Unit
Distinct (x ∷ xs) = Fresh x xs × Distinct xs

-- From `start` the links lead through the blocks `xs`, none of them null, and then to `stop`.
abbrev pub Chain : Memory → Option ℕ → List ℕ → Option ℕ → Type 0
Chain m start [] stop = start ≡ stop
Chain m start (x ∷ xs) stop =
    (start ≡ some x) × (x ≢ 0) × Chain m (read_small_free_list_next m x) xs stop

abbrev pub last? : List ℕ → Option ℕ
last? [] = none
last? (x ∷ []) = some x
last? (x ∷ y ∷ ys) = last? (y ∷ ys)

pub read-write_self :
    (m : Memory) (a : ℕ) (next : Option ℕ)
    → read_small_free_list_next (write_small_free_list_next m a next) a
      ≡ non_null (addr_or_null next)
unfolding read_small_free_list_next write_small_free_list_next
read-write_self m a next = rw (eq→== a a refl)

pub read-write_other :
    (m : Memory) (a b : ℕ) (next : Option ℕ)
    → b ≢ a
    → read_small_free_list_next (write_small_free_list_next m a next) b
      ≡ read_small_free_list_next m b
unfolding read_small_free_list_next write_small_free_list_next
read-write_other m a b next ne = rw (ne→== b a ne)

-- A chain survives a write to a block that is not on it.
pub Chain-write :
    (m : Memory) (a : ℕ) (next start stop : Option ℕ) (xs : List ℕ)
    → Fresh a xs
    → Chain m start xs stop
    → Chain (write_small_free_list_next m a next) start xs stop
Chain-write m a next start stop [] f c = c
Chain-write m a next start stop (x ∷ xs) f c = (
  c.0,
  c.1,
  rw (read-write_other m a x next f.0)
      (Chain-write m a next (read_small_free_list_next m x) stop xs f.1 c.2),
)

-- The link word holds where a chain starts.
pub Chain-start :
    (m : Memory) (start : Option ℕ) (xs : List ℕ)
    → Chain m start xs none
    → non_null (addr_or_null start) ≡ start
Chain-start m start [] c = rw c
Chain-start m start (x ∷ xs) c = rw (c.0, ne→== x 0 c.1)

pub Fresh-last : (a y : ℕ) (xs : List ℕ) → Fresh a xs → last? xs ≡ some y → y ≢ a
Fresh-last a y [] f e = absurd (cc)
Fresh-last a y (x ∷ []) f e = ground arith
Fresh-last a y (x ∷ z ∷ zs) f e = Fresh-last a y (z ∷ zs) f.1 e

pub Fresh-take : (a : ℕ) (k : ℕ) (xs : List ℕ) → Fresh a xs → Fresh a (take k xs)
Fresh-take a zero xs f = tt
Fresh-take a (suc k) [] f = tt
Fresh-take a (suc k) (x ∷ xs) f = (f.0, Fresh-take a k xs f.1)

pub Fresh-drop : (a : ℕ) (k : ℕ) (xs : List ℕ) → Fresh a xs → Fresh a (drop k xs)
Fresh-drop a zero xs f = f
Fresh-drop a (suc k) [] f = tt
Fresh-drop a (suc k) (x ∷ xs) f = Fresh-drop a k xs f.1

pub Distinct-take : (k : ℕ) (xs : List ℕ) → Distinct xs → Distinct (take k xs)
Distinct-take zero xs d = tt
Distinct-take (suc k) [] d = tt
Distinct-take (suc k) (x ∷ xs) d = (Fresh-take x k xs d.0, Distinct-take k xs d.1)

pub Distinct-drop : (k : ℕ) (xs : List ℕ) → Distinct xs → Distinct (drop k xs)
Distinct-drop zero xs d = d
Distinct-drop (suc k) [] d = tt
Distinct-drop (suc k) (x ∷ xs) d = Distinct-drop k xs d.1

pub Fresh-append_left : (a : ℕ) (xs ys : List ℕ) → Fresh a (xs ++ ys) → Fresh a xs
Fresh-append_left a [] ys f = tt
Fresh-append_left a (x ∷ xs) ys f = (f.0, Fresh-append_left a xs ys f.1)

-- The walk of `rounds` links from the head, and the cut behind the block that it reaches.
pub record Cut (m : Memory) (x : ℕ) (xs : List ℕ) (rounds : ℕ) : Type 0 where
  pub tail : ℕ
  pub reached : walk m rounds x ≡ some tail
  pub is_last : last? (take (suc rounds) (x ∷ xs)) ≡ some tail
  pub front :
      Chain (write_small_free_list_next m tail none) (some x) (take (suc rounds) (x ∷ xs)) none
  pub back :
      Chain
        (write_small_free_list_next m tail none)
        (read_small_free_list_next m tail)
        (drop (suc rounds) (x ∷ xs))
        none

pub walk-Cut :
    (m : Memory) (rounds x : ℕ) (xs : List ℕ)
    → Chain m (some x) (x ∷ xs) none
    → Distinct (x ∷ xs)
    → rounds ≤ length xs
    → Cut m x xs rounds
unfolding walk
walk-Cut m zero x xs c d h = record {
  tail = x;
  reached = refl;
  is_last = refl;
  front = (refl, c.1, read-write_self m x none);
  back = Chain-write m x none _ none xs d.0 c.2;
}
walk-Cut m (suc rounds) x [] c d h = absurd (omega arith)
walk-Cut m (suc rounds) x (z ∷ zs) c d h =
    let rest : Cut m z zs rounds = walk-Cut m rounds z zs (refl, c.2.1, c.2.2) d.1 (omega arith) in
    let apart : rest.tail ≢ x =
      Fresh-last x rest.tail (take (suc rounds) (z ∷ zs)) (Fresh-take x (suc rounds) (z ∷ zs) d.0)
        rest.is_last in
    record {
      tail = rest.tail;
      reached = rw (c.2.0, walk) rest.reached;
      is_last = rest.is_last;
      front = (
        refl,
        c.1,
        rw (read-write_other m rest.tail x none (λ e. apart (sym e)), c.2.0) rest.front,
      );
      back = rest.back;
    }

-- Linking the last block of one chain to the head of another joins them.
pub Chain-splice :
    (m : Memory) (y : ℕ) (next : Option ℕ) (xs ys : List ℕ) (start : Option ℕ)
    → Chain m start xs none
    → last? xs ≡ some y
    → Chain m next ys none
    → Distinct (xs ++ ys)
    → Chain (write_small_free_list_next m y next) start (xs ++ ys) none
Chain-splice m y next [] ys start c e t d = absurd (cc)
Chain-splice m y next (x ∷ []) ys start c e t d =
    let same : x ≡ y = ground arith in
    subst (λ w. Chain (write_small_free_list_next m w next) start (x ∷ ys) none) same
      (
        c.0,
        c.1,
        rw (read-write_self m x next, Chain-start m next ys t)
            (Chain-write m x next next none ys d.0 t),
      )
Chain-splice m y next (x ∷ z ∷ zs) ys start c e t d =
    let apart : y ≢ x = Fresh-last x y (z ∷ zs) (Fresh-append_left x (z ∷ zs) ys d.0) e in
    let rest = Chain-splice m y next (z ∷ zs) ys (some z) (refl, c.2.1, c.2.2) e t d.1 in
    (c.0, c.1, rw (read-write_other m y x next (λ s. apart (sym s)), c.2.0) rest)
