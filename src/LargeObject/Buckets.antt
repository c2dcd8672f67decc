-- ===== src/LargeObject/Buckets.antt =====
-- The ordered map of freed large blocks (src/large_object.rs): best fit and what the map holds.
use orthotope.Prelude.{
  ℕ, suc, ◌+◌, ◌≤◌, ◌≡◌, refl, ◌≢◌, inl, inr, List, [], ◌∷◌, ◌++◌, ltb, ◌==◌, arith, All, sum_by,
  sum_by-append, Bool-cases,
}
use orthotope.LargeObject.{FreeLargeBlock, Buckets, push_bucket}

-- The free blocks of all buckets.
abbrev pub contents : Buckets → List FreeLargeBlock
contents [] = []
contents ((k, bs) ∷ rest) = bs ++ contents rest

-- The keys ascend from `low`; no bucket is empty, and each holds blocks of the size of its key.
abbrev pub Sorted : ℕ → Buckets → Type 0
Sorted low [] = Unit {0}
Sorted low ((k, bs) ∷ rest) =
    (low ≤ k) × (bs ≢ []) × All (λ b. b.block_size ≡ k) bs × Sorted (suc k) rest

pub Sorted-mono : (low high : ℕ) (fs : Buckets) → low ≤ high → Sorted high fs → Sorted low fs
Sorted-mono low high [] h s = tt
Sorted-mono low high ((k, bs) ∷ rest) h s = (omega arith, s.1, s.2, s.3)

pub push_bucket-Sorted :
    (low : ℕ) (b : FreeLargeBlock) (fs : Buckets)
    → low ≤ b.block_size
    → Sorted low fs
    → Sorted low (push_bucket b fs)
unfolding push_bucket
push_bucket-Sorted low b [] h s = (h, (λ e. cc), (refl, tt), tt)
push_bucket-Sorted low b ((k, bs) ∷ rest) h s = elim (Bool-cases (b.block_size == k)) [
  | inl e ↦ rw e (s.0, (λ e'. cc), (ground arith, s.2), s.3)
  | inr e ↦ elim (Bool-cases (ltb b.block_size k)) [
    | inl l ↦ rw (e, l) (h, (λ e'. cc), (refl, tt), (ground arith, s.1, s.2, s.3))
    | inr g ↦ rw (e, g) (s.0, s.1, s.2, push_bucket-Sorted (suc k) b rest (ground arith) s.3)
  ]
]

module _ (f : FreeLargeBlock → ℕ) where
  -- Each weight of the contents grows by that of the block that is pushed.
  pub sum_by-push_bucket :
      (b : FreeLargeBlock) (fs : Buckets)
      → sum_by f (contents (push_bucket b fs)) ≡ f b + sum_by f (contents fs)
  unfolding push_bucket
  sum_by-push_bucket b [] = omega arith
  sum_by-push_bucket b ((k, bs) ∷ rest) = ground (
    arith,
    sum_by-push_bucket b rest,
    sum_by-append f bs (contents rest),
    sum_by-append f bs (contents (push_bucket b rest)),
  )
