-- ===== src/LargeObject/Reuse.antt =====
-- Best fit among the freed large blocks: `take_best_fit_block` of src/large_object.rs.
use orthotope.Prelude.{
  ℕ, suc, ◌+◌, ◌≤◌, ◌<◌, ◌≡◌, refl, ◌⊎◌, inl, inr, none, some, List, [], ◌∷◌, ◌++◌, true, false,
  leb, arith, All, All-append, All-mono, sum_by, sum_by-append, Bool-cases, lt→ltb, le→ltb, ne→==,
  eq→==,
}
use orthotope.LargeObject.{
  FreeLargeBlock, Buckets, first_from, remove_bucket, insert_bucket, put_back,
}
use orthotope.LargeObject.Buckets.{contents, Sorted, Sorted-mono}

-- Too small for the minimum, or no smaller than `k`.
abbrev pub Passed : ℕ → ℕ → FreeLargeBlock → Type 0
Passed minimum k b = (b.block_size < minimum) ⊎ (k ≤ b.block_size)

-- What a search that finds a bucket says of it and of the map that is put back.
pub record Taken (minimum low : ℕ) (fs : Buckets) (k : ℕ) (b : FreeLargeBlock)
    (more : List FreeLargeBlock) (others : Buckets) : Type 0 where
  pub chosen : first_from minimum fs ≡ some k
  pub removed : remove_bucket k fs ≡ some (b ∷ more, others)
  pub fits : minimum ≤ k
  pub size : b.block_size ≡ k
  pub best : All (Passed minimum k) (contents fs)
  pub sorted : Sorted low (put_back k more others)
  pub weight :
      (f : FreeLargeBlock → ℕ)
      → f b + sum_by f (contents (put_back k more others)) ≡ sum_by f (contents fs)

abbrev pub Search : (minimum low : ℕ) → Buckets → Type 0
Search minimum low fs =
    ((first_from minimum fs ≡ none) × All (λ b. b.block_size < minimum) (contents fs))
    ⊎ ((k : ℕ) × (b : FreeLargeBlock) × (more : List FreeLargeBlock) × (others : Buckets) × Taken
          minimum low fs k b more others)

contents-above :
    (low : ℕ) (fs : Buckets) → Sorted low fs → All (λ b. low ≤ b.block_size) (contents fs)
contents-above low [] s = tt
contents-above low ((k, bs) ∷ rest) s =
    All-append _ bs (contents rest) (All-mono bs (λ b e. omega arith) s.2)
      (All-mono (contents rest) (λ b h. omega arith) (contents-above (suc k) rest s.3))

-- A bucket below all others is put back in front.
insert_bucket-front :
    (k : ℕ) (bs : List FreeLargeBlock) (fs : Buckets)
    → Sorted (suc k) fs
    → insert_bucket k bs fs ≡ (k, bs) ∷ fs
unfolding insert_bucket
insert_bucket-front k bs [] s = refl
insert_bucket-front k bs ((j, cs) ∷ rest) s = rw (ne→== k j (omega arith), lt→ltb k j (omega arith))

put_back-hit :
    (low k : ℕ) (b : FreeLargeBlock) (more : List FreeLargeBlock) (rest : Buckets)
    → low ≤ k
    → All (λ b. b.block_size ≡ k) more
    → Sorted (suc k) rest
    → Sorted low (put_back k more rest) × (contents (put_back k more rest) ≡ more ++ contents rest)
unfolding put_back
put_back-hit low k b [] rest h all s = (Sorted-mono low (suc k) rest (omega arith) s, refl)
put_back-hit low k b (c ∷ more) rest h all s =
    rw (insert_bucket-front k (c ∷ more) rest s) ((h, (λ e. cc), all, s), refl)

-- A bucket below the one that is put back stays in front.
put_back-miss :
    (k j : ℕ) (bs more : List FreeLargeBlock) (rest : Buckets)
    → j < k
    → put_back k more ((j, bs) ∷ rest) ≡ (j, bs) ∷ put_back k more rest
unfolding put_back insert_bucket
put_back-miss k j bs [] rest h = refl
put_back-miss k j bs (c ∷ more) rest h = rw (ne→== k j (omega arith), le→ltb k j (omega arith)) refl

hit :
    (minimum low j : ℕ) (b : FreeLargeBlock) (more : List FreeLargeBlock) (rest : Buckets)
    → leb minimum j ≡ true
    → Sorted low ((j, b ∷ more) ∷ rest)
    → Taken minimum low ((j, b ∷ more) ∷ rest) j b more rest
unfolding first_from remove_bucket
hit minimum low j b more rest e s =
    let (sorted, same) = put_back-hit low j b more rest s.0 s.2.1 s.3 in
    record {
      chosen = rw e refl;
      removed = rw (remove_bucket, eq→== j j refl) refl;
      fits = ground arith;
      size = s.2.0;
      best =
          All-append _ (b ∷ more) (contents rest)
            (All-mono (b ∷ more) (λ c q. inr (omega arith)) s.2)
            (All-mono (contents rest) (λ c q. inr (omega arith)) (contents-above (suc j) rest s.3));
      sorted = sorted;
      weight = λ f. rw same (omega (arith, sum_by-append f more (contents rest)));
    }

miss :
    (minimum low j k : ℕ) (b : FreeLargeBlock) (cs more : List FreeLargeBlock)
    (rest others : Buckets)
    → leb minimum j ≡ false
    → Sorted low ((j, cs) ∷ rest)
    → Taken minimum (suc j) rest k b more others
    → Taken minimum low ((j, cs) ∷ rest) k b more ((j, cs) ∷ others)
unfolding first_from remove_bucket
miss minimum low j k b cs more rest others e s t =
    let above : j < minimum = ground arith in
    let same = put_back-miss k j cs more others (omega (arith, t.fits)) in
    record {
      chosen = rw e t.chosen;
      removed = rw (remove_bucket, ne→== j k (omega (arith, t.fits)), t.removed) refl;
      fits = t.fits;
      size = t.size;
      best = All-append _ cs (contents rest) (All-mono cs (λ c q. inl (omega arith)) s.2) t.best;
      sorted = rw same (s.0, s.1, s.2, t.sorted);
      weight = λ f. rw same (
          omega (
            arith,
            t.weight f,
            sum_by-append f cs (contents rest),
            sum_by-append f cs (contents (put_back k more others)),
          ));
    }

pub search : (minimum low : ℕ) (fs : Buckets) → Sorted low fs → Search minimum low fs
unfolding first_from
search minimum low [] s = inl (refl, tt)
search minimum low ((j, []) ∷ rest) s = absurd (s.1 refl)
search minimum low ((j, b ∷ more) ∷ rest) s = elim (Bool-cases (leb minimum j)) [
  | inl e ↦ inr (j, b, more, rest, hit minimum low j b more rest e s)
  | inr e ↦ elim (search minimum (suc j) rest s.3) [
    | inl (none_left, small) ↦ inl (
      rw e none_left,
      All-append _ (b ∷ more) (contents rest) (All-mono (b ∷ more) (λ c q. ground arith) s.2) small,
    )
    | inr (k, c, others_of, left, t) ↦ inr (
      k,
      c,
      others_of,
      (j, b ∷ more) ∷ left,
      miss minimum low j k c (b ∷ more) others_of rest left e s t,
    )
  ]
]
