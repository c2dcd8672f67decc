-- ===== src/LargeObject/Registry.antt =====
-- The association list that stands for the hash map of live large allocations (src/large_object.rs).
use orthotope.Prelude.{
  ℕ, ◌+◌, ◌≡◌, refl, sym, ap, ◌≢◌, inl, inr, none, some, [], ◌∷◌, ◌==◌, if◌then◌else◌, arith, All,
  sum_by, Bool-cases, ==→eq, eq→==, ne→==, ◌∙◌,
}
use orthotope.LargeObject.{LargeAllocationRecord, Registry, lookup, remove}

-- The pointer is not live.
abbrev pub Absent : ℕ → Registry → Type 0
Absent user live = All (λ e. e.0 ≢ user) live

-- No pointer is live twice.
abbrev pub DistinctKeys : Registry → Type 0
DistinctKeys [] = Unit {0}
DistinctKeys ((u, r) ∷ rest) = Absent u rest × DistinctKeys rest

-- The bytes of the blocks of a registry.
abbrev pub live_total : Registry → ℕ
live_total live = sum_by (λ e. e.1.block_size) live

pub lookup-Absent : (user : ℕ) (live : Registry) → lookup user live ≡ none → Absent user live
unfolding lookup
lookup-Absent user [] e = tt
lookup-Absent user ((u, r) ∷ rest) e = elim (Bool-cases (u == user)) [
  | inl h ↦ cc (rw h at e)
  | inr h ↦ ((λ q. cc (eq→== u user q)), lookup-Absent user rest (rw h at e))
]

pub Absent-lookup : (user : ℕ) (live : Registry) → Absent user live → lookup user live ≡ none
unfolding lookup
Absent-lookup user [] h = refl
Absent-lookup user ((u, r) ∷ rest) h = rw (ne→== u user h.0) (Absent-lookup user rest h.1)

pub Absent-remove : (u user : ℕ) (live : Registry) → Absent u live → Absent u (remove user live)
unfolding remove
Absent-remove u user [] h = tt
Absent-remove u user ((v, r) ∷ rest) h = elim (Bool-cases (v == user)) [
  | inl e ↦ rw e (h.1)
  | inr e ↦ rw e (h.0, Absent-remove u user rest h.1)
]

pub remove-DistinctKeys :
    (user : ℕ) (live : Registry) → DistinctKeys live → DistinctKeys (remove user live)
unfolding remove
remove-DistinctKeys user [] h = tt
remove-DistinctKeys user ((v, r) ∷ rest) h = elim (Bool-cases (v == user)) [
  | inl e ↦ rw e (h.1)
  | inr e ↦ rw e (Absent-remove v user rest h.0, remove-DistinctKeys user rest h.1)
]

pub lookup-remove_self :
    (user : ℕ) (live : Registry) → DistinctKeys live → lookup user (remove user live) ≡ none
unfolding lookup remove
lookup-remove_self user [] h = refl
lookup-remove_self user ((v, r) ∷ rest) h = elim (Bool-cases (v == user)) [
  | inl e ↦ rw (remove, e) (rw (sym (==→eq v user e)) (Absent-lookup v rest h.0))
  | inr e ↦ rw (remove, e) (rw e (lookup-remove_self user rest h.1))
]

pub lookup-remove_other :
    (user other : ℕ) (live : Registry)
    → other ≢ user
    → lookup other (remove user live) ≡ lookup other live
unfolding lookup remove
lookup-remove_other user other [] ne = refl
lookup-remove_other user other ((v, r) ∷ rest) ne = elim (Bool-cases (v == user)) [
  | inl e ↦ rw (remove, e, ne→== v other (λ q. ne (sym q ∙ ==→eq v user e))) refl
  | inr e ↦
      rw (remove, e)
        (ap (λ o. if v == other then some r else o) (lookup-remove_other user other rest ne))
]

pub live_total-remove :
    (user : ℕ) (live : Registry) (r : LargeAllocationRecord)
    → lookup user live ≡ some r
    → r.block_size + live_total (remove user live) ≡ live_total live
unfolding lookup remove
live_total-remove user [] r h = cc
live_total-remove user ((v, q) ∷ rest) r h = elim (Bool-cases (v == user)) [
  | inl e ↦
      rw (remove, e)
        (ap (λ z. z + live_total rest)
          (ap (λ o. elim o [ none ↦ 0 | some z ↦ z.block_size ]) (sym (rw (lookup, e) at h))))
  | inr e ↦ rw (remove, e) (omega (arith, live_total-remove user rest r (rw (lookup, e) at h)))
]
