-- ===== src/ThreadCache/Listing.antt =====
-- The slabs of `LocalClassCache` (src/thread_cache.rs) that are listed as available, and the removal of one
-- from the list.
use native.Mathlib.Decide.{dec_le}
use orthotope.Prelude.{
  ℕ, ◌+◌, ◌-◌, ◌≤◌, ◌<◌, ◌≡◌, sym, ap, ◌∙◌, ◌≢◌, Option, none, some, List, ◌==◌, get_elem?,
  set_elem, length, sum_by, inl, inr, ◌⊎◌, subst, eq→==, arith, Bool-cases, ==→eq,
}
use orthotope.Prelude.Slots.{
  Removed, sum_by-set, get-set_same, get-set_other, get-some-lt, get-lt-some,
}
use orthotope.ThreadCache.LocalSlab.{LocalSlab}
use orthotope.ThreadCache.SlabCounts.{blocks}

-- A slab with a slot stands at that slot of the list of available slabs.
abbrev pub Listed : List LocalSlab → List ℕ → Type 0
Listed slabs ids =
    (id : ℕ) (s : LocalSlab) (k : ℕ)
    → get_elem? slabs id ≡ some s
    → s.available_slot ≡ some k
    → get_elem? ids k ≡ some id

-- A slab without a slot has no blocks.
abbrev pub Drained : List LocalSlab → Type 0
Drained slabs =
    (id : ℕ) (s : LocalSlab) → get_elem? slabs id ≡ some s → s.available_slot ≡ none → blocks s ≡ 0

abbrev pub in_slabs : List LocalSlab → ℕ
in_slabs slabs = sum_by blocks slabs

pub some-injective : {A : Type 0} (x y : A) → ◌≡◌ {A = Option A} (some x) (some y) → x ≡ y
some-injective x y e = cc

-- A slab that changes, and what that does to each other slab
pub set-cases :
    (slabs : List LocalSlab) (id j : ℕ) (s t u : LocalSlab)
    → get_elem? slabs id ≡ some s
    → get_elem? (set_elem slabs id t) j ≡ some u
    → ((j ≡ id) × (u ≡ t)) ⊎ ((j ≢ id) × (get_elem? slabs j ≡ some u))
set-cases slabs id j s t u at_id e = elim (Bool-cases (j == id)) [
  | inl q ↦
      let here = ==→eq j id q in
      let at_j : get_elem? (set_elem slabs id t) j ≡ some t =
        rw here (get-set_same slabs id t (get-some-lt slabs id s at_id)) in
      inl (here, cc)
  | inr q ↦
      let there : j ≢ id = λ z. cc (eq→== j id z) in
      inr (there, sym (get-set_other slabs id j t there) ∙ e)
]

-- What is known when a slab without blocks loses its slot
module _ (slabs : List LocalSlab) (ids ids' : List ℕ) (id slot removed : ℕ) (s : LocalSlab)
    (at_id : get_elem? slabs id ≡ some s) (at_slot : s.available_slot ≡ some slot)
    (listed : Listed slabs ids) (rest : Removed ids slot (removed, ids')) where
  abbrev without : List LocalSlab
  without = set_elem slabs id (record s { available_slot = none })

  -- Another slab keeps its slot, unless that is the last.
  keeps :
      (j k : ℕ) (u : LocalSlab)
      → j ≢ id
      → get_elem? slabs j ≡ some u
      → u.available_slot ≡ some k
      → (k ≢ slot) × (get_elem? ids k ≡ some j) × (k < length ids)
  keeps j k u there e q =
      let found = listed j u k e q in
      let own = listed id s slot at_id at_slot in
      (
        λ z.
            there (some-injective j id (sym (subst (λ x. get_elem? ids x ≡ some j) z found) ∙ own)),
        found,
        get-some-lt ids k j found,
      )

  slot_last : get_elem? ids' slot ≡ none → length ids ≤ slot + 1
  slot_last past = elim (dec_le (length ids) (slot + 1)) [
    | yes h ↦ h
    | no h ↦
        let (x, e) = get-lt-some ids (length ids - 1) (omega arith) in
        let e' = (rest.1) (omega arith) in absurd (cc)
  ]

  no_slot :
      (k : ℕ) (u : LocalSlab)
      → u ≡ record s { available_slot = none }
      → u.available_slot ≡ some k
      → ⊥
  no_slot k u same q = let e = ap (λ (x : LocalSlab). x.available_slot) same in cc

  pub Listed-last : get_elem? ids' slot ≡ none → Listed without ids'
  Listed-last past j u k e q = elim (set-cases slabs id j s _ u at_id e) [
    | inl (here, same) ↦ absurd (no_slot k u same q)
    | inr (there, at_j) ↦
        let (other, found, low) = keeps j k u there at_j q in
        (rest.0) k other
          (omega (arith, slot_last past, get-some-lt ids slot id (listed id s slot at_id at_slot)))
        ∙ found
  ]

  -- The slab that was moved into the gap gets the slot.
  pub Listed-moved :
      (moved : ℕ) (t : LocalSlab)
      → get_elem? ids' slot ≡ some moved
      → get_elem? without moved ≡ some t
      → Listed (set_elem without moved (record t { available_slot = some slot })) ids'
  Listed-moved moved t at_slot' at_moved j u k e q =
      elim (set-cases without moved j t _ u at_moved e) [
        | inl (here, same) ↦
            let q' = ap (λ (x : LocalSlab). x.available_slot) same in
            let k_slot : slot ≡ k = some-injective slot k (sym q' ∙ q) in
            subst (λ x. get_elem? ids' x ≡ some j) k_slot (rw here at_slot')
        | inr (elsewhere, at_j') ↦ elim (set-cases slabs id j s _ u at_id at_j') [
          | inl (here, same) ↦ absurd (no_slot k u same q)
          | inr (there, at_j) ↦
              let (other, found, low) = keeps j k u there at_j q in
              let inside = (rest.2) slot moved at_slot' in
              let last = (rest.1) inside in
              let not_last : k ≢ length ids - 1 = λ z.
                elsewhere (
                  some-injective j moved
                    (sym found ∙ ap (get_elem? ids) z ∙ sym last ∙ at_slot')) in
              (rest.0) k other (omega arith) ∙ found
        ]
      ]

  -- The slabs without a slot have no blocks, if none has but perhaps the one whose slot was taken and it has
  -- none.
  pub Drained-without :
      blocks s ≡ 0
      → ((j : ℕ) (u : LocalSlab)
          → j ≢ id
          → get_elem? slabs j ≡ some u
          → u.available_slot ≡ none
          → blocks u ≡ 0)
      → Drained without
  Drained-without free others j u e q = elim (set-cases slabs id j s _ u at_id e) [
    | inl (here, same) ↦ ap blocks same ∙ free
    | inr (there, at_j) ↦ others j u there at_j q
  ]

pub Drained-slot :
    (slabs : List LocalSlab) (id slot : ℕ) (t : LocalSlab)
    → get_elem? slabs id ≡ some t
    → Drained slabs
    → Drained (set_elem slabs id (record t { available_slot = some slot }))
Drained-slot slabs id slot t at_id drained j u e q = elim (set-cases slabs id j t _ u at_id e) [
  | inl (here, same) ↦ let q' = ap (λ (x : LocalSlab). x.available_slot) same in absurd cc
  | inr (there, at_j) ↦ drained j u at_j q
]

pub in_slabs_slot :
    (slabs : List LocalSlab) (id : ℕ) (slot : Option ℕ) (t : LocalSlab)
    → get_elem? slabs id ≡ some t
    → in_slabs (set_elem slabs id (record t { available_slot = slot })) ≡ in_slabs slabs
in_slabs_slot slabs id slot t e =
    omega (arith, sum_by-set blocks slabs id t (record t { available_slot = slot }) e)
