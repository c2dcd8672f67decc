-- ===== src/ThreadCache/Accounts.antt =====
-- What `mark_slab_unavailable` of `LocalClassCache` (src/thread_cache.rs) leaves as it is.
use orthotope.Prelude.{
  ℕ, ◌≡◌, refl, sym, ap, ◌∙◌, ◌≢◌, none, some, List, ◌==◌, get_elem?, set_elem, inl, inr, eq→==,
  Bool-cases, Option-cases, ==→eq,
}
use orthotope.Prelude.Slots.{swap_remove, swap_remove-get, Removed}
use orthotope.Prelude.Panics.{Returns, Returns->>=}
use orthotope.ThreadCache.LocalSlab.{LocalSlab}
use orthotope.ThreadCache.ClassCache.{
  LocalClassCache, with_slab, relabel_moved, mark_slab_unavailable,
}
use orthotope.ThreadCache.SlabCounts.{blocks}
use orthotope.ThreadCache.Listing.{
  Listed, Drained, in_slabs, some-injective, Listed-last, Listed-moved, Drained-without,
  Drained-slot, in_slabs_slot,
}

-- Everything but the slots of the slabs is as it was, and the slots agree with the list.
pub record Retired (c c' : LocalClassCache) : Type 0 where
  pub total : c'.total_len ≡ c.total_len
  pub hot : c'.hot_block ≡ c.hot_block
  pub shared : c'.shared ≡ c.shared
  pub shared_len : c'.shared_len ≡ c.shared_len
  pub slab_blocks : in_slabs c'.slabs ≡ in_slabs c.slabs
  pub listed : Listed c'.slabs c'.available_slabs
  pub drained : Drained c'.slabs

pub unavailable-Retired :
    (c : LocalClassCache) (id : ℕ) (s : LocalSlab)
    → Listed c.slabs c.available_slabs
    → get_elem? c.slabs id ≡ some s
    → blocks s ≡ 0
    → ((j : ℕ) (u : LocalSlab)
        → j ≢ id
        → get_elem? c.slabs j ≡ some u
        → u.available_slot ≡ none
        → blocks u ≡ 0)
    → Returns (Retired c) (mark_slab_unavailable c id)
unfolding mark_slab_unavailable relabel_moved
unavailable-Retired c id s listed at_id free others = elim (Option-cases s.available_slot) [
  | inl e ↦
      rw (Returns, mark_slab_unavailable, at_id, e)
        (record {
          total = refl;
          hot = refl;
          shared = refl;
          shared_len = refl;
          slab_blocks = refl;
          listed = listed;
          drained = λ j u at_j q. elim (Bool-cases (j == id)) [
            | inl z ↦
                ap blocks
                  (some-injective u s (sym at_j ∙ ap (get_elem? c.slabs) (==→eq j id z) ∙ at_id))
                ∙ free
            | inr z ↦ others j u (λ z'. cc (eq→== j id z')) at_j q
          ];
        })
  | inr (slot, e) ↦
      rw (mark_slab_unavailable, at_id, e)
        (Returns->>= (Removed c.available_slabs slot) (Retired c)
          (swap_remove c.available_slabs slot) _ (swap_remove-get c.available_slabs slot)
          (λ (removed, ids) rest. relabelled removed slot ids e rest))
]
  where
    relabelled :
        (removed slot : ℕ) (ids : List ℕ)
        → s.available_slot ≡ some slot
        → Removed c.available_slabs slot (removed, ids)
        → Returns (Retired c) (
            relabel_moved
              (with_slab
                (record c { available_slabs = ids })
                id
                (record s { available_slot = none }))
              slot)
    relabelled removed slot ids e rest =
        let slabs = set_elem c.slabs id (record s { available_slot = none }) in
        let drained =
          Drained-without c.slabs c.available_slabs ids id slot removed s at_id e listed rest free
            others in
        elim (Option-cases (get_elem? ids slot)) [
          | inl past ↦
              rw (Returns, relabel_moved, past)
                (record {
                  total = refl;
                  hot = refl;
                  shared = refl;
                  shared_len = refl;
                  slab_blocks = in_slabs_slot c.slabs id none s at_id;
                  listed =
                      Listed-last c.slabs c.available_slabs ids id slot removed s at_id e listed
                        rest past;
                  drained = drained;
                })
          | inr (moved, there) ↦ elim (Option-cases (get_elem? slabs moved)) [
            | inl none_there ↦ rw (Returns, relabel_moved, there, none_there) tt
            | inr (t, at_moved) ↦
                rw (Returns, relabel_moved, there, at_moved)
                  (record {
                    total = refl;
                    hot = refl;
                    shared = refl;
                    shared_len = refl;
                    slab_blocks =
                        in_slabs_slot slabs moved (some slot) t at_moved
                        ∙ in_slabs_slot c.slabs id none s at_id;
                    listed =
                        Listed-moved c.slabs c.available_slabs ids id slot removed s at_id e listed
                          rest moved t there at_moved;
                    drained = Drained-slot slabs moved slot t at_moved drained;
                  })
          ]
        ]
