-- ===== src/Header/Valid.antt =====
-- What `validate_prefix` and `AllocationHeader::validate` of src/header.rs accept.
use orthotope.Prelude.{ℕ, ◌≤◌, ◌<◌, ◌≡◌, refl, ◌↔◌, some, ok, err, arith}
use orthotope.Errors.{FreeError, corrupt_header}
use orthotope.SizeClass.{SizeClass, payload_size, b64}
use orthotope.Header.{
  AllocationHeader, AllocationHeaderPrefix, AllocationKind, AllocationKindTag, header_magic,
  large_class_sentinel, prefix_of, size_class_to_index, index_to_size_class, validate_kind,
  validate_prefix, validate,
}

-- The table by index and the table by class are inverse to one another.
pub index_to_size_class-to_index :
    (c : SizeClass) → index_to_size_class (size_class_to_index c) ≡ some c
unfolding index_to_size_class size_class_to_index
index_to_size_class-to_index b64 = refl
index_to_size_class-to_index _ = refl

pub to_index_of_some :
    (i : ℕ) (c : SizeClass) → index_to_size_class i ≡ some c → i ≡ size_class_to_index c
unfolding index_to_size_class size_class_to_index
to_index_of_some i c h = ground arith

-- The fields that depend on the kind.
abbrev pub KindFields : AllocationKind → AllocationKindTag → ℕ → ℕ → Type 0
KindFields (AllocationKind.small c) tag ci usable =
    (tag ≡ AllocationKindTag.small) × (ci ≡ size_class_to_index c) × (usable ≡ payload_size c)
KindFields AllocationKind.large tag ci usable =
    (tag ≡ AllocationKindTag.large) × (ci ≡ large_class_sentinel)

-- A prefix as the allocator writes it for a live block of this kind.
pub record IsPrefixOf (k : AllocationKind) (p : AllocationHeaderPrefix) : Type 0 where
  pub magic : p.magic ≡ header_magic
  pub requested_pos : 0 < p.requested_size
  pub requested_fits : p.requested_size ≤ p.usable_size
  pub fields : KindFields k p.kind p.class_index p.usable_size

pub validate_kind-fields :
    (k : AllocationKind) (tag : AllocationKindTag) (ci usable : ℕ)
    → (validate_kind tag ci usable ≡ ok k) ↔ KindFields k tag ci usable
unfolding validate_kind
validate_kind-fields (AllocationKind.small c) AllocationKindTag.small ci usable = (
  (λ e. ground (arith, to_index_of_some ci c)),
  (λ f. ground (arith, index_to_size_class-to_index c)),
)
validate_kind-fields (AllocationKind.small c) AllocationKindTag.large ci usable =
    ((λ e. ground arith), (λ f. ground arith))
validate_kind-fields AllocationKind.large AllocationKindTag.small ci usable =
    ((λ e. ground arith), (λ f. ground arith))
validate_kind-fields AllocationKind.large AllocationKindTag.large ci usable =
    ((λ e. ground arith), (λ f. ground arith))

-- Validation succeeds with a kind exactly on the prefixes of that kind.
pub validate_prefix-IsPrefixOf :
    (p : AllocationHeaderPrefix) (k : AllocationKind) → (validate_prefix p ≡ ok k) ↔ IsPrefixOf k p
unfolding validate_prefix
validate_prefix-IsPrefixOf p k =
    let kinds = validate_kind-fields k p.kind p.class_index p.usable_size in
    (
      (λ e. record {
        magic = ground arith;
        requested_pos = ground arith;
        requested_fits = ground arith;
        fields = ground (arith, kinds.0);
      }),
      (λ v. ground (arith, kinds.1 v.fields)),
    )

validate_kind-err :
    (tag : AllocationKindTag) (ci usable : ℕ) (e : FreeError)
    → validate_kind tag ci usable ≡ err e
    → e ≡ corrupt_header
unfolding validate_kind
validate_kind-err AllocationKindTag.small ci usable e h = ground arith
validate_kind-err AllocationKindTag.large ci usable e h = ground arith

-- Every refusal is `CorruptHeader`.
pub validate_prefix-err :
    (p : AllocationHeaderPrefix) (e : FreeError) → validate_prefix p ≡ err e → e ≡ corrupt_header
unfolding validate_prefix
validate_prefix-err p e h = ground (arith, validate_kind-err p.kind p.class_index p.usable_size e)

-- The two validations agree.
pub validate-prefix_of : (h : AllocationHeader) → validate h ≡ validate_prefix (prefix_of h)
unfolding validate validate_prefix
validate-prefix_of h = refl
