-- ===== src/SizeClass/Request.antt =====
-- Which class `SizeClass::from_request` of src/size_class.rs chooses.
use orthotope.Prelude.{
  ℕ, zero, suc, ◌≤◌, ◌<◌, ◌≡◌, refl, ap, ◌∙◌, ◌↔◌, ◌⊎◌, inl, inr, Option, none, some, arith,
  Bool-cases, Option-cases, if◌then◌else◌,
}
use orthotope.SizeClass.{
  SizeClass, within, from_request, payload_size, max_small_request, b64, b256, b4k, b6k, b8k, b16k,
  b32k, b64k, b128k, b256k, b1m, b16m,
}

-- The payload just below that of a class, 0 for the smallest.
abbrev pub lower : SizeClass → ℕ
lower b64 = 0
lower b256 = 64
lower b4k = 256
lower b6k = 4_096
lower b8k = 6_144
lower b16k = 8_192
lower b32k = 16_384
lower b64k = 32_768
lower b128k = 65_536
lower b256k = 131_072
lower b1m = 262_144
lower b16m = 1_048_576

-- What a choice says of the request.
abbrev pub Chosen : ℕ → Option SizeClass → Type 0
Chosen n none = (n ≡ 0) ⊎ (max_small_request < n)
Chosen n (some c) = (lower c < n) × (n ≤ payload_size c)

-- One arm of the match, when the arms above it are passed.
arm :
    (P : Option SizeClass → Type 0) (lo hi n : ℕ) (x rest : Option SizeClass)
    → lo ≤ n
    → (n ≤ hi → P x)
    → (hi < n → P rest)
    → P (if within lo hi n then x else rest)
arm P lo hi n x rest low hit miss = elim (Bool-cases (within lo hi n)) [
  | inl e ↦ rw e (hit (ground arith))
  | inr e ↦ rw e (miss (ground arith))
]

pub from_request-Chosen : (n : ℕ) → Chosen n (from_request n)
unfolding from_request payload_size max_small_request
from_request-Chosen zero = inl refl
from_request-Chosen (suc m) =
    let n = suc m in
    arm (Chosen n) 1 64 n _ _ (omega arith) (λ h. (omega arith, h))
      λ g1.
        arm (Chosen n) 65 256 n _ _ g1 (λ h. (g1, h))
          λ g2.
            arm (Chosen n) 257 4096 n _ _ g2 (λ h. (g2, h))
              λ g3.
                arm (Chosen n) 4097 6144 n _ _ g3 (λ h. (g3, h))
                  λ g4.
                    arm (Chosen n) 6145 8192 n _ _ g4 (λ h. (g4, h))
                      λ g5.
                        arm (Chosen n) 8193 16_384 n _ _ g5 (λ h. (g5, h))
                          λ g6.
                            arm (Chosen n) 16_385 32_768 n _ _ g6 (λ h. (g6, h))
                              λ g7.
                                arm (Chosen n) 32_769 65_536 n _ _ g7 (λ h. (g7, h))
                                  λ g8.
                                    arm (Chosen n) 65_537 131_072 n _ _ g8 (λ h. (g8, h))
                                      λ g9.
                                        arm (Chosen n) 131_073 262_144 n _ _ g9 (λ h. (g9, h))
                                          λ g10.
                                            arm (Chosen n) 262_145 1_048_576 n _ _ g10
                                              (λ h. (g10, h))
                                              λ g11.
                                                arm (Chosen n) 1_048_577 16_777_216 n _ _ g11
                                                  (λ h. (g11, h)) λ g12. inr g12

pub from_request-some :
    (n : ℕ) (c : SizeClass) → from_request n ≡ some c → (lower c < n) × (n ≤ payload_size c)
from_request-some n c e = rw e at (from_request-Chosen n)

payload_le_max : (c : SizeClass) → payload_size c ≤ max_small_request
unfolding payload_size max_small_request
payload_le_max c = ground arith

-- No payload lies strictly between `lower c` and `payload_size c`.
payload_gap : (c d : SizeClass) → lower c < payload_size d → payload_size c ≤ payload_size d
unfolding payload_size
payload_gap c d h = ground arith

from_request-payload : (c : SizeClass) → from_request (payload_size c) ≡ some c
unfolding from_request payload_size
from_request-payload b64 = refl
from_request-payload _ = refl

payload_injective : (c d : SizeClass) → payload_size c ≡ payload_size d → c ≡ d
payload_injective c d e = cc (from_request-payload c, from_request-payload d, ap from_request e)

-- The class of a request is the one with the least payload that holds it: `from_request n` is
-- `some c` exactly when `n` is not zero, fits the payload of `c`, and every class whose payload
-- holds `n` has a payload at least that of `c`.
pub from_request_least :
    (n : ℕ) (c : SizeClass)
    → (from_request n ≡ some c) ↔ (
        (0 < n)
        × (n ≤ payload_size c)
        × ((d : SizeClass) → n ≤ payload_size d → payload_size c ≤ payload_size d))
from_request_least n c = (sound, complete)
  where
    sound :
        from_request n ≡ some c
        → (0 < n)
          × (n ≤ payload_size c)
          × ((d : SizeClass) → n ≤ payload_size d → payload_size c ≤ payload_size d)
    sound e =
        let (low, high) = from_request-some n c e in
        (omega arith, high, λ d h. payload_gap c d (omega arith))

    complete :
        (0 < n)
          × (n ≤ payload_size c)
          × ((d : SizeClass) → n ≤ payload_size d → payload_size c ≤ payload_size d)
        → from_request n ≡ some c
    complete (pos, fits, least) = elim (Option-cases (from_request n)) [
      | inl e ↦ absurd (elim (rw e at (from_request-Chosen n)) [
        | inl z ↦ omega arith
        | inr big ↦ omega (arith, payload_le_max c)
      ])
      | inr (d, e) ↦
          let (low, high) = from_request-some n d e in
          e ∙ ap some (payload_injective d c (omega (arith, payload_gap d c, least d high)))
    ]

-- `from_request` refuses exactly the requests that are zero or above `max_small_request`.
pub from_request-none : (n : ℕ) → (from_request n ≡ none) ↔ ((n ≡ 0) ⊎ (max_small_request < n))
from_request-none n = (λ e. rw e at (from_request-Chosen n), refused)
  where
    refused : (n ≡ 0) ⊎ (max_small_request < n) → from_request n ≡ none
    refused h = elim (Option-cases (from_request n)) [
      | inl e ↦ e
      | inr (d, e) ↦
          let (low, high) = from_request-some n d e in
          absurd (elim h [ inl z ↦ omega arith | inr big ↦ omega (arith, payload_le_max d) ])
    ]
