-- ===== src/Finance/Tax/Rounding.antt =====
-- What rounding to the cent does to a value.
use food_tech_crm_backend.Prelude.{ℕ, ◌+◌, ◌*◌, ◌≤◌, ◌<◌, ◌≡◌, arith}
use food_tech_crm_backend.Prelude.Int.{ℤ, pos, negsuc, ◌≤ℤ◌, ◌*ℤ◌, pos_part, neg_part}
use food_tech_crm_backend.Finance.Tax.{quantize}

pub quantize_nonneg : (half : ℕ) (x : ℤ) → pos 0 ≤ℤ x → pos 0 ≤ℤ quantize half x
unfolding quantize
quantize_nonneg half (pos n) h = omega arith
quantize_nonneg half (negsuc n) h = absurd (omega arith)

-- The rounded value, in the units of what is rounded, lies within half a cent of it.
abbrev pub IsNear : ℕ → ℤ → ℤ → Type 0
IsNear half c x =
    (pos_part c * (2 * half) + neg_part x ≤ pos_part x + neg_part c * (2 * half) + half)
    × (pos_part x + neg_part c * (2 * half) ≤ pos_part c * (2 * half) + neg_part x + half)

pub quantize-IsNear : (half : ℕ) (x : ℤ) → 0 < half → IsNear half (quantize half x) x
unfolding quantize
quantize-IsNear half (pos n) h = ground arith
quantize-IsNear half (negsuc n) h = ground arith

pub near_nonneg :
    (half : ℕ) (x : ℤ)
    → pos 0 ≤ℤ x
    → 0 < half
    → (pos_part (quantize half x) * (2 * half) ≤ pos_part x + half)
      × (pos_part x ≤ pos_part (quantize half x) * (2 * half) + half)
unfolding quantize
near_nonneg half (pos n) h p = ground arith
near_nonneg half (negsuc n) h p = absurd (omega arith)

-- Rounding does not see the scale that a value is written in.
pub quantize-*ℤ : (x : ℤ) → quantize 50000000000 (x *ℤ pos 100000) ≡ quantize 500000 x
unfolding quantize ◌*ℤ◌
quantize-*ℤ (pos n) = ground arith
quantize-*ℤ (negsuc n) = ground arith
