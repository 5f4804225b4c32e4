-- ===== src/Finance/Tax/Totals.antt =====
-- What `calculate_totals` guarantees.
use food_tech_crm_backend.Prelude.{ℕ, ◌+◌, ◌*◌, ◌≤◌, ◌≡◌, ◌⊎◌, refl, arith, List}
use food_tech_crm_backend.Prelude.Int.{
  ℤ, pos, ◌≤ℤ◌, ◌*ℤ◌, ◌-ℤ◌, ◌+ℤ◌, max_ℤ, pos_part, int_laws, parts_disjoint, max_ℤ-zero,
  pos_part-*ℤ, neg_part-*ℤ, *ℤ-zero, +ℤ-zero,
}
use food_tech_crm_backend.Finance.Tax.{
  TaxType, DiscountType, TaxLineItem, calculate_totals, round_totals, raw_taxable, raw_discount,
  sum_lines, get_tax_rate, quantize,
}
use food_tech_crm_backend.Finance.Tax.Rounding.{
  quantize_nonneg, quantize-IsNear, near_nonneg, quantize-*ℤ,
}

raw_taxable_nonneg : (s d : ℤ) → pos 0 ≤ℤ raw_taxable s d
unfolding raw_taxable
raw_taxable_nonneg s d = ground arith

mul_nonneg : (x : ℤ) (n : ℕ) → pos 0 ≤ℤ x → pos 0 ≤ℤ x *ℤ pos n
mul_nonneg x n h = grind (arith, neg_part-*ℤ x n)

add_nonneg : (x y : ℤ) → pos 0 ≤ℤ x → pos 0 ≤ℤ y → pos 0 ≤ℤ x +ℤ y
add_nonneg x y h k = omega int_laws

round_totals_nonneg :
    (s d x t : ℤ)
    → pos 0 ≤ℤ x
    → pos 0 ≤ℤ t
    → let r = round_totals s d x t in
      (pos 0 ≤ℤ r.taxable_amount) × (pos 0 ≤ℤ r.tax) × (pos 0 ≤ℤ r.total)
unfolding round_totals
round_totals_nonneg s d x t h k = (
  quantize_nonneg _ x h,
  quantize_nonneg _ t k,
  quantize_nonneg _ _ (add_nonneg _ t (mul_nonneg x 100000 h) k),
)

-- Whatever the line items, the discount and the tax type, the taxable amount, the tax and the
-- total are not negative.
pub calculate_totals_nonneg :
    (items : List TaxLineItem) (discount_type : DiscountType) (discount_value : ℤ)
    (tax_type : TaxType)
    → let r = calculate_totals items discount_type discount_value tax_type in
      (pos 0 ≤ℤ r.taxable_amount) × (pos 0 ≤ℤ r.tax) × (pos 0 ≤ℤ r.total)
unfolding calculate_totals
calculate_totals_nonneg items dt dv tt =
    let x = raw_taxable (sum_lines (pos 0) items) (raw_discount (sum_lines (pos 0) items) dt dv) in
    let h =
      raw_taxable_nonneg (sum_lines (pos 0) items) (raw_discount (sum_lines (pos 0) items) dt dv) in
    round_totals_nonneg _ _ x (x *ℤ pos (get_tax_rate tt)) h (mul_nonneg x (get_tax_rate tt) h)

abbrev pub WithinCent : ℤ → ℤ → Type 0
WithinCent a b = (a ≤ℤ b +ℤ pos 1) × (b ≤ℤ a +ℤ pos 1)

round_totals_add_up :
    (s d x t : ℤ) → let r = round_totals s d x t in WithinCent r.total (r.taxable_amount +ℤ r.tax)
unfolding round_totals
round_totals_add_up s d x t = omega (
  int_laws,
  quantize-IsNear 500000 x (omega arith),
  quantize-IsNear 50000000000 t (omega arith),
  quantize-IsNear 50000000000 (x *ℤ pos 100000 +ℤ t) (omega arith),
  pos_part-*ℤ x 100000,
  neg_part-*ℤ x 100000,
)

-- The five amounts are rounded one by one, and still the stored total is within a cent of the
-- stored taxable amount plus the stored tax.
pub calculate_totals_add_up :
    (items : List TaxLineItem) (discount_type : DiscountType) (discount_value : ℤ)
    (tax_type : TaxType)
    → let r = calculate_totals items discount_type discount_value tax_type in
      WithinCent r.total (r.taxable_amount +ℤ r.tax)
unfolding calculate_totals
calculate_totals_add_up items dt dv tt = round_totals_add_up _ _ _ _

round_totals_taxable :
    (s d t : ℤ)
    → let r = round_totals s d (raw_taxable s d) t in
      WithinCent r.taxable_amount (max_ℤ (pos 0) (r.subtotal -ℤ r.discount))
unfolding round_totals raw_taxable
round_totals_taxable s d t =
    let raw = s *ℤ pos 10000 -ℤ d in
    let kept = quantize 50 s -ℤ quantize 500000 d in
    rw (max_ℤ-zero raw, max_ℤ-zero kept)
      (omega (
        int_laws,
        quantize-IsNear 50 s (omega arith),
        quantize-IsNear 500000 d (omega arith),
        quantize-IsNear 500000 (pos (pos_part raw)) (omega arith),
        pos_part-*ℤ s 10000,
        neg_part-*ℤ s 10000,
        parts_disjoint raw,
        parts_disjoint kept,
      ))

-- The stored taxable amount is within a cent of the stored subtotal less the stored discount, or
-- of zero where the discount is the larger.
pub calculate_totals_taxable :
    (items : List TaxLineItem) (discount_type : DiscountType) (discount_value : ℤ)
    (tax_type : TaxType)
    → let r = calculate_totals items discount_type discount_value tax_type in
      WithinCent r.taxable_amount (max_ℤ (pos 0) (r.subtotal -ℤ r.discount))
unfolding calculate_totals
calculate_totals_taxable items dt dv tt = round_totals_taxable _ _ _

untaxed_totals :
    (s d x : ℤ)
    → let r = round_totals s d x (x *ℤ pos 0) in (r.tax ≡ pos 0) × (r.total ≡ r.taxable_amount)
unfolding round_totals
untaxed_totals s d x = rw (*ℤ-zero x) (zero_tax, rw +ℤ-zero (quantize-*ℤ x))
  where
    zero_tax : quantize 50000000000 (pos 0) ≡ pos 0
    zero_tax = unfold quantize in refl

-- With the tax type ZERO, or with a string that is no tax type, there is no tax, and the total is
-- the taxable amount to the cent.
pub calculate_totals_untaxed :
    (items : List TaxLineItem) (discount_type : DiscountType) (discount_value : ℤ)
    (tax_type : TaxType)
    → (tax_type ≡ TaxType.zero) ⊎ (tax_type ≡ TaxType.other)
    → let r = calculate_totals items discount_type discount_value tax_type in
      (r.tax ≡ pos 0) × (r.total ≡ r.taxable_amount)
unfolding calculate_totals get_tax_rate
calculate_totals_untaxed items dt dv TaxType.zero h = untaxed_totals _ _ _
calculate_totals_untaxed items dt dv TaxType.other h = untaxed_totals _ _ _
calculate_totals_untaxed items dt dv _ h = ground arith

-- The tax on what is charged: within a cent of the rate times the taxable amount, in units of
-- 10^-5 of a cent.
abbrev pub IsTaxOf : ℕ → ℤ → ℤ → Type 0
IsTaxOf rate taxable tax =
    (pos_part tax * 100000 ≤ pos_part taxable * rate + 57500)
    × (pos_part taxable * rate ≤ pos_part tax * 100000 + 57500)

round_totals_rate :
    (tax_type : TaxType) (s d x : ℤ)
    → pos 0 ≤ℤ x
    → let r = round_totals s d x (x *ℤ pos (get_tax_rate tax_type)) in
      IsTaxOf (get_tax_rate tax_type) r.taxable_amount r.tax
unfolding round_totals get_tax_rate
round_totals_rate TaxType.zero s d x h = omega (
  arith,
  near_nonneg 500000 x h (omega arith),
  near_nonneg 50000000000 _ (mul_nonneg x 0 h) (omega arith),
  pos_part-*ℤ,
)
round_totals_rate tax_type s d x h = omega (
  arith,
  near_nonneg 500000 x h (omega arith),
  near_nonneg 50000000000 _ (mul_nonneg x (get_tax_rate tax_type) h) (omega arith),
  pos_part-*ℤ,
)

-- The stored tax is the rate of the tax type on the stored taxable amount, within a cent.
pub calculate_totals_rate :
    (items : List TaxLineItem) (discount_type : DiscountType) (discount_value : ℤ)
    (tax_type : TaxType)
    → let r = calculate_totals items discount_type discount_value tax_type in
      IsTaxOf (get_tax_rate tax_type) r.taxable_amount r.tax
unfolding calculate_totals
calculate_totals_rate items dt dv tt = round_totals_rate tt _ _ _ (raw_taxable_nonneg _ _)
