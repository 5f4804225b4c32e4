-- ===== src/Finance/Tax.antt =====
-- finance/tax.py: the totals of a document. A `Decimal` is a scaled integer: quantities, prices
-- and the discount value are in hundredths, a tax rate is in units of 10^-5, and each
-- intermediate value of `calculate_totals` has the scale that its comment names, so that the
-- arithmetic before rounding is exact.
pub mod Rounding
pub mod Totals
pub mod Order
use food_tech_crm_backend.Prelude.{ℕ, suc, ◌+◌, ◌*◌, ◌/◌, List, [], ◌∷◌}
use food_tech_crm_backend.Prelude.Int.{ℤ, pos, negsuc, neg, ◌+ℤ◌, ◌-ℤ◌, ◌*ℤ◌, max_ℤ}

-- `other` is any string outside `TaxType.choices`
pub data TaxType : Type 0 where
  zero gst_5 hst_15 gst_qst_14975 qst_9975 other : TaxType

-- `other` is any string outside `DiscountType.choices`
pub data DiscountType : Type 0 where
  none percentage fixed other : DiscountType

-- `TAX_RATES.get(tax_type, Decimal("0"))`, in units of 10^-5
unfoldable pub get_tax_rate : TaxType → ℕ
get_tax_rate TaxType.zero = 0
get_tax_rate gst_5 = 5000
get_tax_rate hst_15 = 15000
get_tax_rate gst_qst_14975 = 14975
get_tax_rate qst_9975 = 9975
get_tax_rate TaxType.other = 0

pub record TaxLineItem : Type 0 where
  pub quantity : ℤ  -- hundredths
  pub rate : ℤ  -- hundredths

-- all in cents
pub record TotalsResult : Type 0 where
  pub subtotal : ℤ
  pub discount : ℤ
  pub taxable_amount : ℤ
  pub tax : ℤ
  pub total : ℤ

-- `quantize(Decimal("0.01"), rounding=ROUND_HALF_UP)` of `value`, whose scale has 2 * `half` units
-- to the cent: a half is rounded away from zero.
unfoldable pub quantize : ℕ → ℤ → ℤ
quantize half (pos n) = pos ((n + half) / (2 * half))
quantize half (negsuc n) = neg (pos ((suc n + half) / (2 * half)))

-- the sum over the line items, from the left, in units of 10^-4
unfoldable pub sum_lines : ℤ → List TaxLineItem → ℤ
sum_lines acc [] = acc
sum_lines acc (item ∷ items) = sum_lines (acc +ℤ item.quantity *ℤ item.rate) items

-- in units of 10^-8
unfoldable pub raw_discount : ℤ → DiscountType → ℤ → ℤ
raw_discount subtotal percentage value = subtotal *ℤ value
raw_discount subtotal fixed value = value *ℤ pos 1000000
raw_discount subtotal _ value = pos 0

-- in units of 10^-8
unfoldable pub raw_taxable : ℤ → ℤ → ℤ
raw_taxable subtotal discount = max_ℤ (pos 0) (subtotal *ℤ pos 10000 -ℤ discount)

-- the five results, each rounded on its own
unfoldable pub round_totals : ℤ → ℤ → ℤ → ℤ → TotalsResult
round_totals subtotal discount taxable tax = record {
  subtotal = quantize 50 subtotal;
  discount = quantize 500000 discount;
  taxable_amount = quantize 500000 taxable;
  tax = quantize 50000000000 tax;
  total = quantize 50000000000 (taxable *ℤ pos 100000 +ℤ tax);
}

unfoldable pub calculate_totals : List TaxLineItem → DiscountType → ℤ → TaxType → TotalsResult
calculate_totals items discount_type discount_value tax_type =
    let subtotal = sum_lines (pos 0) items in
    let discount = raw_discount subtotal discount_type discount_value in
    let taxable = raw_taxable subtotal discount in
    let tax = taxable *ℤ pos (get_tax_rate tax_type) in round_totals subtotal discount taxable tax
