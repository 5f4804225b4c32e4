-- ===== src/Finance/Tax/Order.antt =====
-- The order of the line items does not matter to the totals.
use mathlib.Core.Logic.{∥∥₁_elim}
use mathlib.Core.List.{Perm, Permᴰ}
use food_tech_crm_backend.Prelude.{◌≡◌, ◌∙◌, List, [], ◌∷◌}
use food_tech_crm_backend.Prelude.Int.{ℤ, pos, ◌*ℤ◌, ◌+ℤ◌, int_laws}
use food_tech_crm_backend.Finance.Tax.{
  TaxType, DiscountType, TaxLineItem, calculate_totals, sum_lines,
}

ℤ-discrete : IsSet ℤ
ℤ-discrete = hlevel

abbrev line_total : TaxLineItem → ℤ
line_total item = item.quantity *ℤ item.rate

-- The sum of the lines as a plain recursion.
lines_sum : List TaxLineItem → ℤ
lines_sum [] = pos 0
lines_sum (item ∷ items) = line_total item +ℤ lines_sum items

sum_lines-eq-lines_sum :
    (acc : ℤ) (items : List TaxLineItem) → sum_lines acc items ≡ acc +ℤ lines_sum items
unfolding sum_lines lines_sum
sum_lines-eq-lines_sum acc [] = omega int_laws
sum_lines-eq-lines_sum acc (item ∷ items) =
    sum_lines-eq-lines_sum (acc +ℤ line_total item) items ∙ omega int_laws

lines_sum-permᴰ : {xs ys : List TaxLineItem} → Permᴰ xs ys → lines_sum xs ≡ lines_sum ys
unfolding lines_sum
lines_sum-permᴰ Permᴰ.nil = omega int_laws
lines_sum-permᴰ (Permᴰ.cons e p) = cc (e, lines_sum-permᴰ p)
lines_sum-permᴰ (Permᴰ.swap {a} {b} {a'} {b'} {l} e f) = rw (e, f) (omega int_laws)
lines_sum-permᴰ (Permᴰ.trans p q) = lines_sum-permᴰ p ∙ lines_sum-permᴰ q

-- A document with its line items in another order has the same totals.
pub calculate_totals-perm :
    {xs ys : List TaxLineItem} (discount_type : DiscountType) (discount_value : ℤ)
    (tax_type : TaxType)
    → Perm xs ys
    → calculate_totals xs discount_type discount_value tax_type
      ≡ calculate_totals ys discount_type discount_value tax_type
unfolding calculate_totals
calculate_totals-perm {xs} {ys} dt dv tt p =
    cc (sum_lines-eq-lines_sum (pos 0) xs, sum_lines-eq-lines_sum (pos 0) ys, same)
  where
    same : lines_sum xs ≡ lines_sum ys
    same = ∥∥₁_elim p (ℤ-discrete _ _) lines_sum-permᴰ
