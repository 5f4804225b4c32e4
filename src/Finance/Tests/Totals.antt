-- ===== src/Finance/Tests/Totals.antt =====
-- finance/tax.py and the document numbers of finance/services.py, on small inputs.
use food_tech_crm_backend.Prelude.{List, [], ◌∷◌, ◌≡◌, refl}
use food_tech_crm_backend.Prelude.Int.{pos, ◌+ℤ◌, ◌-ℤ◌, ◌*ℤ◌}
use food_tech_crm_backend.Finance.Tax.{
  TaxType, DiscountType, TaxLineItem, TotalsResult, calculate_totals, sum_lines, raw_discount,
  raw_taxable, round_totals, quantize, get_tax_rate,
}
use food_tech_crm_backend.Finance.Numbering.{number_text, number_after, number_after-number_text}
use food_tech_crm_backend.Finance.Tax.Totals.{WithinCent, calculate_totals_add_up}
use food_tech_crm_backend.Finance.Tax.Order.{calculate_totals-perm}
use mathlib.Core.List.{Perm, Permᴰ}

-- 3 at $0.33 and 1 at $19.99, less 10%, with 14.975% tax.
abbrev tax_lines : List TaxLineItem
tax_lines =
    record { quantity = pos 300; rate = pos 33 }
    ∷ record { quantity = pos 100; rate = pos 1999 }
    ∷ []

abbrev tax_lines_again : List TaxLineItem
tax_lines_again =
    record { quantity = pos 100; rate = pos 1999 }
    ∷ record { quantity = pos 300; rate = pos 33 }
    ∷ []

abbrev result : TotalsResult
result = calculate_totals tax_lines DiscountType.percentage (pos 1000) TaxType.gst_qst_14975

result_amounts : result ≡ record {
  subtotal = pos 2098;
  discount = pos 210;
  taxable_amount = pos 1888;
  tax = pos 283;
  total = pos 2171;
}
unfolding calculate_totals round_totals quantize sum_lines raw_discount raw_taxable get_tax_rate
    ◌-ℤ◌ ◌+ℤ◌ ◌*ℤ◌
result_amounts = refl

calculate_totals_add_up_example : WithinCent result.total (result.taxable_amount +ℤ result.tax)
calculate_totals_add_up_example =
    calculate_totals_add_up tax_lines DiscountType.percentage (pos 1000) TaxType.gst_qst_14975

calculate_totals-perm_example :
    result
    ≡ calculate_totals tax_lines_again DiscountType.percentage (pos 1000) TaxType.gst_qst_14975
calculate_totals-perm_example =
    calculate_totals-perm DiscountType.percentage (pos 1000) TaxType.gst_qst_14975 swapped
  where
    swapped : Perm tax_lines tax_lines_again
    swapped = ∣ Permᴰ.swap refl refl ∣₁

number_after-number_text_example :
    number_after (b'I' ∷ []) (number_text (b'I' ∷ []) 123456) ≡ 123456
number_after-number_text_example = number_after-number_text (b'I' ∷ []) 123456
