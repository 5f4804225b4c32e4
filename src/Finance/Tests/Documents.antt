-- ===== src/Finance/Tests/Documents.antt =====
-- The bill and estimate services of finance/services.py run on small states.
use food_tech_crm_backend.Prelude.{none, some, [], ◌∷◌, ◌≡◌, refl, false, ◌||◌}
use food_tech_crm_backend.Prelude.Int.{pos, ◌+ℤ◌, ◌-ℤ◌, ◌*ℤ◌}
use food_tech_crm_backend.Prelude.Table.{lookup}
use food_tech_crm_backend.Prelude.Exec.{ok}
use food_tech_crm_backend.Finance.Tax.{
  calculate_totals, sum_lines, raw_discount, raw_taxable, round_totals, quantize, get_tax_rate,
}
use food_tech_crm_backend.Finance.Numbering.{number_text}
use food_tech_crm_backend.Finance.Bills.{BillPaymentDetails, record_bill_payment}
use food_tech_crm_backend.Finance.Bills.Payments.{record_bill_payment-Mirrors, Mirrors}
use food_tech_crm_backend.Finance.Estimates.{convert_estimate_to_invoice, is_converted}
use food_tech_crm_backend.Finance.Estimates.Conversion.{convert_estimate_to_invoice_ok}
use food_tech_crm_backend.Finance.Db.{
  InvoiceStatus, BillStatus, EstimateStatus, Method, Invoice, Bill, Estimate, Db, apply_totals,
  paid_total, bill_paid_total,
}
use food_tech_crm_backend.Finance.Invoices.{
  create_invoice, generate_invoice_number, new_invoice, violates_unique, lines_of,
}
use food_tech_crm_backend.Finance.Invoices.Receipts.{record_payment}
use food_tech_crm_backend.Finance.Tests.Samples.{
  empty_db, details, ten_dollars, invoice_in, the_invoice, unpaid,
}

abbrev bill_in : BillStatus → Bill
bill_in status = record {
  business = 1;
  vendor = 3;
  expense_account = none;
  recurring_transaction = none;
  recurring_occurrence_date = none;
  bill_number = b'7' ∷ [];
  amounts = ten_dollars;
  status = status;
  due_date = none;
  received_at = none;
  notes = "";
}

abbrev bill_details : BillPaymentDetails
bill_details = record {
  method = Method.check;
  membership = none;
  payment_account = none;
  notes = "";
}

-- A bill and an invoice of $10.00, with the keys 4 and 1.
abbrev both : Db
both = record unpaid { bills = (4, bill_in BillStatus.received) ∷ [] }

received-Mirrors : Mirrors (bill_in BillStatus.received) (invoice_in InvoiceStatus.sent)
received-Mirrors = record { statuses = refl; totals = refl }

no_payments : bill_paid_total 4 both ≡ paid_total 1 both
unfolding bill_paid_total paid_total
no_payments = refl

record_bill_payment-Mirrors_example :
    let b_db = (record_bill_payment 8 4 (pos 1000) bill_details both).1 in
    let v_db = (record_payment 9 1 (pos 1000) details both).1 in
    (b : Bill) × (v : Invoice) × (lookup 4 b_db.bills ≡ some b)
    × (lookup 1 v_db.invoices ≡ some v)
    × Mirrors b v
    × (bill_paid_total 4 b_db ≡ paid_total 1 v_db)
record_bill_payment-Mirrors_example =
    record_bill_payment-Mirrors 8 9 4 1 (pos 1000) bill_details details
      (bill_in BillStatus.received) (invoice_in InvoiceStatus.sent) both refl refl received-Mirrors
      no_payments

abbrev estimate_in : EstimateStatus → Estimate
estimate_in status = record {
  business = 1;
  customer = 2;
  estimate_number = b'7' ∷ [];
  amounts = ten_dollars;
  status = status;
  expires_at = none;
  notes = "";
  converted_invoice = none;
}

abbrev estimated : EstimateStatus → Db
estimated status = record empty_db {
  estimates = (1, estimate_in status) ∷ [];
  estimate_line_items =
      record {
        document = 1;
        description = "";
        quantity = pos 200;
        unit_price = pos 500;
        sort_order = 0;
      }
      ∷ [];
}

abbrev converted_db : Db
converted_db =
    (convert_estimate_to_invoice 9 1 (estimate_in EstimateStatus.accepted) none
      (estimated EstimateStatus.accepted)).1

abbrev converted_to : Invoice
converted_to = record the_invoice {
  invoice_number = b'I' ∷ b'N' ∷ b'V' ∷ b'-' ∷ b'0' ∷ b'0' ∷ b'0' ∷ b'0' ∷ b'1' ∷ [];
}

totals_stored :
    ten_dollars
    ≡ apply_totals ten_dollars
        (record { description = ""; quantity = pos 200; unit_price = pos 500 } ∷ [])
unfolding apply_totals calculate_totals round_totals quantize sum_lines raw_discount raw_taxable
    get_tax_rate ◌-ℤ◌ ◌+ℤ◌ ◌*ℤ◌
totals_stored = refl

conversion_goes_through :
    convert_estimate_to_invoice 9 1
      (estimate_in EstimateStatus.accepted)
      none
      (estimated EstimateStatus.accepted)
    ≡ (ok converted_to, converted_db)
unfolding convert_estimate_to_invoice create_invoice generate_invoice_number violates_unique
    new_invoice number_text apply_totals
conversion_goes_through = refl

convert_estimate_to_invoice_ok_example :
    (is_converted EstimateStatus.accepted || is_converted EstimateStatus.accepted ≡ false)
    × (lookup 1 converted_db.estimates
        ≡ some (record (estimate_in EstimateStatus.accepted) {
          status = EstimateStatus.converted;
          converted_invoice = some 9;
        }))
    × (lookup 9 converted_db.invoices ≡ some converted_to)
    × (converted_to.status ≡ InvoiceStatus.draft)
    × (converted_to.business ≡ 1)
    × (converted_to.customer ≡ 2)
    × (converted_to.notes ≡ "")
    × (converted_to.amounts ≡ ten_dollars)
    × (lines_of 9 converted_db.invoice_line_items
        ≡ lines_of 1 (estimated EstimateStatus.accepted).estimate_line_items)
convert_estimate_to_invoice_ok_example =
    convert_estimate_to_invoice_ok 9 1 (estimate_in EstimateStatus.accepted)
      (estimate_in EstimateStatus.accepted) none (estimated EstimateStatus.accepted) converted_db
      converted_to refl totals_stored refl conversion_goes_through
