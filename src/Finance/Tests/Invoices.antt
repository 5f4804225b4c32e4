-- ===== src/Finance/Tests/Invoices.antt =====
-- The invoice services of finance/services.py run on small states.
use food_tech_crm_backend.Prelude.{none, some, [], ◌∷◌, ◌≡◌, refl, arith}
use food_tech_crm_backend.Prelude.Int.{pos, ◌≤ℤ◌, ◌+ℤ◌, ◌-ℤ◌, ◌*ℤ◌}
use food_tech_crm_backend.Prelude.Table.{lookup}
use food_tech_crm_backend.Prelude.Exec.{ok, err}
use food_tech_crm_backend.Finance.Tax.{
  calculate_totals, sum_lines, raw_discount, raw_taxable, round_totals, quantize, get_tax_rate,
}
use food_tech_crm_backend.Finance.Numbering.{number_text}
use food_tech_crm_backend.Finance.Invoices.Payments.{record_payment_lem, payment_outcome}
use food_tech_crm_backend.Finance.Invoices.Refunds.{record_refund-IsRefundLedger, IsRefundLedger}
use food_tech_crm_backend.Finance.Invoices.Balance.{
  partial_refund_blocks_payment, cancel_invoice-record_payment, update_invoice-record_payment,
}
use food_tech_crm_backend.Finance.Db.{
  InvoiceStatus, Invoice, Payment, Refund, Db, Error, apply_totals, paid_total, refunded_total,
  net_paid_total,
}
use food_tech_crm_backend.Finance.Invoices.{
  InvoiceFields, create_invoice, generate_invoice_number, new_invoice, violates_unique,
  send_invoice, cancel_invoice, update_invoice, set_fields,
}
use food_tech_crm_backend.Finance.Invoices.Receipts.{
  record_payment, record_refund, refund_against, already_refunded, new_payment,
}
use food_tech_crm_backend.Finance.Invoices.Ledger.{IsCovered, IsLedger}
use food_tech_crm_backend.Finance.Invoices.History.{
  Reach, here, next, creates, sends, pays, Reach-IsCovered,
}
use food_tech_crm_backend.Finance.Tests.Samples.{
  input, empty_db, details, invoice_in, the_invoice, settled_in, unpaid,
}

abbrev created : Db
created = (create_invoice 1 input empty_db).1

created_row : lookup 1 created.invoices ≡ some the_invoice
unfolding create_invoice generate_invoice_number violates_unique new_invoice number_text
created_row = refl

empty_db-IsLedger : IsLedger empty_db
unfolding paid_total
empty_db-IsLedger pk = refl

a_cent : pos 1 ≤ℤ pos 600
a_cent = omega arith

abbrev history :
    Reach empty_db (record_payment 9 1 (pos 600) details (send_invoice 5 1 the_invoice created).1).1
history =
    next (next (next here (creates 1 input refl)) (sends 5 1 the_invoice))
      (pays 9 1 (pos 600) details a_cent)

abbrev paid_in_part : Db
paid_in_part = (record_payment 9 1 (pos 600) details (send_invoice 5 1 the_invoice created).1).1

paid_in_part_row :
    lookup 1 paid_in_part.invoices
    ≡ some (record the_invoice { status = InvoiceStatus.sent; sent_at = some 5 })
unfolding create_invoice generate_invoice_number violates_unique send_invoice record_payment
    paid_total new_invoice apply_totals calculate_totals round_totals quantize sum_lines
    raw_discount raw_taxable get_tax_rate number_text ◌+ℤ◌ ◌-ℤ◌ ◌*ℤ◌
paid_in_part_row = refl

Reach-IsCovered_example :
    IsCovered
      (record the_invoice { status = InvoiceStatus.sent; sent_at = some 5 })
      (paid_total 1 paid_in_part)
Reach-IsCovered_example = Reach-IsCovered 1 _ empty_db-IsLedger history paid_in_part_row

-- A payment of $4.00 on the $10.00 invoice.
record_payment_lem_example :
    let (r, db) = record_payment 9 1 (pos 400) details unpaid in
    (r ≡ payment_outcome 1 (invoice_in InvoiceStatus.sent) (pos 0) (pos 400) details)
    × (paid_total 1 db ≡ pos 400)
    × (lookup 1 db.invoices ≡ some (invoice_in InvoiceStatus.sent))
unfolding paid_total ◌+ℤ◌
record_payment_lem_example =
    record_payment_lem 9 1 (pos 400) details (invoice_in InvoiceStatus.sent) unpaid refl

settled-IsRefundLedger : IsRefundLedger (settled_in InvoiceStatus.paid)
unfolding already_refunded
settled-IsRefundLedger k = ground arith

record_refund-IsRefundLedger_example :
    IsRefundLedger
      (record_refund 9 5
        (new_payment 1 (invoice_in InvoiceStatus.paid) (pos 1000) details)
        (pos 400)
        ""
        none
        (settled_in InvoiceStatus.paid)).1
record_refund-IsRefundLedger_example =
    record_refund-IsRefundLedger 9 5
      (new_payment 1 (invoice_in InvoiceStatus.paid) (pos 1000) details) (pos 400) "" none
      (settled_in InvoiceStatus.paid) refl settled-IsRefundLedger

-- $4.00 of the $10.00 is refunded.
abbrev the_payment : Payment
the_payment = new_payment 1 (invoice_in InvoiceStatus.paid) (pos 1000) details

abbrev the_refund : Refund
the_refund = record { business = 1; payment = 5; amount = pos 400; reason = ""; created_by = none }

abbrev refunded_in_part : Db
refunded_in_part =
    (refund_against 9 5 the_payment (pos 400) "" none 1 (settled_in InvoiceStatus.paid)).1

refund_goes_through :
    refund_against 9 5 the_payment (pos 400) "" none 1 (settled_in InvoiceStatus.paid)
    ≡ (ok the_refund, refunded_in_part)
unfolding refund_against already_refunded ◌-ℤ◌
refund_goes_through = refl

covered_in_full : paid_total 1 (settled_in InvoiceStatus.paid) ≡ pos 1000
unfolding paid_total ◌+ℤ◌
covered_in_full = refl

net_of_refund : net_paid_total 1 refunded_in_part ≡ pos 600
unfolding net_paid_total refunded_total paid_total refund_against already_refunded ◌-ℤ◌ ◌+ℤ◌
net_of_refund = refl

partial_refund_blocks_payment_example :
    (lookup 1 refunded_in_part.invoices ≡ some (invoice_in InvoiceStatus.sent))
    × ((record_payment 10 1 (pos 400) details refunded_in_part).0
        ≡ err (Error.overpayment (pos 400) (pos 1000 +ℤ pos 400) (pos 1000)))
partial_refund_blocks_payment_example =
    partial_refund_blocks_payment 9 5 the_payment (pos 400) "" none 1
      (invoice_in InvoiceStatus.paid) (settled_in InvoiceStatus.paid) the_refund refunded_in_part
      refl refund_goes_through 10 (pos 400) details refl covered_in_full
      (rw net_of_refund (omega arith)) (rw net_of_refund (omega arith)) (omega arith)

nothing_paid : paid_total 1 unpaid +ℤ pos 1000 ≡ pos 1000
unfolding paid_total ◌+ℤ◌
nothing_paid = refl

cancel_invoice-record_payment_example :
    let paid_db = (record_payment 9 1 (pos 1000) details unpaid).1 in
    let after = (cancel_invoice 1 (invoice_in InvoiceStatus.sent) paid_db).1 in
    (lookup 1 paid_db.invoices ≡ some (invoice_in InvoiceStatus.paid))
    × (lookup 1 after.invoices ≡ some (invoice_in InvoiceStatus.cancelled))
    × (paid_total 1 after ≡ pos 1000)
cancel_invoice-record_payment_example =
    cancel_invoice-record_payment 9 1 (pos 1000) details (invoice_in InvoiceStatus.sent) unpaid refl
      refl nothing_paid

abbrev no_fields : InvoiceFields
no_fields = record {
  customer = none;
  revenue_account = none;
  discount_type = none;
  discount_value = none;
  tax_type = none;
  due_date = none;
  notes = none;
}

-- The draft invoice of $10.00, without a payment.
abbrev drafted : Db
drafted = record unpaid { invoices = (1, invoice_in InvoiceStatus.draft) ∷ [] }

none_paid : paid_total 1 drafted +ℤ pos 1000 ≡ pos 1000
unfolding paid_total ◌+ℤ◌
none_paid = refl

update_invoice-record_payment_example :
    let sent_db = (send_invoice 5 1 (invoice_in InvoiceStatus.draft) drafted).1 in
    let paid_db = (record_payment 9 1 (pos 1000) details sent_db).1 in
    let after = (update_invoice 1 (invoice_in InvoiceStatus.draft) (some []) no_fields paid_db).1 in
    (w : Invoice) × (lookup 1 after.invoices ≡ some w)
    × (w.status ≡ InvoiceStatus.paid)
    × (w.total
        ≡ (apply_totals (set_fields no_fields (invoice_in InvoiceStatus.draft)).amounts []).total)
    × (paid_total 1 after ≡ pos 1000)
update_invoice-record_payment_example =
    update_invoice-record_payment 5 9 1 (pos 1000) details (invoice_in InvoiceStatus.draft) []
      no_fields drafted refl refl none_paid
