-- ===== src/Finance/Bills/Payments.antt =====
-- `record_bill_payment`, which does to a bill what `record_payment` does to an invoice.
use food_tech_crm_backend.Prelude.{
  ℕ, ◌≡◌, some, Bool, not, ◌&&◌, arith, if◌then◌else◌, Bool-cases, inl, inr,
}
use food_tech_crm_backend.Prelude.Int.{ℤ, ◌+ℤ◌, leb_ℤ, ltb_ℤ}
use food_tech_crm_backend.Prelude.Table.{lookup, lookup-update}
use food_tech_crm_backend.Prelude.Exec.{Result, ok, err}
use food_tech_crm_backend.Finance.Db.{
  BillStatus, InvoiceStatus, draft, received, sent, paid, overdue, cancelled, Bill, BillPayment,
  Invoice, Db, Error, invalid_bill_state, overpayment, bill_paid_total, paid_total,
}
use food_tech_crm_backend.Finance.Invoices
use food_tech_crm_backend.Finance.Invoices.Receipts.{PaymentDetails, record_payment}
use food_tech_crm_backend.Finance.Invoices.Payments.{record_payment_lem}
use food_tech_crm_backend.Finance.Bills.{
  BillPaymentDetails, record_bill_payment, new_bill_payment, is_cancelled, is_draft,
}

abbrev pub accepts : Bill → ℤ → ℤ → Bool
accepts v already amount =
    not (is_cancelled v.status)
    && not (is_draft v.status)
    && not (ltb_ℤ v.total (already +ℤ amount))

abbrev pub payment_outcome : ℕ → Bill → ℤ → ℤ → BillPaymentDetails → Result Error BillPayment
payment_outcome pk v already amount details =
    if is_cancelled v.status
    then err invalid_bill_state
    else if is_draft v.status
    then err invalid_bill_state
    else if ltb_ℤ v.total (already +ℤ amount)
    then err (overpayment amount (already +ℤ amount) v.total)
    else ok (new_bill_payment pk v amount details)

-- A payment of a bill that is there is refused where the bill is cancelled, is a draft, or would be
-- overpaid, and then the sum paid and the bill stay as they are; otherwise the sum paid grows by the
-- amount, and the status becomes `paid` exactly where it reaches the total.
pub record_bill_payment_lem :
    (id pk : ℕ) (amount : ℤ) (details : BillPaymentDetails) (v : Bill) (db : Db)
    → lookup pk db.bills ≡ some v
    → let (r, db') = record_bill_payment id pk amount details db in
      let p = bill_paid_total pk db in
      let accepted = accepts v p amount in
      let status = if leb_ℤ v.total (p +ℤ amount) then paid else v.status in
      (r ≡ payment_outcome pk v p amount details)
      × (bill_paid_total pk db' ≡ (if accepted then amount +ℤ p else p))
      × (lookup pk db'.bills ≡ some (if accepted then record v { status = status } else v))
unfolding record_bill_payment bill_paid_total
record_bill_payment_lem id pk amount details v db e = (
  ground arith,
  ground arith,
  ground (arith, lookup-update pk pk (λ v. record v { status = paid }) db.bills),
)

-- The invoice status in the place of a bill status.
abbrev pub invoice_status : BillStatus → InvoiceStatus
invoice_status draft = draft
invoice_status received = sent
invoice_status paid = paid
invoice_status overdue = overdue
invoice_status cancelled = cancelled

-- A bill and an invoice in corresponding statuses, with the same total.
pub record Mirrors (b : Bill) (v : Invoice) : Type 0 where
  pub statuses : invoice_status b.status ≡ v.status
  pub totals : b.total ≡ v.total

accepts-Mirrors :
    (b : Bill) (v : Invoice) (p a : ℤ)
    → Mirrors b v
    → accepts b p a ≡ Invoices.Payments.accepts v p a
accepts-Mirrors b v p a m = ground arith

after-Mirrors :
    (b : Bill) (v : Invoice) (p a : ℤ)
    → Mirrors b v
    → Mirrors
        (if accepts b p a
          then record b { status = if leb_ℤ b.total (p +ℤ a) then paid else b.status }
          else b)
        (if Invoices.Payments.accepts v p a
          then record v { status = if leb_ℤ v.total (p +ℤ a) then paid else v.status }
          else v)
after-Mirrors b v p a m = elim (Bool-cases (leb_ℤ b.total (p +ℤ a))) [
  | inl e ↦ ground arith
  | inr e ↦ ground arith
]

-- From a bill and an invoice that mirror one another, with the same sum paid, a payment of the same
-- amount leads to rows that mirror one another again, with the same sum paid again.
pub record_bill_payment-Mirrors :
    (b_id v_id b_pk v_pk : ℕ) (amount : ℤ) (b_details : BillPaymentDetails)
    (v_details : PaymentDetails) (b : Bill) (v : Invoice) (db : Db)
    → lookup b_pk db.bills ≡ some b
    → lookup v_pk db.invoices ≡ some v
    → Mirrors b v
    → bill_paid_total b_pk db ≡ paid_total v_pk db
    → let b_db = (record_bill_payment b_id b_pk amount b_details db).1 in
      let v_db = (record_payment v_id v_pk amount v_details db).1 in
      (b' : Bill) × (v' : Invoice) × (lookup b_pk b_db.bills ≡ some b')
      × (lookup v_pk v_db.invoices ≡ some v')
      × Mirrors b' v'
      × (bill_paid_total b_pk b_db ≡ paid_total v_pk v_db)
record_bill_payment-Mirrors b_id v_id b_pk v_pk amount bd vd b v db eb ev m same =
    let (_, b_sum, b_row) = record_bill_payment_lem b_id b_pk amount bd b db eb in
    let (_, v_sum, v_row) = record_payment_lem v_id v_pk amount vd v db ev in
    (
      _,
      _,
      b_row,
      v_row,
      rw same (after-Mirrors b v (paid_total v_pk db) amount m),
      rw (b_sum, v_sum, same) (rw (accepts-Mirrors b v (paid_total v_pk db) amount m)),
    )
