-- ===== src/Finance/Invoices/Receipts.antt =====
-- finance/services.py: payments against an invoice, and refunds of them.
use food_tech_crm_backend.Prelude.{ℕ, String, Option, some, Bool, ◌&&◌, ◌==◌, if◌then◌else◌}
use food_tech_crm_backend.Prelude.Int.{ℤ, pos, ◌+ℤ◌, ◌-ℤ◌, sum_where, ltb_ℤ, leb_ℤ}
use food_tech_crm_backend.Prelude.Table.{lookup, insert}
use food_tech_crm_backend.Prelude.Exec.{
  pure, gets, or_raise, atomic, raise_if, modify, when, ◌>>=◌, ◌>>◌,
}
use food_tech_crm_backend.Finance.Db.{
  InvoiceStatus, sent, paid, refunded, Method, Invoice, Payment, Refund, Db, invalid_invoice_state,
  refund_error, overpayment, over_refund, does_not_exist, Service, paid_total, net_paid_total,
  refund_amount,
}
use food_tech_crm_backend.Finance.Invoices.{is_draft, is_paid, is_cancelled, save_invoice}

-- The arguments of `record_payment` that only go into the new row.
pub record PaymentDetails : Type 0 where
  pub method : Method
  pub membership : Option ℕ
  pub stripe_payment_intent_id : String
  pub deposit_account : Option ℕ
  pub notes : String

abbrev pub new_payment : ℕ → Invoice → ℤ → PaymentDetails → Payment
new_payment pk invoice amount d = record {
  business = invoice.business;
  invoice = some pk;
  deposit_account = d.deposit_account;
  amount = amount;
  method = d.method;
  stripe_payment_intent_id = d.stripe_payment_intent_id;
  notes = d.notes;
  created_by = d.membership;
}

unfoldable pub record_payment : ℕ → ℕ → ℤ → PaymentDetails → Service Payment
record_payment id pk amount details = atomic (do
  locked ← or_raise (← gets (λ db. lookup pk db.invoices)) does_not_exist
  raise_if (is_cancelled locked.status) invalid_invoice_state
  raise_if (is_draft locked.status) invalid_invoice_state
  already_paid ← gets (paid_total pk)
  let new_total_paid = already_paid +ℤ amount
  raise_if (ltb_ℤ locked.total new_total_paid) (overpayment amount new_total_paid locked.total)
  let payment = new_payment pk locked amount details
  modify (λ db. record db { payments = insert id payment db.payments })
  when (leb_ℤ locked.total new_total_paid) (save_invoice pk (λ v. record v { status = paid }))
  pure payment)

abbrev pub refunds_payment : ℕ → ℕ × Refund → Bool
refunds_payment payment (_, r) = r.payment == payment

-- `payment.refunds.aggregate(total=Sum("amount"))`
unfoldable pub already_refunded : ℕ → Db → ℤ
already_refunded payment db = sum_where (refunds_payment payment) refund_amount db.refunds

abbrev pub new_refund : Invoice → ℕ → ℤ → String → Option ℕ → Refund
new_refund invoice payment amount reason membership = record {
  business = invoice.business;
  payment = payment;
  amount = amount;
  reason = reason;
  created_by = membership;
}

-- The status after a refund, from the status, the net amount paid and the total.
unfoldable pub status_after_refund : InvoiceStatus → ℤ → ℤ → InvoiceStatus
status_after_refund status net_paid total =
    if leb_ℤ net_paid (pos 0)
    then refunded
    else if is_paid status && ltb_ℤ net_paid total
    then sent
    else status

unfoldable pub refund_against : ℕ → ℕ → Payment → ℤ → String → Option ℕ → ℕ → Service Refund
refund_against id payment_pk payment amount reason membership pk = atomic (do
  locked ← or_raise (← gets (λ db. lookup pk db.invoices)) does_not_exist
  already ← gets (already_refunded payment_pk)
  raise_if (ltb_ℤ (payment.amount -ℤ already) amount) (over_refund amount already payment.amount)
  let refund = new_refund locked payment_pk amount reason membership
  modify (λ db. record db { refunds = insert id refund db.refunds })
  net_paid ← gets (net_paid_total pk)
  save_invoice pk
      (λ v. record v { status = status_after_refund locked.status net_paid locked.total })
  pure refund)

-- `payment` is the instance of the row `payment_pk`; a payment never changes.
unfoldable pub record_refund : ℕ → ℕ → Payment → ℤ → String → Option ℕ → Service Refund
record_refund id payment_pk payment amount reason membership = do
  raise_if (leb_ℤ amount (pos 0)) refund_error
  pk ← or_raise payment.invoice refund_error
  refund_against id payment_pk payment amount reason membership pk
