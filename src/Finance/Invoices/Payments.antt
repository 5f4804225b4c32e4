-- ===== src/Finance/Invoices/Payments.antt =====
-- `record_payment` and `record_refund`, branch by branch.
use food_tech_crm_backend.Prelude.{ℕ, none, some, ◌≡◌, ◌≢◌, arith, if◌then◌else◌, Bool, not, ◌&&◌}
use food_tech_crm_backend.Prelude.Int.{ℤ, ◌+ℤ◌, leb_ℤ, ltb_ℤ}
use food_tech_crm_backend.Prelude.Table.{lookup, lookup-update}
use food_tech_crm_backend.Prelude.Exec.{Result, ok, err}
use food_tech_crm_backend.Finance.Db.{
  paid, Invoice, Payment, Db, Error, invalid_invoice_state, overpayment, does_not_exist, paid_total,
}
use food_tech_crm_backend.Finance.Invoices.{is_cancelled, is_draft}
use food_tech_crm_backend.Finance.Invoices.Receipts.{PaymentDetails, record_payment, new_payment}

-- Whether a payment is accepted, and what is returned, from the invoice and what is already paid.
abbrev pub accepts : Invoice → ℤ → ℤ → Bool
accepts v already amount =
    not (is_cancelled v.status)
    && not (is_draft v.status)
    && not (ltb_ℤ v.total (already +ℤ amount))

abbrev pub payment_outcome : ℕ → Invoice → ℤ → ℤ → PaymentDetails → Result Error Payment
payment_outcome pk v already amount details =
    if is_cancelled v.status
    then err invalid_invoice_state
    else if is_draft v.status
    then err invalid_invoice_state
    else if ltb_ℤ v.total (already +ℤ amount)
    then err (overpayment amount (already +ℤ amount) v.total)
    else ok (new_payment pk v amount details)

-- A payment against an invoice that is there is refused where the invoice is cancelled, is a draft,
-- or would be overpaid, and then the sum paid and the invoice stay as they are; otherwise the sum
-- paid grows by the amount, and the status becomes `paid` exactly where it reaches the total.
pub record_payment_lem :
    (id pk : ℕ) (amount : ℤ) (details : PaymentDetails) (v : Invoice) (db : Db)
    → lookup pk db.invoices ≡ some v
    → let (r, db') = record_payment id pk amount details db in
      let p = paid_total pk db in
      let accepted = accepts v p amount in
      let status = if leb_ℤ v.total (p +ℤ amount) then paid else v.status in
      (r ≡ payment_outcome pk v p amount details)
      × (paid_total pk db' ≡ (if accepted then amount +ℤ p else p))
      × (lookup pk db'.invoices ≡ some (if accepted then record v { status = status } else v))
unfolding record_payment paid_total
record_payment_lem id pk amount details v db e = (
  ground arith,
  ground arith,
  ground (arith, lookup-update pk pk (λ v. record v { status = paid }) db.invoices),
)

-- A payment against one invoice, accepted or not, changes neither the row of another nor the sum
-- paid on it.
pub record_payment_others :
    (id pk j : ℕ) (amount : ℤ) (details : PaymentDetails) (db : Db)
    → j ≢ pk
    → let db' = (record_payment id pk amount details db).1 in
      (paid_total j db' ≡ paid_total j db) × (lookup j db'.invoices ≡ lookup j db.invoices)
unfolding record_payment paid_total
record_payment_others id pk j amount details db ne =
    ground (arith, lookup-update pk j (λ v. record v { status = paid }) db.invoices)

pub record_payment_missing :
    (id pk : ℕ) (amount : ℤ) (details : PaymentDetails) (db : Db)
    → lookup pk db.invoices ≡ none
    → record_payment id pk amount details db ≡ (err does_not_exist, db)
unfolding record_payment
record_payment_missing id pk amount details db e = ground arith
