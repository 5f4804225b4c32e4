-- ===== src/Finance/Invoices/Refunds.antt =====
-- `record_refund`, branch by branch, and what it does to the balance.
use food_tech_crm_backend.Prelude.{
  ℕ, String, Option, none, some, ◌≡◌, arith, if◌then◌else◌, Bool, not,
}
use food_tech_crm_backend.Prelude.Int.{ℤ, pos, ◌≤ℤ◌, ◌-ℤ◌, ltb_ℤ, +ℤ_parts, -ℤ_parts}
use food_tech_crm_backend.Prelude.Table.{lookup, insert, update}
use food_tech_crm_backend.Prelude.Exec.{ok, err}
use food_tech_crm_backend.Finance.Db.{
  InvoiceStatus, Invoice, Payment, Db, over_refund, does_not_exist, net_paid_total,
}
use food_tech_crm_backend.Finance.Invoices.Receipts.{
  record_refund, refund_against, already_refunded, new_refund, status_after_refund,
}

-- Whether the amount is still refundable on the payment.
abbrev pub is_refundable : ℕ → Payment → ℤ → Db → Bool
is_refundable payment_pk payment amount db =
    not (ltb_ℤ (payment.amount -ℤ already_refunded payment_pk db) amount)

module _ (id payment_pk : ℕ) (payment : Payment) (amount : ℤ) (reason : String)
    (membership : Option ℕ) (pk : ℕ) (v : Invoice) (db : Db)
    (row : lookup pk db.invoices ≡ some v) where
  -- the state with the refund's row, before the status is set
  abbrev pub with_refund : Db
  with_refund = record db {
    refunds = insert id (new_refund v payment_pk amount reason membership) db.refunds;
  }

  abbrev pub refunded_status : InvoiceStatus
  refunded_status = status_after_refund v.status (net_paid_total pk with_refund) v.total

  pub refund_against_lem : refund_against id payment_pk payment amount reason membership pk db ≡ (
      if is_refundable payment_pk payment amount db
      then (
        ok (new_refund v payment_pk amount reason membership),
        record with_refund {
          invoices = update pk (λ r. record r { status = refunded_status }) db.invoices;
        },
      )
      else (err (over_refund amount (already_refunded payment_pk db) payment.amount), db))
  unfolding refund_against
  refund_against_lem = ground arith

pub refund_against_missing :
    (id payment_pk : ℕ) (payment : Payment) (amount : ℤ) (reason : String) (membership : Option ℕ)
    (pk : ℕ) (db : Db)
    → lookup pk db.invoices ≡ none
    → refund_against id payment_pk payment amount reason membership pk db ≡ (err does_not_exist, db)
unfolding refund_against
refund_against_missing id payment_pk payment amount reason membership pk db e = ground arith

-- A payment with the amount refunded on it.
abbrev pub RefundedRow : Option Payment → ℤ → Type 0
RefundedRow none r = r ≡ pos 0
RefundedRow (some p) r = (pos 0 ≤ℤ r) × (r ≤ℤ p.amount)

-- Every payment has been refunded between nothing and its amount, and no refund is of a payment
-- that is not there.
abbrev pub IsRefundLedger : Db → Type 0
IsRefundLedger db = (k : ℕ) → RefundedRow (lookup k db.payments) (already_refunded k db)

-- A refund of the current payment, accepted or not, keeps every payment refunded by no more than
-- its amount.
pub record_refund-IsRefundLedger :
    (id payment_pk : ℕ) (payment : Payment) (amount : ℤ) (reason : String) (membership : Option ℕ)
    (db : Db)
    → lookup payment_pk db.payments ≡ some payment
    → IsRefundLedger db
    → IsRefundLedger (record_refund id payment_pk payment amount reason membership db).1
unfolding record_refund refund_against already_refunded
record_refund-IsRefundLedger id payment_pk payment amount reason membership db e h k = ground (
  arith,
  h k,
  h payment_pk,
  -ℤ_parts payment.amount (already_refunded payment_pk db),
  +ℤ_parts amount (already_refunded payment_pk db),
)
