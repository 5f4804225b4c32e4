-- ===== src/Finance/Invoices/Balance.antt =====
-- Where the invoice operations leave a balance that the ledger's docstrings do not describe: after a
-- partial refund, and where an operation is handed an instance older than its row.
use food_tech_crm_backend.Prelude.{
  ℕ, String, Option, some, List, true, false, ◌≡◌, arith, refl, ap, ◌∙◌,
}
use food_tech_crm_backend.Prelude.Int.{
  ℤ, pos, negsuc, ◌≤ℤ◌, ◌<ℤ◌, ◌+ℤ◌, +ℤ_parts, +ℤ_comm, leb_ℤ, ltb_ℤ,
}
use food_tech_crm_backend.Prelude.Table.{lookup, lookup-update}
use food_tech_crm_backend.Prelude.Exec.{ok, err}
use food_tech_crm_backend.Finance.Db.{
  draft, sent, paid, cancelled, Invoice, Payment, Refund, Db, overpayment, paid_total,
  net_paid_total, LineItemData, apply_totals, refunded_total,
}
use food_tech_crm_backend.Finance.Invoices.{
  InvoiceFields, send_invoice, cancel_invoice, update_invoice, set_fields,
}
use food_tech_crm_backend.Finance.Invoices.Receipts.{
  PaymentDetails, record_payment, refund_against, status_after_refund,
}
use food_tech_crm_backend.Finance.Invoices.Payments.{accepts, record_payment_lem, payment_outcome}
use food_tech_crm_backend.Finance.Invoices.Refunds.{refunded_status}

-- A refund that went through, of a payment on an invoice that is there.
module _ (id payment_pk : ℕ) (payment : Payment) (amount : ℤ) (reason : String)
    (membership : Option ℕ) (pk : ℕ) (v : Invoice) (db : Db) (r : Refund) (after : Db)
    (row : lookup pk db.invoices ≡ some v)
    (done : refund_against id payment_pk payment amount reason membership pk db
      ≡ (ok r, after)) where
  row_after_refund :
      lookup pk after.invoices
      ≡ some (record v { status = status_after_refund v.status (net_paid_total pk after) v.total })
  unfolding refund_against net_paid_total refunded_total paid_total
  row_after_refund = ground (
    arith,
    lookup-update pk pk
        (λ r. record r {
          status = refunded_status id payment_pk payment amount reason membership pk v db row;
        })
        db.invoices,
  )

  paid_total-after_refund : paid_total pk after ≡ paid_total pk db
  unfolding refund_against paid_total
  paid_total-after_refund = ground arith

  -- An invoice that was paid in full and is then refunded in part goes back to `sent` with a balance
  -- outstanding, and yet every later payment on it, of however little, is refused as an overpayment,
  -- since `record_payment` counts the payments and not what is left of them after refunds.
  pub partial_refund_blocks_payment :
      (new_id : ℕ) (a : ℤ) (details : PaymentDetails)
      → v.status ≡ paid
      → paid_total pk db ≡ v.total
      → pos 1 ≤ℤ net_paid_total pk after
      → net_paid_total pk after <ℤ v.total
      → pos 1 ≤ℤ a
      → (lookup pk after.invoices ≡ some (record v { status = sent }))
        × ((record_payment new_id pk a details after).0
            ≡ err (overpayment a (v.total +ℤ a) v.total))
  partial_refund_blocks_payment new_id a details in_full covered left less one =
      let reopened : status_after_refund v.status (net_paid_total pk after) v.total ≡ sent =
        unfold status_after_refund in ground arith in
      let now : lookup pk after.invoices ≡ some (record v { status = sent }) =
        rw row_after_refund (rw reopened) in
      let paid_already = paid_total-after_refund in
      (
        now,
        (record_payment_lem new_id pk a details (record v { status = sent }) after now).0
            ∙ refused paid_already covered one,
      )
    where
      refused :
          paid_total pk after ≡ paid_total pk db
          → paid_total pk db ≡ v.total
          → pos 1 ≤ℤ a
          → payment_outcome pk (record v { status = sent }) (paid_total pk after) a details
            ≡ err (overpayment a (v.total +ℤ a) v.total)
      refused same covered one = rw (same, covered) (ground (arith, +ℤ_parts v.total a))

reached : (x : ℤ) → (leb_ℤ x x ≡ true) × (ltb_ℤ x x ≡ false)
reached (pos n) = (ground arith, ground arith)
reached (negsuc n) = (ground arith, ground arith)

-- A payment that reaches the total of a sent invoice.
paid_off :
    (id pk : ℕ) (amount : ℤ) (details : PaymentDetails) (v : Invoice) (db : Db)
    → lookup pk db.invoices ≡ some v
    → v.status ≡ sent
    → paid_total pk db +ℤ amount ≡ v.total
    → let after = (record_payment id pk amount details db).1 in
      (lookup pk after.invoices ≡ some (record v { status = paid }))
      × (paid_total pk after ≡ amount +ℤ paid_total pk db)
paid_off id pk amount details v db row is_sent covers =
    let (_, sum, after) = record_payment_lem id pk amount details v db row in
    let (full, not_over) = reached v.total in
    let is_full : leb_ℤ v.total (paid_total pk db +ℤ amount) ≡ true = rw covers full in
    let is_not_over : ltb_ℤ v.total (paid_total pk db +ℤ amount) ≡ false = rw covers not_over in
    let accepted : accepts v (paid_total pk db) amount ≡ true = ground arith in
    (after ∙ rw (accepted, is_full) refl, sum ∙ rw accepted refl)

cancel_lem :
    (pk : ℕ) (instance_held v : Invoice) (db : Db)
    → lookup pk db.invoices ≡ some v
    → instance_held.status ≡ sent
    → let after = (cancel_invoice pk instance_held db).1 in
      (lookup pk after.invoices ≡ some (record v { status = cancelled }))
      × (paid_total pk after ≡ paid_total pk db)
unfolding cancel_invoice paid_total
cancel_lem pk instance_held v db row old = (
  ground (arith, lookup-update pk pk (λ r. record r { status = cancelled }) db.invoices),
  ground arith,
)

-- Two requests on a sent invoice, each of which read it before either wrote: a payment of all that is
-- left to pay, and a cancellation. The payment makes the invoice paid, and the cancellation, which
-- tests the instance that it read, then cancels it, with the whole total paid.
pub cancel_invoice-record_payment :
    (id pk : ℕ) (amount : ℤ) (details : PaymentDetails) (v : Invoice) (db : Db)
    → lookup pk db.invoices ≡ some v
    → v.status ≡ sent
    → paid_total pk db +ℤ amount ≡ v.total
    → let paid_db = (record_payment id pk amount details db).1 in
      let after = (cancel_invoice pk v paid_db).1 in
      (lookup pk paid_db.invoices ≡ some (record v { status = paid }))
      × (lookup pk after.invoices ≡ some (record v { status = cancelled }))
      × (paid_total pk after ≡ v.total)
cancel_invoice-record_payment id pk amount details v db row is_sent covers =
    let (paid_row, sum) = paid_off id pk amount details v db row is_sent covers in
    let (after, kept) =
      cancel_lem pk v (record v { status = paid }) (record_payment id pk amount details db).1
        paid_row is_sent in
    (paid_row, after, kept ∙ (sum ∙ (+ℤ_comm amount (paid_total pk db) ∙ covers)))

send_lem :
    (now pk : ℕ) (v : Invoice) (db : Db)
    → lookup pk db.invoices ≡ some v
    → v.status ≡ draft
    → let after = (send_invoice now pk v db).1 in
      (lookup pk after.invoices ≡ some (record v { status = sent; sent_at = some now }))
      × (paid_total pk after ≡ paid_total pk db)
unfolding send_invoice paid_total
send_lem now pk v db row old = (
  ground (
    arith,
    lookup-update pk pk (λ r. record r { status = sent; sent_at = some now }) db.invoices,
  ),
  ground arith,
)

update_lem :
    (pk : ℕ) (instance_held v : Invoice) (items : List LineItemData) (fields : InvoiceFields)
    (db : Db)
    → lookup pk db.invoices ≡ some v
    → instance_held.status ≡ draft
    → let after = (update_invoice pk instance_held (some items) fields db).1 in
      (w : Invoice) × (lookup pk after.invoices ≡ some w)
      × (w.status ≡ v.status)
      × (w.total ≡ (apply_totals (set_fields fields v).amounts items).total)
      × (paid_total pk after ≡ paid_total pk db)
unfolding update_invoice paid_total set_fields
update_lem pk instance_held v items fields db row old =
    let edited = set_fields fields v in
    let totalled = record edited { amounts = apply_totals edited.amounts items } in
    (
      totalled,
      ground (arith, lookup-update pk pk (λ _. totalled) db.invoices),
      refl,
      refl,
      ground arith,
    )

-- An edit of a draft invoice that read it before it was sent, and saves new line items after it was
-- sent and paid in full: the invoice keeps the status `paid` under the total of the new line items,
-- whatever that is, and the sum paid is the total that it was sent with.
pub update_invoice-record_payment :
    (now id pk : ℕ) (amount : ℤ) (details : PaymentDetails) (v : Invoice)
    (items : List LineItemData) (fields : InvoiceFields) (db : Db)
    → lookup pk db.invoices ≡ some v
    → v.status ≡ draft
    → paid_total pk db +ℤ amount ≡ v.total
    → let sent_db = (send_invoice now pk v db).1 in
      let paid_db = (record_payment id pk amount details sent_db).1 in
      let after = (update_invoice pk v (some items) fields paid_db).1 in
      (w : Invoice) × (lookup pk after.invoices ≡ some w)
      × (w.status ≡ paid)
      × (w.total ≡ (apply_totals (set_fields fields v).amounts items).total)
      × (paid_total pk after ≡ v.total)
update_invoice-record_payment now id pk amount details v items fields db row is_draft covers =
    let sent_v = record v { status = sent; sent_at = some now } in
    let sent_db = (send_invoice now pk v db).1 in
    let (sent_row, sent_sum) = send_lem now pk v db row is_draft in
    let (paid_row, sum) =
      paid_off id pk amount details sent_v sent_db sent_row refl (rw sent_sum covers) in
    let (w, found, status, total, kept) =
      update_lem pk v (record sent_v { status = paid }) items fields
        (record_payment id pk amount details sent_db).1 paid_row is_draft in
    (
      w,
      found,
      status,
      total ∙ unfold set_fields in refl,
      kept
          ∙ (sum ∙ (ap (λ x. amount +ℤ x) sent_sum ∙ (+ℤ_comm amount (paid_total pk db) ∙ covers))),
    )
