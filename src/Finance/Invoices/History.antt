-- ===== src/Finance/Invoices/History.antt =====
-- Sequences of service calls on invoices, in any order, and what holds after them.
use food_tech_crm_backend.Prelude.{ℕ, String, Option, none, some, List, ◌≡◌}
use food_tech_crm_backend.Prelude.Int.{ℤ, pos, ◌≤ℤ◌}
use food_tech_crm_backend.Prelude.Table.{lookup}
use food_tech_crm_backend.Finance.Db.{Invoice, Payment, Db, paid_total, LineItemData}
use food_tech_crm_backend.Finance.Invoices.{
  create_invoice, InvoiceInput, update_invoice, InvoiceFields, send_invoice, cancel_invoice,
  mark_overdue_invoices,
}
use food_tech_crm_backend.Finance.Invoices.Receipts.{PaymentDetails, record_payment, record_refund}
use food_tech_crm_backend.Finance.Invoices.Ledger.{
  IsCovered, IsLedger, record_payment-IsLedger, create_invoice-IsLedger, update_invoice-IsLedger,
  send_invoice-IsLedger, cancel_invoice-IsLedger, record_refund-IsLedger,
  mark_overdue_invoices-IsLedger,
}

-- One call. A new row's key is fresh, a payment's amount is at least a cent (the serializer's
-- `min_value`), and `update_invoice` is handed the current row.
pub data Step (db : Db) : Db → Type 0 where
  creates :
      (id : ℕ) (input : InvoiceInput)
      → lookup id db.invoices ≡ none
      → Step db (create_invoice id input db).1
  updates :
      (pk : ℕ) (invoice : Invoice) (items : Option (List LineItemData)) (fields : InvoiceFields)
      → lookup pk db.invoices ≡ some invoice
      → Step db (update_invoice pk invoice items fields db).1
  sends : (now pk : ℕ) (invoice : Invoice) → Step db (send_invoice now pk invoice db).1
  cancels : (pk : ℕ) (invoice : Invoice) → Step db (cancel_invoice pk invoice db).1
  pays :
      (id pk : ℕ) (amount : ℤ) (details : PaymentDetails)
      → pos 1 ≤ℤ amount
      → Step db (record_payment id pk amount details db).1
  refunds :
      (id payment_pk : ℕ) (payment : Payment) (amount : ℤ) (reason : String) (membership : Option ℕ)
      → Step db (record_refund id payment_pk payment amount reason membership db).1
  falls_due : (today : ℕ) → Step db (mark_overdue_invoices today db)

pub data Reach (s : Db) : Db → Type 0 where
  here : Reach s s
  next : {t u : Db} → Reach s t → Step t u → Reach s u

Step-IsLedger : {s t : Db} → Step s t → IsLedger s → IsLedger t
Step-IsLedger (creates id input fresh) h = create_invoice-IsLedger id input _ fresh h
Step-IsLedger (updates pk invoice items fields current) h =
    update_invoice-IsLedger pk invoice items fields _ current h
Step-IsLedger (sends now pk invoice) h = send_invoice-IsLedger now pk invoice _ h
Step-IsLedger (cancels pk invoice) h = cancel_invoice-IsLedger pk invoice _ h
Step-IsLedger (pays id pk amount details a) h = record_payment-IsLedger id pk amount details _ a h
Step-IsLedger (refunds id payment_pk payment amount reason membership) h =
    record_refund-IsLedger id payment_pk payment amount reason membership _ h
Step-IsLedger (falls_due today) h = mark_overdue_invoices-IsLedger today _ h

pub Reach-IsLedger : {s t : Db} → IsLedger s → Reach s t → IsLedger t
Reach-IsLedger h here = h
Reach-IsLedger h (next r st) = Step-IsLedger st (Reach-IsLedger h r)

-- After any sequence of the calls of `Step`, from tables where this holds of every row (empty tables,
-- say), on every invoice: the payments sum to no less than zero and no more
-- than the total, a draft has none, and a paid invoice is paid to the cent.
pub Reach-IsCovered :
    {s t : Db} (pk : ℕ) (v : Invoice)
    → IsLedger s
    → Reach s t
    → lookup pk t.invoices ≡ some v
    → IsCovered v (paid_total pk t)
Reach-IsCovered {t = t} pk v h r e = rw e at (Reach-IsLedger h r pk)
