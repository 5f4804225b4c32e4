-- ===== src/Finance/Invoices/Ledger.antt =====
-- The invoice ledger: what is paid never passes an invoice's total, through every operation.
use mathlib.Core.Option.{some-injective}
use food_tech_crm_backend.Prelude.{
  ℕ, sym, ◌∙◌, String, Option, none, some, Option-cases, List, ◌≡◌, ◌≢◌, arith, refl, ◌&&◌, true,
  false, inl, inr, subst, ℕ_discrete, Bool-cases, if◌then◌else◌,
}
use food_tech_crm_backend.Prelude.Int.{ℤ, pos, ◌<ℤ◌, +ℤ_comm, leb_ℤ, ◌+ℤ◌, ◌≤ℤ◌, int_laws}
use food_tech_crm_backend.Prelude.Table.{Table, update, lookup, lookup-update, lookup-update_all}
use food_tech_crm_backend.Finance.Db.{
  InvoiceStatus, draft, paid, Invoice, Db, paid_total, apply_totals, LineItemData, Amounts, sent,
  overdue, cancelled, net_paid_total, Payment,
}
use food_tech_crm_backend.Finance.Numbering.{number_text, next_of}
use food_tech_crm_backend.Finance.Tax.Totals.{calculate_totals_nonneg}
use food_tech_crm_backend.Finance.Invoices.Payments.{
  accepts, record_payment_missing, record_payment_lem, record_payment_others,
}
use food_tech_crm_backend.Finance.Invoices.Refunds.{
  is_refundable, with_refund, refunded_status, refund_against_lem, refund_against_missing,
}
use food_tech_crm_backend.Finance.Invoices.{
  is_draft, create_invoice, InvoiceInput, update_invoice, InvoiceFields, send_invoice,
  cancel_invoice, mark_overdue_invoices, new_invoice, inv, set_fields, given, lines_of, is_sent,
  past_due,
}
use food_tech_crm_backend.Finance.Invoices.Receipts.{
  PaymentDetails, record_payment, record_refund, refund_against, status_after_refund,
}

-- What the status says of the sum paid `p` and the total `t`.
abbrev pub Settles : InvoiceStatus → ℤ → ℤ → Type 0
Settles draft p t = p ≡ pos 0
Settles paid p t = p ≡ t
Settles _ p t = Unit

-- An invoice whose payments sum to `p`.
pub record IsCovered (v : Invoice) (p : ℤ) : Type 0 where
  pub paid_nonneg : pos 0 ≤ℤ p
  pub paid_within : p ≤ℤ v.total
  pub settled : Settles v.status p v.total

abbrev pub CoveredRow : Option Invoice → ℤ → Type 0
CoveredRow none p = p ≡ pos 0
CoveredRow (some v) p = IsCovered v p

-- Every row is covered, and no payment stands against an invoice that is not there.
abbrev pub IsLedger : Db → Type 0
IsLedger db = (pk : ℕ) → CoveredRow (lookup pk db.invoices) (paid_total pk db)

Settles-pay :
    (s : InvoiceStatus) (p q t : ℤ)
    → p <ℤ q
    → q ≤ℤ t
    → is_draft s ≡ false
    → Settles s p t
    → Settles (if leb_ℤ t q then paid else s) q t
Settles-pay draft p q t up within open_for h = cc
Settles-pay paid p q t up within open_for h = absurd (ground arith)
Settles-pay s p q t up within open_for h = elim (Bool-cases (leb_ℤ t q)) [
  | inl e ↦ rw e (ground arith)
  | inr e ↦ rw e tt
]

payment-IsCovered :
    (v : Invoice) (p a : ℤ)
    → IsCovered v p
    → pos 1 ≤ℤ a
    → accepts v p a ≡ true
    → IsCovered (record v { status = if leb_ℤ v.total (p +ℤ a) then paid else v.status }) (a +ℤ p)
payment-IsCovered v p a h one accepted =
    let within : p +ℤ a ≤ℤ v.total = ground arith in
    let more : p <ℤ p +ℤ a = omega (int_laws, one) in
    rw (+ℤ_comm a p) (record {
      paid_nonneg = omega (int_laws, h.paid_nonneg, more);
      paid_within = within;
      settled = Settles-pay v.status p (p +ℤ a) v.total more within (ground arith) h.settled;
    })

-- Changing one row keeps the ledger where the new row is still covered.
update-IsLedger :
    (pk : ℕ) (f : Invoice → Invoice) (t : Table Invoice) (p : ℕ → ℤ)
    → ((v : Invoice) → lookup pk t ≡ some v → IsCovered v (p pk) → IsCovered (f v) (p pk))
    → ((j : ℕ) → CoveredRow (lookup j t) (p j))
    → (j : ℕ) → CoveredRow (lookup j (update pk f t)) (p j)
update-IsLedger pk f t p keep h j = elim (ℕ_discrete pk j) [
  | yes e ↦
      subst (λ i. CoveredRow (lookup i (update pk f t)) (p i)) e (at_row (lookup pk t) refl (h pk))
  | no ne ↦ rw (other ne) (h j)
]
  where
    at_row :
        (o : Option Invoice)
        → lookup pk t ≡ o
        → CoveredRow o (p pk)
        → CoveredRow (lookup pk (update pk f t)) (p pk)
    at_row none e c = ground (arith, lookup-update pk pk f t)
    at_row (some v) e c = rw (changed v e) (keep v e c)
      where
        changed : (v : Invoice) → lookup pk t ≡ some v → lookup pk (update pk f t) ≡ some (f v)
        changed v e = ground (arith, lookup-update pk pk f t)

    other : pk ≢ j → lookup j (update pk f t) ≡ lookup j t
    other ne = ground (arith, lookup-update pk j f t)

record_payment_here :
    (id pk : ℕ) (amount : ℤ) (details : PaymentDetails) (v : Invoice) (db : Db)
    → lookup pk db.invoices ≡ some v
    → pos 1 ≤ℤ amount
    → IsCovered v (paid_total pk db)
    → let db' = (record_payment id pk amount details db).1 in
      CoveredRow (lookup pk db'.invoices) (paid_total pk db')
record_payment_here id pk amount details v db e a h =
    let (_, sum, row) = record_payment_lem id pk amount details v db e in
    let p = paid_total pk db in
    rw (row, sum)
      (elim (Bool-cases (accepts v p amount)) [
        | inl accepted ↦ rw accepted (payment-IsCovered v p amount h a accepted)
        | inr refused ↦ rw refused h
      ])

pub record_payment-IsLedger :
    (id pk : ℕ) (amount : ℤ) (details : PaymentDetails) (db : Db)
    → pos 1 ≤ℤ amount
    → IsLedger db
    → IsLedger (record_payment id pk amount details db).1
record_payment-IsLedger id pk amount details db a h j =
    elim (Option-cases (lookup pk db.invoices)) [
      | inl e ↦ rw (record_payment_missing id pk amount details db e) (h j)
      | inr (v, e) ↦ elim (ℕ_discrete pk j) [
        | yes q ↦
            subst
              (λ i.
                CoveredRow (lookup i (record_payment id pk amount details db).1.invoices)
                  (paid_total i (record_payment id pk amount details db).1))
              q (record_payment_here id pk amount details v db e a (rw e at (h pk)))
        | no ne ↦
            let (sum, row) = record_payment_others id pk j amount details db (λ q. ne (sym q)) in
            rw (row, sum) (h j)
      ]
    ]

total-apply_totals :
    (a : Amounts) (items : List LineItemData) → pos 0 ≤ℤ (apply_totals a items).total
unfolding apply_totals
total-apply_totals a items = (calculate_totals_nonneg _ _ _ _).2

new_invoice-IsCovered :
    (input : InvoiceInput) (number : List ℕ) → IsCovered (new_invoice input number) (pos 0)
unfolding new_invoice
new_invoice-IsCovered input number = record {
  paid_nonneg = omega arith;
  paid_within = total-apply_totals _ _;
  settled = refl;
}

pub create_invoice-IsLedger :
    (id : ℕ) (input : InvoiceInput) (db : Db)
    → lookup id db.invoices ≡ none
    → IsLedger db
    → IsLedger (create_invoice id input db).1
unfolding create_invoice paid_total
create_invoice-IsLedger id input db fresh h j = ground (
  arith,
  h j,
  h id,
  new_invoice-IsCovered input (number_text inv (next_of input.business db.invoice_numbers)),
)

pub update_invoice-IsLedger :
    (pk : ℕ) (invoice : Invoice) (items : Option (List LineItemData)) (fields : InvoiceFields)
    (db : Db)
    → lookup pk db.invoices ≡ some invoice
    → IsLedger db
    → IsLedger (update_invoice pk invoice items fields db).1
unfolding update_invoice paid_total set_fields
update_invoice-IsLedger pk invoice items fields db current h j =
    let edited = set_fields fields invoice in
    let amounts = apply_totals edited.amounts (given items (lines_of pk db.invoice_line_items)) in
    ground (
      arith,
      h j,
      h pk,
      lookup-update pk j (λ _. record edited { amounts = amounts }) db.invoices,
      total-apply_totals edited.amounts (given items (lines_of pk db.invoice_line_items)),
    )

pub send_invoice-IsLedger :
    (now pk : ℕ) (invoice : Invoice) (db : Db)
    → IsLedger db
    → IsLedger (send_invoice now pk invoice db).1
unfolding send_invoice paid_total
send_invoice-IsLedger now pk invoice db h j = ground (
  arith,
  h j,
  lookup-update pk j (λ v. record v { status = sent; sent_at = some now }) db.invoices,
)

pub cancel_invoice-IsLedger :
    (pk : ℕ) (invoice : Invoice) (db : Db) → IsLedger db → IsLedger (cancel_invoice pk invoice db).1
unfolding cancel_invoice paid_total
cancel_invoice-IsLedger pk invoice db h j =
    ground (arith, h j, lookup-update pk j (λ v. record v { status = cancelled }) db.invoices)

pub mark_overdue_invoices-IsLedger :
    (today : ℕ) (db : Db) → IsLedger db → IsLedger (mark_overdue_invoices today db)
unfolding mark_overdue_invoices paid_total
mark_overdue_invoices-IsLedger today db h j = ground (
  arith,
  h j,
  lookup-update_all j (λ v. is_sent v.status && past_due today v.due_date)
      (λ v. record v { status = overdue }) db.invoices,
)

-- A refund never moves an invoice to `paid` or to `draft`.
status_after_refund-IsCovered :
    (v : Invoice) (n p : ℤ)
    → IsCovered v p
    → IsCovered (record v { status = status_after_refund v.status n v.total }) p
unfolding status_after_refund
status_after_refund-IsCovered v n p h = ground arith

refund_against-IsLedger_row :
    (id payment_pk : ℕ) (payment : Payment) (amount : ℤ) (reason : String) (membership : Option ℕ)
    (pk : ℕ) (v : Invoice) (db : Db)
    → lookup pk db.invoices ≡ some v
    → IsLedger db
    → IsLedger (refund_against id payment_pk payment amount reason membership pk db).1
unfolding paid_total
refund_against-IsLedger_row id payment_pk payment amount reason membership pk v db e h j =
    let status = refunded_status id payment_pk payment amount reason membership pk v db e in
    let n =
      net_paid_total pk (with_refund id payment_pk payment amount reason membership pk v db e) in
    rw (refund_against_lem id payment_pk payment amount reason membership pk v db e)
      (elim (Bool-cases (is_refundable payment_pk payment amount db)) [
        | inl yes_it_is ↦ rw yes_it_is (
            update-IsLedger pk (λ r. record r { status = status }) db.invoices
              (λ i. paid_total i db)
              (λ w f c.
                let same : w ≡ v = some-injective _ _ (sym f ∙ e) in
                rw same (status_after_refund-IsCovered v n (paid_total pk db) (rw same at c)))
              h j)
        | inr refused ↦ rw refused (h j)
      ])

refund_against-IsLedger :
    (id payment_pk : ℕ) (payment : Payment) (amount : ℤ) (reason : String) (membership : Option ℕ)
    (pk : ℕ) (db : Db)
    → IsLedger db
    → IsLedger (refund_against id payment_pk payment amount reason membership pk db).1
refund_against-IsLedger id payment_pk payment amount reason membership pk db h j =
    elim (Option-cases (lookup pk db.invoices)) [
      | inl e ↦
          rw (refund_against_missing id payment_pk payment amount reason membership pk db e) (h j)
      | inr (v, e) ↦
          refund_against-IsLedger_row id payment_pk payment amount reason membership pk v db e h j
    ]

pub record_refund-IsLedger :
    (id payment_pk : ℕ) (payment : Payment) (amount : ℤ) (reason : String) (membership : Option ℕ)
    (db : Db)
    → IsLedger db
    → IsLedger (record_refund id payment_pk payment amount reason membership db).1
unfolding record_refund
record_refund-IsLedger id payment_pk payment amount reason membership db h j =
    elim (Option-cases payment.invoice) [
      | inl e ↦ ground (arith, h j)
      | inr (pk, e) ↦ ground (
        arith,
        h j,
        refund_against-IsLedger id payment_pk payment amount reason membership pk db h j,
      )
    ]
