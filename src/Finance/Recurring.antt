-- ===== src/Finance/Recurring.antt =====
-- finance/recurring.py: recurring transactions become invoices and bills.
pub mod Expansion
use food_tech_crm_backend.Prelude.{
  ℕ, ◌+◌, ◌-◌, ◌%◌, String, Option, none, some, List, [], ◌∷◌, Bool, true, false, not, ◌&&◌, ◌==◌,
  leb, any_where, rows_where, if◌then◌else◌,
}
use food_tech_crm_backend.Prelude.Int.{ℤ}
use food_tech_crm_backend.Prelude.Table.{Table}
use food_tech_crm_backend.Prelude.Exec.{Result, ok, err, raise}
use food_tech_crm_backend.Core.Recurrence.{Rule, weekday, occurrence_dates}
use food_tech_crm_backend.Core.Recurrence.Expansion.{expand_dates, expand_rows}
use food_tech_crm_backend.Finance.Tax.{TaxType, DiscountType}
use food_tech_crm_backend.Finance.Db.{
  Invoice, Bill, Db, Error, integrity_error, Service, LineItemData,
}
use food_tech_crm_backend.Finance.Invoices.{InvoiceInput, create_invoice}
use food_tech_crm_backend.Finance.Invoices as Invoices
use food_tech_crm_backend.Finance.Bills.{BillInput, create_bill}
use food_tech_crm_backend.Finance.Bills as Bills

pub data Kind : Type 0 where
  invoice bill : Kind

pub record RecurringTransaction : Type 0 where
  pub business : ℕ
  pub kind : Kind
  pub customer : Option ℕ
  pub vendor : Option ℕ
  pub line_item_presets : List LineItemData
  pub discount_type : DiscountType
  pub discount_value : ℤ
  pub tax_type : TaxType
  pub notes : String
  pub due_in_days : ℕ
  pub recurrence_rule : Rule
  pub start_date : ℕ
  pub end_date : Option ℕ
  pub is_active : Bool

-- With its key.
abbrev pub Row : Type 0
Row = ℕ × RecurringTransaction

abbrev pub invoice_input : Row → ℕ → ℕ → InvoiceInput
invoice_input (pk, r) customer date = record {
  business = r.business;
  customer = customer;
  line_items_data = r.line_item_presets;
  tax_type = r.tax_type;
  discount_type = r.discount_type;
  discount_value = r.discount_value;
  due_date = some (date + r.due_in_days);
  notes = r.notes;
  revenue_account = none;
  recurring_transaction = some pk;
  recurring_occurrence_date = some date;
}

abbrev pub bill_input : Row → ℕ → ℕ → BillInput
bill_input (pk, r) vendor date = record {
  business = r.business;
  vendor = vendor;
  line_items_data = r.line_item_presets;
  tax_type = r.tax_type;
  discount_type = r.discount_type;
  discount_value = r.discount_value;
  due_date = some (date + r.due_in_days);
  notes = r.notes;
  expense_account = none;
  recurring_transaction = some pk;
  recurring_occurrence_date = some date;
}

unfoldable pub already_exists : Row → ℕ → Db → Bool
already_exists (pk, r) date db = elim r.kind [
  | invoice ↦ any_where (Invoices.is_occurrence pk date) db.invoices
  | bill ↦ any_where (Bills.is_occurrence pk date) db.bills
]

-- Whether a call returned. The presets here are numbers, and then IntegrityError is the one exception
-- that these calls have, and is caught. A stored preset is JSON whose keys alone are checked: one that
-- is no number raises InvalidOperation, which ends the task and is not modelled.
abbrev pub returned : {A : Type 0} → Result Error A × Db → Bool × Db
returned (ok _, db) = (true, db)
returned (err _, db) = (false, db)

-- The creation under `try`; a document without a customer or a vendor violates NOT NULL. `id` gives
-- the key of the document that is created for a row and a date.
unfoldable pub create_document : (ℕ → ℕ → ℕ) → Row → ℕ → Db → Bool × Db
create_document id (pk, r) date db = elim r.kind [
  | invoice ↦ elim r.customer [
    | none ↦ (false, db)
    | some c ↦ returned (create_invoice (id pk date) (invoice_input (pk, r) c date) db)
  ]
  | bill ↦ elim r.vendor [
    | none ↦ (false, db)
    | some v ↦ returned (create_bill (id pk date) (bill_input (pk, r) v date) db)
  ]
]

-- One round of the loop, and whether it counted.
unfoldable pub create_occurrence : (ℕ → ℕ → ℕ) → Row → ℕ → Db → Bool × Db
create_occurrence id row date db =
    if already_exists row date db then (false, db) else create_document id row date db

unfoldable pub transaction_dates : Row → ℕ → ℕ → List ℕ
transaction_dates (pk, r) window_start window_end =
    occurrence_dates r.recurrence_rule r.start_date r.end_date (weekday r.start_date) window_start
      window_end

unfoldable pub expand_recurring_transaction : (ℕ → ℕ → ℕ) → Row → ℕ → ℕ → Db → ℕ × Db
expand_recurring_transaction id row window_start window_end =
    expand_dates (create_occurrence id) row (transaction_dates row window_start window_end)

abbrev pub not_ended : Option ℕ → ℕ → Bool
not_ended none today = true
not_ended (some end) today = leb today end

-- `active` tells of a business whether it is active.
abbrev pub is_due : (ℕ → Bool) → ℕ → ℕ → Row → Bool
is_due active today window_end (_, r) =
    r.is_active && active r.business && leb r.start_date window_end && not_ended r.end_date today

unfoldable pub expand_active_recurring_transactions :
    (ℕ → ℕ → ℕ) → (ℕ → Bool) → Table RecurringTransaction → ℕ → ℕ → Db → ℕ × Db
expand_active_recurring_transactions id active rows today window_days =
    let window_end = today + window_days in
    expand_rows (create_occurrence id) (λ r. transaction_dates r today window_end)
      (rows_where (is_due active today window_end) rows)
