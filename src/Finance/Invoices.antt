-- ===== src/Finance/Invoices.antt =====
-- finance/services.py: invoices; the payments against them and the refunds stand in Receipts. An
-- operation that is handed an instance takes its primary key and the instance's columns, which may be
-- older than the row.
pub mod Receipts
pub mod Ledger
pub mod History
pub mod Payments
pub mod Refunds
pub mod Balance
use food_tech_crm_backend.Prelude.{
  ℕ, ◌+◌, suc, String, Option, none, some, List, [], ◌∷◌, ◌++◌, Bool, true, false, not, ◌&&◌, ◌||◌,
  ◌==◌, ◌==?◌, any_where, rows_where, if◌then◌else◌, map, is_some, ltb,
}
use food_tech_crm_backend.Prelude.Int.{ℤ, pos, ◌+ℤ◌, ◌-ℤ◌, sum_where, ltb_ℤ, leb_ℤ}
use food_tech_crm_backend.Prelude.Table.{Table, lookup, insert, update, update_all}
use food_tech_crm_backend.Prelude.Exec.{
  Exec, Result, ok, err, pure, raise, gets, or_raise, atomic, raise_if, modify, when, ◌>>=◌, ◌>>◌,
}
use food_tech_crm_backend.Finance.Tax.{TaxType, DiscountType}
use food_tech_crm_backend.Finance.Numbering.{number_text, same_text, next_of, advance}
use food_tech_crm_backend.Finance.Db.{
  Amounts, InvoiceStatus, draft, sent, paid, overdue, cancelled, refunded, Method, Invoice,
  LineItem, Payment, Refund, Db, Error, invalid_invoice_state, refund_error, overpayment,
  over_refund, does_not_exist, integrity_error, database_error, Service, LineItemData, apply_totals,
  paid_total, net_paid_total, refund_amount,
}

abbrev pub is_draft : InvoiceStatus → Bool
is_draft draft = true
is_draft _ = false

abbrev pub is_sent : InvoiceStatus → Bool
is_sent sent = true
is_sent _ = false

abbrev pub is_paid : InvoiceStatus → Bool
is_paid paid = true
is_paid _ = false

abbrev pub is_cancelled : InvoiceStatus → Bool
is_cancelled cancelled = true
is_cancelled _ = false

-- `generate_invoice_number`: the prefix is "INV"
abbrev pub inv : List ℕ
inv = b'I' ∷ b'N' ∷ b'V' ∷ []

unfoldable pub generate_invoice_number : ℕ → Service (List ℕ)
generate_invoice_number business db =
    let number = next_of business db.invoice_numbers in
    (
      ok (number_text inv number),
      record db { invoice_numbers = advance business db.invoice_numbers },
    )

-- The rows of `bulk_create` for a document, in order from `sort_order` on.
unfoldable pub line_items : ℕ → ℕ → List LineItemData → List LineItem
line_items document i [] = []
line_items document i (d ∷ ds) =
    record {
      document = document;
      description = d.description;
      quantity = d.quantity;
      unit_price = d.unit_price;
      sort_order = i;
    }
    ∷ line_items document (suc i) ds

abbrev pub line_of : ℕ → LineItem → Bool
line_of document li = li.document == document

-- The arguments of `create_invoice`.
pub record InvoiceInput : Type 0 where
  pub business : ℕ
  pub customer : ℕ
  pub line_items_data : List LineItemData
  pub tax_type : TaxType
  pub discount_type : DiscountType
  pub discount_value : ℤ
  pub due_date : Option ℕ
  pub notes : String
  pub revenue_account : Option ℕ
  pub recurring_transaction : Option ℕ
  pub recurring_occurrence_date : Option ℕ

-- A document's amounts before `_apply_totals`.
abbrev pub blank_amounts : DiscountType → ℤ → TaxType → Amounts
blank_amounts discount_type discount_value tax_type = record {
  discount_type = discount_type;
  discount_value = discount_value;
  tax_type = tax_type;
  subtotal = pos 0;
  discount_amount = pos 0;
  taxable_amount = pos 0;
  tax_amount = pos 0;
  total = pos 0;
}

unfoldable pub new_invoice : InvoiceInput → List ℕ → Invoice
new_invoice input number = record {
  business = input.business;
  customer = input.customer;
  revenue_account = input.revenue_account;
  recurring_transaction = input.recurring_transaction;
  recurring_occurrence_date = input.recurring_occurrence_date;
  invoice_number = number;
  amounts =
      apply_totals (blank_amounts input.discount_type input.discount_value input.tax_type)
        input.line_items_data;
  status = draft;
  due_date = input.due_date;
  sent_at = none;
  notes = input.notes;
}

-- The row of this occurrence of a recurring transaction.
abbrev pub is_occurrence : ℕ → ℕ → ℕ × Invoice → Bool
is_occurrence recurring date (_, v) =
    v.recurring_transaction ==? recurring && v.recurring_occurrence_date ==? date

abbrev pub occurrence_taken : Option ℕ → Option ℕ → Table Invoice → Bool
occurrence_taken (some recurring) (some date) t = any_where (is_occurrence recurring date) t
occurrence_taken _ _ t = false

abbrev pub has_number : ℕ → List ℕ → ℕ × Invoice → Bool
has_number business number (_, v) = v.business == business && same_text v.invoice_number number

-- `Invoice.Meta.constraints`, against a row that is about to be inserted
unfoldable pub violates_unique : Invoice → Table Invoice → Bool
violates_unique v t =
    any_where (has_number v.business v.invoice_number) t
    || occurrence_taken v.recurring_transaction v.recurring_occurrence_date t

-- `id` is the new row's primary key, drawn by `uuid.uuid4`.
unfoldable pub create_invoice : ℕ → InvoiceInput → Service Invoice
unfolding generate_invoice_number
create_invoice id input = atomic (do
  number ← generate_invoice_number input.business
  let invoice = new_invoice input number
  raise_if (← gets (λ db. violates_unique invoice db.invoices)) integrity_error
  modify (λ db. record db {
    invoices = insert id invoice db.invoices;
    invoice_line_items = db.invoice_line_items ++ line_items id 0 input.line_items_data;
  })
  pure invoice)

-- The `**fields` that the invoice view passes to `update_invoice`: those of its write serializer.
pub record InvoiceFields : Type 0 where
  pub customer : Option ℕ
  pub revenue_account : Option (Option ℕ)
  pub discount_type : Option DiscountType
  pub discount_value : Option ℤ
  pub tax_type : Option TaxType
  pub due_date : Option (Option ℕ)
  pub notes : Option String

abbrev pub given {ℓ} : {A : Type ℓ} → Option A → A → A
given none old = old
given (some new) old = new

-- the loop of `setattr`
unfoldable pub set_fields : InvoiceFields → Invoice → Invoice
set_fields fields v = record v {
  customer = given fields.customer v.customer;
  revenue_account = given fields.revenue_account v.revenue_account;
  amounts = record v.amounts {
    discount_type = given fields.discount_type v.discount_type;
    discount_value = given fields.discount_value v.discount_value;
    tax_type = given fields.tax_type v.tax_type;
  };
  due_date = given fields.due_date v.due_date;
  notes = given fields.notes v.notes;
}

abbrev pub line_data : LineItem → LineItemData
line_data li = record {
  description = li.description;
  quantity = li.quantity;
  unit_price = li.unit_price;
}

-- the rows after the document's old lines are deleted and the new ones created
abbrev pub replace_lines : ℕ → Option (List LineItemData) → List LineItem → List LineItem
replace_lines document none rows = rows
replace_lines document (some ds) rows =
    rows_where (λ li. not (line_of document li)) rows ++ line_items document 0 ds

abbrev pub lines_of : ℕ → List LineItem → List LineItemData
lines_of document rows = map line_data (rows_where (line_of document) rows)

unfoldable pub update_invoice :
    ℕ → Invoice → Option (List LineItemData) → InvoiceFields → Service Invoice
update_invoice pk invoice line_items_data fields = do
  raise_if (not (is_draft invoice.status)) invalid_invoice_state
  atomic (do
    locked ← or_raise (← gets (λ db. lookup pk db.invoices)) does_not_exist
    let edited = set_fields fields locked
    items ← gets (λ db. given line_items_data (lines_of pk db.invoice_line_items))
    let totalled = record edited { amounts = apply_totals edited.amounts items }
    modify (λ db. record db {
      invoices = update pk (λ _. totalled) db.invoices;
      invoice_line_items = replace_lines pk line_items_data db.invoice_line_items;
    })
    pure totalled)

-- `save(update_fields=[…])`, which raises DatabaseError where the row is gone
abbrev pub save_invoice : ℕ → (Invoice → Invoice) → Service (Unit {0})
save_invoice pk f = do
  or_raise (← gets (λ db. lookup pk db.invoices)) database_error
  modify (λ db. record db { invoices = update pk f db.invoices })

-- `now` is the reading of the clock.
unfoldable pub send_invoice : ℕ → ℕ → Invoice → Service Invoice
send_invoice now pk invoice = do
  raise_if (not (is_draft invoice.status)) invalid_invoice_state
  save_invoice pk (λ v. record v { status = sent; sent_at = some now })
  pure (record invoice { status = sent; sent_at = some now })

unfoldable pub cancel_invoice : ℕ → Invoice → Service Invoice
cancel_invoice pk invoice = do
  raise_if (is_paid invoice.status) invalid_invoice_state
  raise_if (is_cancelled invoice.status) invalid_invoice_state
  save_invoice pk (λ v. record v { status = cancelled })
  pure (record invoice { status = cancelled })

-- finance/tasks.py, on one row; the due date of an invoice with none is not before any day
abbrev pub past_due : ℕ → Option ℕ → Bool
past_due today none = false
past_due today (some due) = ltb due today

unfoldable pub mark_overdue_invoices : ℕ → Db → Db
mark_overdue_invoices today db = record db {
  invoices =
      update_all (λ v. is_sent v.status && past_due today v.due_date)
        (λ v. record v { status = overdue }) db.invoices;
}
