-- ===== src/Finance/Estimates/Conversion.antt =====
-- `convert_estimate_to_invoice`: what the invoice has of the estimate, and that it happens once.
use food_tech_crm_backend.Prelude.{
  ℕ, ◌≡◌, some, Option, arith, List, [], ◌∷◌, suc, ◌++◌, refl, sym, ◌∙◌, Bool, false, ◌||◌,
  Bool-cases, inl, inr, if◌then◌else◌,
}
use food_tech_crm_backend.Prelude.Table.{Table, lookup, insert, update, lookup-update}
use food_tech_crm_backend.Prelude.Exec.{Result, ok, err}
use food_tech_crm_backend.Finance.Numbering.{number_text, next_of, advance}
use food_tech_crm_backend.Finance.Db.{
  draft, converted, LineItem, Invoice, Estimate, Db, Error, invalid_estimate_state, integrity_error,
  LineItemData, Amounts, apply_totals,
}
use food_tech_crm_backend.Finance.Invoices.{
  InvoiceInput, create_invoice, new_invoice, lines_of, line_of, blank_amounts,
  generate_invoice_number, violates_unique, line_items, inv,
}
use food_tech_crm_backend.Finance.Estimates.{
  convert_estimate_to_invoice, invoice_input, is_converted,
}

-- Once an estimate is converted, converting it again is refused and changes nothing, whatever
-- instance of it the caller holds, and no second invoice is made.
pub convert_estimate_to_invoice-converted :
    (id pk : ℕ) (instance_held e : Estimate) (due_date : Option ℕ) (db : Db)
    → lookup pk db.estimates ≡ some e
    → e.status ≡ converted
    → convert_estimate_to_invoice id pk instance_held due_date db ≡ (err invalid_estimate_state, db)
unfolding convert_estimate_to_invoice
convert_estimate_to_invoice-converted id pk old e due_date db row done = ground arith

apply_totals-blank :
    (a : Amounts) (items : List LineItemData)
    → apply_totals (blank_amounts a.discount_type a.discount_value a.tax_type) items
      ≡ apply_totals a items
unfolding apply_totals
apply_totals-blank a items = refl

-- The invoice that a conversion makes, and the tables after it.
abbrev pub invoice_of : ℕ → Estimate → Option ℕ → Db → Invoice
invoice_of pk e due_date db =
    new_invoice (invoice_input e (lines_of pk db.estimate_line_items) due_date)
      (number_text inv (next_of e.business db.invoice_numbers))

abbrev pub after_conversion : ℕ → ℕ → Estimate → Option ℕ → Db → Db
after_conversion id pk e due_date db = record db {
  invoices = insert id (invoice_of pk e due_date db) db.invoices;
  invoice_line_items =
      db.invoice_line_items ++ line_items id 0 (lines_of pk db.estimate_line_items);
  estimates =
      update pk (λ r. record r { status = converted; converted_invoice = some id }) db.estimates;
  invoice_numbers = advance e.business db.invoice_numbers;
}

-- A conversion of an estimate that is there, on every branch: it is refused where the caller's
-- instance or the locked row is converted, and fails where the invoice's number is taken, and then
-- nothing changes; otherwise there is one new draft invoice, with the estimate's customer, line items
-- and tax inputs, under the next number, and the estimate is marked as converted and linked to it.
pub convert_estimate_to_invoice_lem :
    (id pk : ℕ) (old e : Estimate) (due_date : Option ℕ) (db : Db)
    → lookup pk db.estimates ≡ some e
    → convert_estimate_to_invoice id pk old due_date db ≡ (
        if is_converted old.status || is_converted e.status
        then (err invalid_estimate_state, db)
        else if violates_unique (invoice_of pk e due_date db) db.invoices
        then (err integrity_error, db)
        else (ok (invoice_of pk e due_date db), after_conversion id pk e due_date db))
unfolding convert_estimate_to_invoice create_invoice generate_invoice_number
convert_estimate_to_invoice_lem id pk old e due_date db row = ground arith

amounts-new_invoice :
    (input : InvoiceInput) (number : List ℕ)
    → (new_invoice input number).amounts
      ≡ apply_totals
          (blank_amounts input.discount_type input.discount_value input.tax_type)
          input.line_items_data
unfolding new_invoice
amounts-new_invoice input number = refl

customer-new_invoice :
    (input : InvoiceInput) (number : List ℕ) → (new_invoice input number).customer ≡ input.customer
unfolding new_invoice
customer-new_invoice input number = refl

business-new_invoice :
    (input : InvoiceInput) (number : List ℕ) → (new_invoice input number).business ≡ input.business
unfolding new_invoice
business-new_invoice input number = refl

lookup-insert : (k : ℕ) (r : Invoice) (t : Table Invoice) → lookup k (insert k r t) ≡ some r
lookup-insert k r t = ground arith

notes-new_invoice :
    (input : InvoiceInput) (number : List ℕ) → (new_invoice input number).notes ≡ input.notes
unfolding new_invoice
notes-new_invoice input number = refl

status-new_invoice :
    (input : InvoiceInput) (number : List ℕ) → (new_invoice input number).status ≡ draft
unfolding new_invoice
status-new_invoice input number = refl

-- Which of the three outcomes it was, where it went through.
ok_of_cases :
    (b c : Bool) {A B : Type 0} (x : A) (y z : B) (s s' : Error) (v : A) (w : B)
    → ◌≡◌ {A = Result Error A × B}
        (if b then (err s, y) else if c then (err s', y) else (ok x, z))
        (ok v, w)
    → (b ≡ false) × (v ≡ x) × (w ≡ z)
ok_of_cases b c x y z s s' v w h = (ground arith, ground arith, ground arith)

lines_of-line_items : (id i : ℕ) (ds : List LineItemData) → lines_of id (line_items id i ds) ≡ ds
unfolding line_items
lines_of-line_items id i [] = refl
lines_of-line_items id i (d ∷ ds) = ground (arith, lines_of-line_items id (suc i) ds)

lines_of-appended :
    (id : ℕ) (ds : List LineItemData) (t : List LineItem)
    → lines_of id t ≡ []
    → lines_of id (t ++ line_items id 0 ds) ≡ ds
lines_of-appended id ds [] h = lines_of-line_items id 0 ds
lines_of-appended id ds (x ∷ t) h = elim (Bool-cases (line_of id x)) [
  | inl e ↦ absurd (ground arith)
  | inr e ↦ ground (arith, lines_of-appended id ds t (ground arith))
]

-- A conversion that goes through, of an estimate whose stored totals are those of its line items:
-- neither the row nor the caller's instance was converted; the estimate is marked as converted and
-- linked to the new invoice; the invoice is a draft with the estimate's business, customer and notes
-- and with the same discount, tax type and totals; and where no line items were there for its key,
-- the invoice's line items are those of the estimate.
pub convert_estimate_to_invoice_ok :
    (id pk : ℕ) (old e : Estimate) (due_date : Option ℕ) (db after : Db) (v : Invoice)
    → lookup pk db.estimates ≡ some e
    → e.amounts ≡ apply_totals e.amounts (lines_of pk db.estimate_line_items)
    → lines_of id db.invoice_line_items ≡ []
    → convert_estimate_to_invoice id pk old due_date db ≡ (ok v, after)
    → (is_converted old.status || is_converted e.status ≡ false)
      × (lookup pk after.estimates
          ≡ some (record e { status = converted; converted_invoice = some id }))
      × (lookup id after.invoices ≡ some v)
      × (v.status ≡ draft)
      × (v.business ≡ e.business)
      × (v.customer ≡ e.customer)
      × (v.notes ≡ e.notes)
      × (v.amounts ≡ e.amounts)
      × (lines_of id after.invoice_line_items ≡ lines_of pk db.estimate_line_items)
convert_estimate_to_invoice_ok id pk old e due_date db after v row totalled fresh done =
    let (went, is_v, is_after) =
      ok_of_cases (is_converted old.status || is_converted e.status)
        (violates_unique (invoice_of pk e due_date db) db.invoices) (invoice_of pk e due_date db) db
        (after_conversion id pk e due_date db) invalid_estimate_state integrity_error v after
        (sym (convert_estimate_to_invoice_lem id pk old e due_date db row) ∙ done) in
    let f = λ (r : Estimate). record r { status = converted; converted_invoice = some id } in
    let to_row : lookup pk (update pk f db.estimates) ≡ some (f e) =
      ground (arith, lookup-update pk pk f db.estimates) in
    let same = apply_totals-blank e.amounts (lines_of pk db.estimate_line_items) ∙ sym totalled in
    rw (is_v, is_after)
      (
        went,
        to_row,
        lookup-insert id _ db.invoices,
        status-new_invoice _ _,
        business-new_invoice _ _,
        customer-new_invoice _ _,
        notes-new_invoice _ _,
        amounts-new_invoice _ _ ∙ same,
        lines_of-appended id (lines_of pk db.estimate_line_items) db.invoice_line_items fresh,
      )
