-- ===== src/Finance/Estimates.antt =====
-- finance/services.py: estimates, and their conversion into invoices.
pub mod Conversion
use food_tech_crm_backend.Prelude.{
  ℕ, String, Option, none, some, List, [], ◌∷◌, ◌++◌, Bool, true, false, ◌&&◌, ◌==◌, any_where,
  if◌then◌else◌,
}
use food_tech_crm_backend.Prelude.Int.{ℤ}
use food_tech_crm_backend.Prelude.Table.{Table, lookup, insert, update}
use food_tech_crm_backend.Prelude.Exec.{
  ok, pure, gets, or_raise, atomic, raise_if, modify, ◌>>=◌, ◌>>◌,
}
use food_tech_crm_backend.Finance.Tax.{TaxType, DiscountType}
use food_tech_crm_backend.Finance.Numbering.{number_text, same_text, next_of, advance}
use food_tech_crm_backend.Finance.Db.{
  EstimateStatus, draft, converted, Invoice, Estimate, Db, Error, invalid_estimate_state,
  does_not_exist, integrity_error, database_error, Service, LineItemData, apply_totals,
}
use food_tech_crm_backend.Finance.Invoices.{
  InvoiceInput, create_invoice, line_items, lines_of, replace_lines, blank_amounts, given,
}

abbrev pub is_converted : EstimateStatus → Bool
is_converted converted = true
is_converted _ = false

-- the prefix "EST"
abbrev est_prefix : List ℕ
est_prefix = b'E' ∷ b'S' ∷ b'T' ∷ []

unfoldable pub generate_estimate_number : ℕ → Service (List ℕ)
generate_estimate_number business db =
    let number = next_of business db.estimate_numbers in
    (
      ok (number_text est_prefix number),
      record db { estimate_numbers = advance business db.estimate_numbers },
    )

-- The arguments of `create_estimate`.
pub record EstimateInput : Type 0 where
  pub business : ℕ
  pub customer : ℕ
  pub line_items_data : List LineItemData
  pub tax_type : TaxType
  pub discount_type : DiscountType
  pub discount_value : ℤ
  pub expires_at : Option ℕ
  pub notes : String

unfoldable pub new_estimate : EstimateInput → List ℕ → Estimate
new_estimate input number = record {
  business = input.business;
  customer = input.customer;
  estimate_number = number;
  amounts =
      apply_totals (blank_amounts input.discount_type input.discount_value input.tax_type)
        input.line_items_data;
  status = draft;
  expires_at = input.expires_at;
  notes = input.notes;
  converted_invoice = none;
}

-- `Estimate.Meta.constraints`
abbrev pub has_number : ℕ → List ℕ → ℕ × Estimate → Bool
has_number business number (_, v) = v.business == business && same_text v.estimate_number number

unfoldable pub create_estimate : ℕ → EstimateInput → Service Estimate
unfolding generate_estimate_number
create_estimate id input = atomic (do
  number ← generate_estimate_number input.business
  let estimate = new_estimate input number
  raise_if (← gets (λ db. any_where (has_number input.business number) db.estimates))
      integrity_error
  modify (λ db. record db {
    estimates = insert id estimate db.estimates;
    estimate_line_items = db.estimate_line_items ++ line_items id 0 input.line_items_data;
  })
  pure estimate)

-- The `**fields` that the estimate view passes to `update_estimate`; its `status` is never
-- `converted`.
pub record EstimateFields : Type 0 where
  pub customer : Option ℕ
  pub discount_type : Option DiscountType
  pub discount_value : Option ℤ
  pub tax_type : Option TaxType
  pub expires_at : Option (Option ℕ)
  pub notes : Option String
  pub status : Option EstimateStatus

unfoldable pub set_fields : EstimateFields → Estimate → Estimate
set_fields fields v = record v {
  customer = given fields.customer v.customer;
  amounts = record v.amounts {
    discount_type = given fields.discount_type v.discount_type;
    discount_value = given fields.discount_value v.discount_value;
    tax_type = given fields.tax_type v.tax_type;
  };
  expires_at = given fields.expires_at v.expires_at;
  notes = given fields.notes v.notes;
  status = given fields.status v.status;
}

unfoldable pub update_estimate :
    ℕ → Estimate → Option (List LineItemData) → EstimateFields → Service Estimate
update_estimate pk estimate line_items_data fields = do
  raise_if (is_converted estimate.status) invalid_estimate_state
  atomic (do
    locked ← or_raise (← gets (λ db. lookup pk db.estimates)) does_not_exist
    raise_if (is_converted locked.status) invalid_estimate_state
    let edited = set_fields fields locked
    items ← gets (λ db. given line_items_data (lines_of pk db.estimate_line_items))
    let totalled = record edited { amounts = apply_totals edited.amounts items }
    modify (λ db. record db {
      estimates = update pk (λ _. totalled) db.estimates;
      estimate_line_items = replace_lines pk line_items_data db.estimate_line_items;
    })
    pure totalled)

abbrev pub save_estimate : ℕ → (Estimate → Estimate) → Service (Unit {0})
save_estimate pk f = do
  or_raise (← gets (λ db. lookup pk db.estimates)) database_error
  modify (λ db. record db { estimates = update pk f db.estimates })

-- What `convert_estimate_to_invoice` hands to `create_invoice`.
abbrev pub invoice_input : Estimate → List LineItemData → Option ℕ → InvoiceInput
invoice_input e line_items_data due_date = record {
  business = e.business;
  customer = e.customer;
  line_items_data = line_items_data;
  tax_type = e.tax_type;
  discount_type = e.discount_type;
  discount_value = e.discount_value;
  due_date = due_date;
  notes = e.notes;
  revenue_account = none;
  recurring_transaction = none;
  recurring_occurrence_date = none;
}

-- `id` is the new invoice's primary key.
unfoldable pub convert_estimate_to_invoice : ℕ → ℕ → Estimate → Option ℕ → Service Invoice
convert_estimate_to_invoice id pk estimate due_date = do
  raise_if (is_converted estimate.status) invalid_estimate_state
  atomic (do
    locked ← or_raise (← gets (λ db. lookup pk db.estimates)) does_not_exist
    raise_if (is_converted locked.status) invalid_estimate_state
    line_items_data ← gets (λ db. lines_of pk db.estimate_line_items)
    invoice ← create_invoice id (invoice_input locked line_items_data due_date)
    save_estimate pk (λ e. record e { status = converted; converted_invoice = some id })
    pure invoice)
