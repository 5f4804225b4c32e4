-- ===== src/Finance/Bills.antt =====
-- finance/services.py: bills owed to a vendor and the payments of them.
pub mod Payments
use food_tech_crm_backend.Prelude.{
  ℕ, String, Option, none, some, List, [], ◌∷◌, ◌++◌, Bool, true, false, not, ◌&&◌, ◌||◌, ◌==◌,
  ◌==?◌, any_where, if◌then◌else◌,
}
use food_tech_crm_backend.Prelude.Int.{ℤ, ◌+ℤ◌, ltb_ℤ, leb_ℤ}
use food_tech_crm_backend.Prelude.Table.{Table, lookup, insert, update, update_all}
use food_tech_crm_backend.Prelude.Exec.{
  ok, pure, gets, or_raise, atomic, raise_if, modify, when, ◌>>=◌, ◌>>◌,
}
use food_tech_crm_backend.Finance.Tax.{TaxType, DiscountType}
use food_tech_crm_backend.Finance.Numbering.{number_text, same_text, next_of, advance}
use food_tech_crm_backend.Finance.Db.{
  Amounts, BillStatus, draft, received, paid, overdue, cancelled, Method, Bill, BillPayment, Db,
  Error, invalid_bill_state, overpayment, does_not_exist, integrity_error, database_error, Service,
  LineItemData, apply_totals, bill_paid_total,
}
use food_tech_crm_backend.Finance.Invoices.{
  line_items, lines_of, replace_lines, blank_amounts, given, past_due,
}

abbrev pub is_draft : BillStatus → Bool
is_draft draft = true
is_draft _ = false

abbrev pub is_received : BillStatus → Bool
is_received received = true
is_received _ = false

abbrev pub is_paid : BillStatus → Bool
is_paid paid = true
is_paid _ = false

abbrev pub is_cancelled : BillStatus → Bool
is_cancelled cancelled = true
is_cancelled _ = false

-- the prefix "BILL"
abbrev pub bill_prefix : List ℕ
bill_prefix = b'B' ∷ b'I' ∷ b'L' ∷ b'L' ∷ []

unfoldable pub generate_bill_number : ℕ → Service (List ℕ)
generate_bill_number business db =
    let number = next_of business db.bill_numbers in
    (
      ok (number_text bill_prefix number),
      record db { bill_numbers = advance business db.bill_numbers },
    )

-- The arguments of `create_bill`.
pub record BillInput : Type 0 where
  pub business : ℕ
  pub vendor : ℕ
  pub line_items_data : List LineItemData
  pub tax_type : TaxType
  pub discount_type : DiscountType
  pub discount_value : ℤ
  pub due_date : Option ℕ
  pub notes : String
  pub expense_account : Option ℕ
  pub recurring_transaction : Option ℕ
  pub recurring_occurrence_date : Option ℕ

unfoldable pub new_bill : BillInput → List ℕ → Bill
new_bill input number = record {
  business = input.business;
  vendor = input.vendor;
  expense_account = input.expense_account;
  recurring_transaction = input.recurring_transaction;
  recurring_occurrence_date = input.recurring_occurrence_date;
  bill_number = number;
  amounts =
      apply_totals (blank_amounts input.discount_type input.discount_value input.tax_type)
        input.line_items_data;
  status = draft;
  due_date = input.due_date;
  received_at = none;
  notes = input.notes;
}

abbrev pub is_occurrence : ℕ → ℕ → ℕ × Bill → Bool
is_occurrence recurring date (_, v) =
    v.recurring_transaction ==? recurring && v.recurring_occurrence_date ==? date

abbrev pub occurrence_taken : Option ℕ → Option ℕ → Table Bill → Bool
occurrence_taken (some recurring) (some date) t = any_where (is_occurrence recurring date) t
occurrence_taken _ _ t = false

abbrev pub has_number : ℕ → List ℕ → ℕ × Bill → Bool
has_number business number (_, v) = v.business == business && same_text v.bill_number number

-- `Bill.Meta.constraints`
unfoldable pub violates_unique : Bill → Table Bill → Bool
violates_unique v t =
    any_where (has_number v.business v.bill_number) t
    || occurrence_taken v.recurring_transaction v.recurring_occurrence_date t

unfoldable pub create_bill : ℕ → BillInput → Service Bill
unfolding generate_bill_number
create_bill id input = atomic (do
  number ← generate_bill_number input.business
  let bill = new_bill input number
  raise_if (← gets (λ db. violates_unique bill db.bills)) integrity_error
  modify (λ db. record db {
    bills = insert id bill db.bills;
    bill_line_items = db.bill_line_items ++ line_items id 0 input.line_items_data;
  })
  pure bill)

-- The `**fields` that the bill view passes to `update_bill`.
pub record BillFields : Type 0 where
  pub vendor : Option ℕ
  pub expense_account : Option (Option ℕ)
  pub discount_type : Option DiscountType
  pub discount_value : Option ℤ
  pub tax_type : Option TaxType
  pub due_date : Option (Option ℕ)
  pub notes : Option String

unfoldable pub set_fields : BillFields → Bill → Bill
set_fields fields v = record v {
  vendor = given fields.vendor v.vendor;
  expense_account = given fields.expense_account v.expense_account;
  amounts = record v.amounts {
    discount_type = given fields.discount_type v.discount_type;
    discount_value = given fields.discount_value v.discount_value;
    tax_type = given fields.tax_type v.tax_type;
  };
  due_date = given fields.due_date v.due_date;
  notes = given fields.notes v.notes;
}

unfoldable pub update_bill : ℕ → Bill → Option (List LineItemData) → BillFields → Service Bill
update_bill pk bill line_items_data fields = do
  raise_if (not (is_draft bill.status)) invalid_bill_state
  atomic (do
    locked ← or_raise (← gets (λ db. lookup pk db.bills)) does_not_exist
    let edited = set_fields fields locked
    items ← gets (λ db. given line_items_data (lines_of pk db.bill_line_items))
    let totalled = record edited { amounts = apply_totals edited.amounts items }
    modify (λ db. record db {
      bills = update pk (λ _. totalled) db.bills;
      bill_line_items = replace_lines pk line_items_data db.bill_line_items;
    })
    pure totalled)

abbrev pub save_bill : ℕ → (Bill → Bill) → Service (Unit {0})
save_bill pk f = do
  or_raise (← gets (λ db. lookup pk db.bills)) database_error
  modify (λ db. record db { bills = update pk f db.bills })

unfoldable pub receive_bill : ℕ → ℕ → Bill → Service Bill
receive_bill now pk bill = do
  raise_if (not (is_draft bill.status)) invalid_bill_state
  save_bill pk (λ v. record v { status = received; received_at = some now })
  pure (record bill { status = received; received_at = some now })

unfoldable pub cancel_bill : ℕ → Bill → Service Bill
cancel_bill pk bill = do
  raise_if (is_paid bill.status) invalid_bill_state
  raise_if (is_cancelled bill.status) invalid_bill_state
  save_bill pk (λ v. record v { status = cancelled })
  pure (record bill { status = cancelled })

-- The arguments of `record_bill_payment` that only go into the new row.
pub record BillPaymentDetails : Type 0 where
  pub method : Method
  pub membership : Option ℕ
  pub payment_account : Option ℕ
  pub notes : String

abbrev pub new_bill_payment : ℕ → Bill → ℤ → BillPaymentDetails → BillPayment
new_bill_payment pk bill amount d = record {
  business = bill.business;
  bill = pk;
  payment_account = d.payment_account;
  amount = amount;
  method = d.method;
  notes = d.notes;
  created_by = d.membership;
}

unfoldable pub record_bill_payment : ℕ → ℕ → ℤ → BillPaymentDetails → Service BillPayment
record_bill_payment id pk amount details = atomic (do
  locked ← or_raise (← gets (λ db. lookup pk db.bills)) does_not_exist
  raise_if (is_cancelled locked.status) invalid_bill_state
  raise_if (is_draft locked.status) invalid_bill_state
  already_paid ← gets (bill_paid_total pk)
  let new_total_paid = already_paid +ℤ amount
  raise_if (ltb_ℤ locked.total new_total_paid) (overpayment amount new_total_paid locked.total)
  let bill_payment = new_bill_payment pk locked amount details
  modify (λ db. record db { bill_payments = insert id bill_payment db.bill_payments })
  when (leb_ℤ locked.total new_total_paid) (save_bill pk (λ v. record v { status = paid }))
  pure bill_payment)

-- finance/tasks.py
unfoldable pub mark_overdue_bills : ℕ → Db → Db
mark_overdue_bills today db = record db {
  bills =
      update_all (λ v. is_received v.status && past_due today v.due_date)
        (λ v. record v { status = overdue }) db.bills;
}
