-- ===== src/Loyalty/Orders.antt =====
-- loyalty/services.py: orders, the points they earn, their cancellation and their conversion into
-- invoices.
pub mod Ledger
pub mod Outcomes
use food_tech_crm_backend.Prelude.{
  ℕ, ◌+◌, ◌/◌, suc, String, Option, none, some, List, [], ◌∷◌, ◌++◌, Bool, true, false, ◌&&◌, ◌==◌,
  ◌==?◌, first_where, is_some, if◌then◌else◌,
}
use food_tech_crm_backend.Prelude.Int.{ℤ, pos, negsuc, neg, ◌-ℤ◌, ◌*ℤ◌, ltb_ℤ, min_ℤ}
use food_tech_crm_backend.Prelude.Table.{Table, lookup, insert, update}
use food_tech_crm_backend.Prelude.Exec.{
  Exec, Result, ok, err, pure, raise, gets, or_raise, atomic, raise_if, modify, when, ◌>>=◌, ◌>>◌,
}
use food_tech_crm_backend.Finance.Tax.{TaxType, DiscountType}
use food_tech_crm_backend.Finance.Db as FinanceDb
use food_tech_crm_backend.Finance.Db.{Invoice, LineItemData, apply_totals}
use food_tech_crm_backend.Finance.Invoices.{
  InvoiceInput, create_invoice, line_items, lines_of, blank_amounts,
}
use food_tech_crm_backend.Loyalty.Db.{
  OrderStatus, completed, cancelled, Order, LoyaltyProgram, CustomerLoyaltyAccount, Tier, Reason,
  PointsTransaction, Db, Error, invalid_order_state, order_already_converted, finance_error,
  does_not_exist, Service,
}
use food_tech_crm_backend.Loyalty.Points.{program_of, with_points, post, award_row, award_points}

abbrev pub is_cancelled : OrderStatus → Bool
is_cancelled completed = false
is_cancelled cancelled = true

-- The arguments of `create_order_and_award_points`.
pub record OrderInput : Type 0 where
  pub business : ℕ
  pub customer : ℕ
  pub line_items_data : List LineItemData
  pub tax_type : TaxType
  pub discount_type : DiscountType
  pub discount_value : ℤ
  pub notes : String
  pub loyalty_program : Option (ℕ × LoyaltyProgram)

unfoldable pub new_order : OrderInput → Order
new_order input = record {
  business = input.business;
  customer = input.customer;
  invoice = none;
  amounts =
      apply_totals (blank_amounts input.discount_type input.discount_value input.tax_type)
        input.line_items_data;
  status = completed;
  notes = input.notes;
}

-- `int(total * points_per_dollar)`: both are in hundredths, and `int` cuts towards zero.
unfoldable pub points_to_award : ℤ → ℤ → ℤ
points_to_award total points_per_dollar = cut (total *ℤ points_per_dollar)
  where
    cut : ℤ → ℤ
    cut (pos n) = pos (n / 10000)
    cut (negsuc n) = neg (pos (suc n / 10000))

-- the table's own rows, in the order of the query
abbrev pub active_of : ℕ → ℕ × LoyaltyProgram → Bool
active_of business (_, p) = p.business == business && p.is_active

abbrev pub account_of : ℕ → ℕ → ℕ × CustomerLoyaltyAccount → Bool
account_of customer program (_, a) = a.customer == customer && a.loyalty_program == program

abbrev pub new_account : ℕ → ℕ → CustomerLoyaltyAccount
new_account customer program = record {
  customer = customer;
  loyalty_program = program;
  available_points = pos 0;
  lifetime_points = pos 0;
  current_tier = Tier.bronze;
}

-- `get_or_create(customer=…, loyalty_program=…)`; `id` is the key of a new account
unfoldable pub get_or_create_account : ℕ → ℕ → ℕ → Service ℕ
get_or_create_account id customer program db =
    elim (first_where (account_of customer program) db.accounts) [
      | none ↦
          (ok id, record db { accounts = insert id (new_account customer program) db.accounts })
      | some (pk, _) ↦ (ok pk, db)
    ]

-- The keys of the new rows, and the clock.
pub record Fresh : Type 0 where
  pub order_id : ℕ
  pub account_id : ℕ
  pub transaction_id : ℕ
  pub now : ℕ

abbrev pub award_if_positive : Fresh → ℤ → ℕ → Service (Unit {0})
award_if_positive fresh points account = when (ltb_ℤ (pos 0) points) (do
  award_points fresh.transaction_id fresh.now account points Reason.order (some fresh.order_id) ""
  pure tt)

-- the part of the block after the order is stored, for a program and a total above zero
unfoldable pub award_for_order : Fresh → ℕ → ℤ → ℕ × LoyaltyProgram → Service (Unit {0})
award_for_order fresh customer total (program_pk, program) = do
  account ← get_or_create_account fresh.account_id customer program_pk
  award_if_positive fresh (points_to_award total program.points_per_dollar) account

-- `loyalty_program or …filter(…).first()`; `by_name` is the database's ordering of the programs, by
-- business and name
abbrev pub program_for :
    (Table LoyaltyProgram → Table LoyaltyProgram) → OrderInput → Db → Option (ℕ × LoyaltyProgram)
program_for by_name input db = elim input.loyalty_program [
  | none ↦ first_where (active_of input.business) (by_name db.programs)
  | some p ↦ some p
]

abbrev pub award_if_earned : Fresh → ℕ → ℤ → Option (ℕ × LoyaltyProgram) → Service (Unit {0})
award_if_earned fresh customer total none = pure tt
award_if_earned fresh customer total (some p) =
    when (ltb_ℤ (pos 0) total) (award_for_order fresh customer total p)

abbrev pub store_order : Fresh → OrderInput → Db → Db
store_order fresh input db = record db {
  orders = insert fresh.order_id (new_order input) db.orders;
  order_line_items = db.order_line_items ++ line_items fresh.order_id 0 input.line_items_data;
}

unfoldable pub create_order_and_award_points :
    (Table LoyaltyProgram → Table LoyaltyProgram) → Fresh → OrderInput → Service Order
create_order_and_award_points by_name fresh input = atomic (do
  modify (store_order fresh input)
  program ← gets (program_for by_name input)
  award_if_earned fresh input.customer (new_order input).total program
  pure (new_order input))

abbrev pub is_order_reason : Reason → Bool
is_order_reason Reason.order = true
is_order_reason _ = false

-- `points_transactions.filter(reason=ORDER)` of an order
abbrev pub earned_by : ℕ → ℕ × PointsTransaction → Bool
earned_by order (_, t) = t.order ==? order && is_order_reason t.reason

-- `id` is the key of the reversal's row.
unfoldable pub reverse_points : ℕ → ℕ → PointsTransaction → Service (Unit {0})
reverse_points id order earned = do
  account ← or_raise (← gets (λ db. lookup earned.account db.accounts)) does_not_exist
  let reversal_amount = min_ℤ earned.points_change account.available_points
  when (ltb_ℤ (pos 0) reversal_amount) (do
    program ← program_of account
    let available = account.available_points -ℤ reversal_amount
    modify (
        post id earned.account (with_points available account.lifetime_points program)
          (award_row earned.account (neg reversal_amount) Reason.reversal (some order) "" none)))

abbrev pub reverse_if_earned : ℕ → ℕ → Option (ℕ × PointsTransaction) → Service (Unit {0})
reverse_if_earned id order none = pure tt
reverse_if_earned id order (some (_, earned)) = reverse_points id order earned

abbrev pub set_cancelled : ℕ → Db → Db
set_cancelled pk db = record db {
  orders = update pk (λ o. record o { status = cancelled }) db.orders;
}

unfoldable pub cancel_order : ℕ → ℕ → Service Order
cancel_order id pk = atomic (do
  locked_order ← or_raise (← gets (λ db. lookup pk db.orders)) does_not_exist
  raise_if (is_cancelled locked_order.status) invalid_order_state
  earn_transaction ← gets (λ db. first_where (earned_by pk) db.points_transactions)
  reverse_if_earned id pk earn_transaction
  modify (set_cancelled pk)
  pure (record locked_order { status = cancelled }))

-- A call of `finance.services`.
abbrev pub in_finance : {A : Type 0} → FinanceDb.Service A → Service A
in_finance m db =
    let (r, finance) = m db.finance in
    (elim r [ ok a ↦ ok a | err e ↦ err (finance_error e) ], record db { finance = finance })

abbrev pub order_invoice_input : Order → List LineItemData → Option ℕ → String → InvoiceInput
order_invoice_input o line_items_data due_date notes = record {
  business = o.business;
  customer = o.customer;
  line_items_data = line_items_data;
  tax_type = o.tax_type;
  discount_type = o.discount_type;
  discount_value = o.discount_value;
  due_date = due_date;
  notes = notes;
  revenue_account = none;
  recurring_transaction = none;
  recurring_occurrence_date = none;
}

-- `id` is the new invoice's key, `order` the caller's instance, `notes` the text "Converted from
-- Order …".
unfoldable pub convert_order_to_invoice : ℕ → ℕ → Order → Option ℕ → String → Service Invoice
convert_order_to_invoice id pk order due_date notes = do
  raise_if (is_cancelled order.status) invalid_order_state
  raise_if (is_some order.invoice) order_already_converted
  atomic (do
    locked_order ← or_raise (← gets (λ db. lookup pk db.orders)) does_not_exist
    raise_if (is_cancelled locked_order.status) invalid_order_state
    raise_if (is_some locked_order.invoice) order_already_converted
    line_items_data ← gets (λ db. lines_of pk db.order_line_items)
    invoice ←
        in_finance
          (create_invoice id (order_invoice_input locked_order line_items_data due_date notes))
    modify (λ db. record db { orders = update pk (λ o. record o { invoice = some id }) db.orders })
    pure invoice)
