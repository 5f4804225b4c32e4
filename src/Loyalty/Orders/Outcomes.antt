-- ===== src/Loyalty/Orders/Outcomes.antt =====
-- Orders: what a second cancellation and a second conversion do, what a conversion gives, and
-- what a cancellation does to points that have expired.
use food_tech_crm_backend.Prelude.{
  ℕ, String, Option, some, is_some, ◌++◌, ◌≡◌, arith, refl, ◌∙◌, true, false, first_where,
  any_where, if◌then◌else◌,
}
use food_tech_crm_backend.Prelude.Int.{ℤ, pos, ltb_ℤ, min_ℤ, ◌-ℤ◌, ◌≤ℤ◌}
use food_tech_crm_backend.Prelude.Table.{lookup, insert, update, lookup-update}
use food_tech_crm_backend.Prelude.Exec.{ok, err}
use food_tech_crm_backend.Finance.Numbering.{number_text, next_of, advance}
use food_tech_crm_backend.Finance.Db.{Invoice, integrity_error}
use food_tech_crm_backend.Finance.Invoices.{
  new_invoice, create_invoice, lines_of, line_items, inv, violates_unique, generate_invoice_number,
}
use food_tech_crm_backend.Loyalty.Db.{
  Order, cancelled, LoyaltyProgram, CustomerLoyaltyAccount, PointsTransaction, Db,
  invalid_order_state, order_already_converted, finance_error,
}
use food_tech_crm_backend.Loyalty.Points.{expires, with_points, expiration_row, post, expire_one}
use food_tech_crm_backend.Loyalty.Points.Outcomes.{expire_one_lem}
use food_tech_crm_backend.Loyalty.Orders.{
  is_cancelled, cancel_order, convert_order_to_invoice, earned_by, reverse_points,
  order_invoice_input,
}

-- A cancelled order is not cancelled again: the call is refused, nothing changes, and no points are
-- taken back a second time.
pub cancel_order-cancelled :
    (id pk : ℕ) (o : Order) (db : Db)
    → lookup pk db.orders ≡ some o
    → o.status ≡ cancelled
    → cancel_order id pk db ≡ (err invalid_order_state, db)
unfolding cancel_order
cancel_order-cancelled id pk o db row done = ground arith

-- The invoice that the conversion makes, and the tables after it.
abbrev pub order_invoice : ℕ → Order → Option ℕ → String → Db → Invoice
order_invoice pk o due_date notes db =
    new_invoice (order_invoice_input o (lines_of pk db.order_line_items) due_date notes)
      (number_text inv (next_of o.business db.finance.invoice_numbers))

abbrev pub after_conversion : ℕ → ℕ → Order → Option ℕ → String → Db → Db
after_conversion id pk o due_date notes db = record db {
  orders = update pk (λ r. record r { invoice = some id }) db.orders;
  finance = record db.finance {
    invoices = insert id (order_invoice pk o due_date notes db) db.finance.invoices;
    invoice_line_items =
        db.finance.invoice_line_items ++ line_items id 0 (lines_of pk db.order_line_items);
    invoice_numbers = advance o.business db.finance.invoice_numbers;
  };
}

-- A conversion of an order that is there, on every branch: it is refused where the caller's instance
-- or the locked row is cancelled or has an invoice, and fails where the invoice's number is taken, and
-- then nothing changes; otherwise there is one new draft invoice, of the order's customer, line items
-- and tax inputs, under the next number, and the order is linked to it.
pub convert_order_to_invoice_lem :
    (id pk : ℕ) (old o : Order) (due_date : Option ℕ) (notes : String) (db : Db)
    → lookup pk db.orders ≡ some o
    → convert_order_to_invoice id pk old due_date notes db ≡ (
        if is_cancelled old.status
        then (err invalid_order_state, db)
        else if is_some old.invoice
        then (err order_already_converted, db)
        else if is_cancelled o.status
        then (err invalid_order_state, db)
        else if is_some o.invoice
        then (err order_already_converted, db)
        else if violates_unique (order_invoice pk o due_date notes db) db.finance.invoices
        then (err (finance_error integrity_error), db)
        else (
          ok (order_invoice pk o due_date notes db),
          after_conversion id pk o due_date notes db,
        ))
unfolding convert_order_to_invoice create_invoice generate_invoice_number
convert_order_to_invoice_lem id pk old o due_date notes db row = ground arith

-- A cancellation of an order whose points the account still has takes them.
cancel_order-available :
    (id pk earned_pk : ℕ) (o : Order) (earned : PointsTransaction) (a : CustomerLoyaltyAccount)
    (p : LoyaltyProgram) (db : Db)
    → lookup pk db.orders ≡ some o
    → is_cancelled o.status ≡ false
    → first_where (earned_by pk) db.points_transactions ≡ some (earned_pk, earned)
    → lookup earned.account db.accounts ≡ some a
    → lookup a.loyalty_program db.programs ≡ some p
    → pos 1 ≤ℤ earned.points_change
    → earned.points_change ≤ℤ a.available_points
    → lookup earned.account (cancel_order id pk db).1.accounts
      ≡ some (with_points (a.available_points -ℤ earned.points_change) a.lifetime_points p a)
unfolding cancel_order reverse_points
cancel_order-available id pk earned_pk o earned a p db row still first account program one enough =
    ground (
      arith,
      lookup-update earned.account earned.account
          (with_points (a.available_points -ℤ earned.points_change) a.lifetime_points p)
          db.accounts,
    )

module _ (n m : ℤ) (one : pos 1 ≤ℤ n) where
  above_zero : ltb_ℤ (pos 0) n ≡ true
  above_zero = ground arith

  min_left : n ≤ℤ m → min_ℤ n m ≡ n
  min_left h = ground arith

-- The points of an order that is not cancelled, to an account that is there with its program, are taken
-- twice where they expire before the order is cancelled. The expiry of the grant, which was not
-- expired before, puts an expiration of it on the ledger and takes its points from the account, which
-- has them; and the cancellation takes as many again, where the account has that many left.
pub cancel_order-expire_one :
    (expiry_id id pk earned_pk : ℕ) (o : Order) (earned : PointsTransaction)
    (a : CustomerLoyaltyAccount) (p : LoyaltyProgram) (db : Db)
    → lookup pk db.orders ≡ some o
    → is_cancelled o.status ≡ false
    → first_where (earned_by pk) db.points_transactions ≡ some (earned_pk, earned)
    → any_where (expires earned_pk) db.points_transactions ≡ false
    → lookup earned.account db.accounts ≡ some a
    → lookup a.loyalty_program db.programs ≡ some p
    → pos 1 ≤ℤ earned.points_change
    → earned.points_change ≤ℤ a.available_points
    → earned.points_change ≤ℤ a.available_points -ℤ earned.points_change
    → let expired = (expire_one expiry_id earned_pk earned db).1 in
      let after = (cancel_order id pk expired).1 in
      (any_where (expires earned_pk) expired.points_transactions ≡ true)
      × (b : CustomerLoyaltyAccount) × (lookup earned.account expired.accounts ≡ some b)
      × (b.available_points ≡ a.available_points -ℤ earned.points_change)
      × (c : CustomerLoyaltyAccount) × (lookup earned.account after.accounts ≡ some c)
      × (c.available_points ≡ b.available_points -ℤ earned.points_change)
cancel_order-expire_one expiry_id id pk earned_pk o earned a p db row still first fresh account
      program one enough twice =
    let n = earned.points_change in
    let once = with_points (a.available_points -ℤ n) a.lifetime_points p in
    let expired =
      post expiry_id earned.account once (expiration_row earned.account n earned_pk) db in
    let taken : (expire_one expiry_id earned_pk earned db).1 ≡ expired =
      rw
        (
          expire_one_lem expiry_id earned.account a p db account program earned_pk earned refl,
          fresh,
          min_left n a.available_points one enough,
          above_zero n a.available_points one,
        )
        refl in
    let less : lookup earned.account expired.accounts ≡ some (once a) =
      lookup-update earned.account earned.account once db.accounts ∙ ground arith in
    let again =
      cancel_order-available id pk earned_pk o earned (once a) p expired row still (ground arith)
        less program one twice in
    rw taken (ground arith, once a, less, refl, _, again, refl)
