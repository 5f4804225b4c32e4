-- ===== src/Loyalty/History.antt =====
-- Sequences of service calls on points and orders, in any order, and what holds after them.
use food_tech_crm_backend.Prelude.{ℕ, String, Option, none, ◌≡◌}
use food_tech_crm_backend.Prelude.Int.{ℤ}
use food_tech_crm_backend.Prelude.Table.{Table, lookup}
use food_tech_crm_backend.Loyalty.Db.{LoyaltyProgram, Reason, Db}
use food_tech_crm_backend.Loyalty.Points.{award_points, redeem_points, expire_due_points}
use food_tech_crm_backend.Loyalty.Points.Ledger.{
  IsPointsLedger, award_points-IsPointsLedger, redeem_points-IsPointsLedger,
  expire_due_points-IsPointsLedger,
}
use food_tech_crm_backend.Loyalty.Orders.{
  OrderInput, Fresh, create_order_and_award_points, cancel_order,
}
use food_tech_crm_backend.Loyalty.Orders.Ledger.{
  create_order_and_award_points-IsPointsLedger, cancel_order-IsPointsLedger,
}

-- One call, with any arguments; a new account's key is fresh.
pub data Step (db : Db) : Db → Type 0 where
  awards :
      (id now pk : ℕ) (amount : ℤ) (reason : Reason) (order : Option ℕ) (notes : String)
      → Step db (award_points id now pk amount reason order notes db).1
  redeems :
      (id pk : ℕ) (amount : ℤ) (notes : String) → Step db (redeem_points id pk amount notes db).1
  points_expire : (now : ℕ) (fresh : ℕ → ℕ) → Step db (expire_due_points now fresh db).1
  orders :
      (by_name : Table LoyaltyProgram → Table LoyaltyProgram) (fresh : Fresh) (input : OrderInput)
      → lookup fresh.account_id db.accounts ≡ none
      → Step db (create_order_and_award_points by_name fresh input db).1
  cancels_order : (id pk : ℕ) → Step db (cancel_order id pk db).1

pub data Reach (s : Db) : Db → Type 0 where
  here : Reach s s
  next : {t u : Db} → Reach s t → Step t u → Reach s u

Step-IsPointsLedger : {s t : Db} → Step s t → IsPointsLedger s → IsPointsLedger t
Step-IsPointsLedger (awards id now pk amount reason order notes) h =
    award_points-IsPointsLedger id pk _ h now amount reason order notes
Step-IsPointsLedger (redeems id pk amount notes) h =
    redeem_points-IsPointsLedger id pk _ h amount notes
Step-IsPointsLedger (points_expire now fresh) h = expire_due_points-IsPointsLedger now fresh _ h
Step-IsPointsLedger (orders by_name fresh input new) h =
    create_order_and_award_points-IsPointsLedger by_name fresh input _ new h
Step-IsPointsLedger (cancels_order id pk) h = cancel_order-IsPointsLedger id pk _ h

-- After any sequence of awards, redemptions, expiry runs, orders and cancellations, of any amounts,
-- from tables where this holds of every account (empty tables, say): an account's available points
-- are what its transactions come to, not negative, and no more than its lifetime points; and no
-- transaction is of an account that is not there.
pub Reach-IsPointsLedger : {s t : Db} → IsPointsLedger s → Reach s t → IsPointsLedger t
Reach-IsPointsLedger h here = h
Reach-IsPointsLedger h (next r st) = Step-IsPointsLedger st (Reach-IsPointsLedger h r)
