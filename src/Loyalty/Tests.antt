-- ===== src/Loyalty/Tests.antt =====
-- The loyalty services run on small states: an account with points, an order, a gift card.
use food_tech_crm_backend.Prelude.{any_where, none, some, [], ◌∷◌, ◌≡◌, refl, true, arith}
use food_tech_crm_backend.Prelude.Int.{pos, ◌≤ℤ◌, ◌-ℤ◌}
use food_tech_crm_backend.Prelude.Table.{lookup}
use food_tech_crm_backend.Prelude.Exec.{ok}
use food_tech_crm_backend.Finance.Tests.Samples.{line, empty_db, ten_dollars}
use food_tech_crm_backend.Finance.Tax.{TaxType, DiscountType}
use food_tech_crm_backend.Loyalty.Db.{
  OrderStatus, Order, LoyaltyProgram, Tier, CustomerLoyaltyAccount, Reason, PointsTransaction,
  GiftCard, Db, points_total, card_total,
}
use food_tech_crm_backend.Loyalty.Points.{expires, redeem_points}
use food_tech_crm_backend.Loyalty.Points.{expire_due_points, expire_each, expire_one}
use food_tech_crm_backend.Loyalty.Points.Expiry.{expire_due_points_once}
use food_tech_crm_backend.Prelude.{◌+◌}
use food_tech_crm_backend.Loyalty.Points.Ledger.{IsPointsLedger}
use food_tech_crm_backend.Loyalty.Orders.{
  OrderInput, Fresh, create_order_and_award_points, cancel_order,
}
use food_tech_crm_backend.Loyalty.Orders.Outcomes.{cancel_order-expire_one}
use food_tech_crm_backend.Loyalty.History.{
  Reach, here, next, orders, redeems, cancels_order, Reach-IsPointsLedger,
}
use food_tech_crm_backend.Loyalty.GiftCards.{CardInput, create_gift_card, redeem_gift_card}
use food_tech_crm_backend.Loyalty.GiftCards.Balance.{IsCardLedger}
use food_tech_crm_backend.Loyalty.GiftCards.History
use food_tech_crm_backend.Loyalty.GiftCards.History.{Reach-IsCardLedger}

-- Two points for a dollar.
abbrev program : LoyaltyProgram
program = record {
  business = 1;
  name = "Regulars";
  points_per_dollar = pos 200;
  silver_threshold = pos 500;
  gold_threshold = pos 2000;
  platinum_threshold = pos 5000;
  points_expire_after_days = some 30;
  is_active = true;
}

abbrev account : CustomerLoyaltyAccount
account = record {
  customer = 2;
  loyalty_program = 1;
  available_points = pos 100;
  lifetime_points = pos 450;
  current_tier = Tier.bronze;
}

abbrev nothing : Db
nothing = record {
  programs = (1, program) ∷ [];
  accounts = [];
  points_transactions = [];
  orders = [];
  order_line_items = [];
  gift_cards = [];
  gift_card_transactions = [];
  finance = empty_db;
}

abbrev with_account : Db
with_account = record nothing { accounts = (4, account) ∷ [] }

nothing-IsPointsLedger : IsPointsLedger nothing
unfolding points_total
nothing-IsPointsLedger k = refl

abbrev order_input : OrderInput
order_input = record {
  business = 1;
  customer = 2;
  line_items_data = line ∷ [];
  tax_type = TaxType.zero;
  discount_type = DiscountType.none;
  discount_value = pos 0;
  notes = "";
  loyalty_program = none;
}

abbrev keys : Fresh
keys = record { order_id = 1; account_id = 4; transaction_id = 9; now = 7 }

abbrev ordered : Db
ordered = (create_order_and_award_points (λ t. t) keys order_input nothing).1

abbrev spent : Db
spent = (redeem_points 10 4 (pos 15) "" ordered).1

abbrev orders_history : Reach nothing (cancel_order 11 1 spent).1
orders_history =
    next (next (next here (orders (λ t. t) keys order_input refl)) (redeems 10 4 (pos 15) ""))
      (cancels_order 11 1)

Reach-IsPointsLedger_example : IsPointsLedger (cancel_order 11 1 spent).1
Reach-IsPointsLedger_example = Reach-IsPointsLedger nothing-IsPointsLedger orders_history

abbrev order_in : OrderStatus → Order
order_in status = record {
  business = 1;
  customer = 2;
  invoice = none;
  amounts = ten_dollars;
  status = status;
  notes = "";
}

abbrev with_order : OrderStatus → Db
with_order status = record with_account { orders = (1, order_in status) ∷ [] }

abbrev grant : PointsTransaction
grant = record {
  account = 4;
  points_change = pos 20;
  reason = Reason.order;
  order = some 1;
  notes = "";
  expires_at = some 5;
  expired_transaction = none;
}

-- 20 points from the order, among 100.
abbrev granted : Db
granted = record (with_order OrderStatus.completed) { points_transactions = (6, grant) ∷ [] }

abbrev grant_expired : Db
grant_expired = (expire_one 7 6 grant granted).1

cancel_order-expire_one_example :
    (any_where (expires 6) grant_expired.points_transactions ≡ true)
    × (b : CustomerLoyaltyAccount) × (lookup 4 grant_expired.accounts ≡ some b)
    × (b.available_points ≡ pos 80)
    × (c : CustomerLoyaltyAccount) × (lookup 4 (cancel_order 11 1 grant_expired).1.accounts
        ≡ some c)
    × (c.available_points ≡ b.available_points -ℤ pos 20)
unfolding ◌-ℤ◌
cancel_order-expire_one_example =
    cancel_order-expire_one 7 11 1 6 (order_in OrderStatus.completed) grant account program granted
      refl refl refl refl refl refl (omega arith) (omega arith) (omega arith)

abbrev card_input : CardInput
card_input = record {
  business = 1;
  code = "code";
  initial_balance = pos 2500;
  recipient_name = "";
  recipient_email = "";
  expires_at = none;
  purchaser_customer = none;
}

abbrev with_card : Db
with_card = (create_gift_card 3 1 card_input nothing).1

abbrev card : GiftCard
card = record {
  business = 1;
  code = "code";
  initial_balance = pos 2500;
  current_balance = pos 2500;
  is_active = true;
  expires_at = none;
  recipient_name = "";
  recipient_email = "";
  purchaser_customer = none;
  sent_at = none;
}

with_card_row : lookup 3 with_card.gift_cards ≡ some card
unfolding create_gift_card
with_card_row = refl

nothing-IsCardLedger : IsCardLedger nothing
unfolding card_total
nothing-IsCardLedger k = refl

nonneg : pos 0 ≤ℤ pos 2500
nonneg = omega arith

abbrev card_history : History.Reach nothing (redeem_gift_card 2 7 3 (pos 1000) none "" with_card).1
card_history =
    History.next (History.next History.here (History.creates 3 1 card_input refl nonneg))
      (History.redeems 2 7 3 (pos 1000) none "")

Reach-IsCardLedger_example : IsCardLedger (redeem_gift_card 2 7 3 (pos 1000) none "" with_card).1
Reach-IsCardLedger_example = Reach-IsCardLedger nothing-IsCardLedger card_history

-- The grant of 20 points, due at 7.
abbrev due_db : Db
due_db = record with_account { points_transactions = (6, grant) ∷ [] }

one_expired : (expire_due_points 7 (λ k. k + 100) due_db).0 ≡ ok 1
unfolding expire_due_points expire_each expire_one
one_expired = refl

expire_due_points_once_example :
    let after = (expire_due_points 7 (λ k. k + 100) due_db).1 in
    expire_due_points 7 (λ k. k + 200) after ≡ (ok 0, after)
expire_due_points_once_example =
    expire_due_points_once 7 1 (λ k. k + 100) (λ k. k + 200) due_db one_expired
