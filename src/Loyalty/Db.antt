-- ===== src/Loyalty/Db.antt =====
-- loyalty/models.py: the rows of the loyalty tables and the state that the services change. Points
-- are whole numbers, gift card balances are in cents, points per dollar in hundredths.
use food_tech_crm_backend.Prelude.{ℕ, String, Option, List, Bool, ◌==◌}
use food_tech_crm_backend.Prelude.Int.{ℤ, sum_where}
use food_tech_crm_backend.Prelude.Table.{Table}
use food_tech_crm_backend.Prelude.Exec.{Exec}
use food_tech_crm_backend.Finance.Db as FinanceDb
use food_tech_crm_backend.Finance.Db.{Amounts, LineItem}

pub data OrderStatus : Type 0 where
  completed cancelled : OrderStatus

pub record Order : Type 0 where
  pub business : ℕ
  pub customer : ℕ
  pub invoice : Option ℕ
  pub amounts : Amounts
  pub open amounts use *
  pub status : OrderStatus
  pub notes : String

pub record LoyaltyProgram : Type 0 where
  pub business : ℕ
  pub name : String
  pub points_per_dollar : ℤ
  pub silver_threshold : ℤ
  pub gold_threshold : ℤ
  pub platinum_threshold : ℤ
  pub points_expire_after_days : Option ℕ
  pub is_active : Bool

pub data Tier : Type 0 where
  bronze silver gold platinum : Tier

pub record CustomerLoyaltyAccount : Type 0 where
  pub customer : ℕ
  pub loyalty_program : ℕ
  pub available_points : ℤ
  pub lifetime_points : ℤ
  pub current_tier : Tier

pub data Reason : Type 0 where
  order redemption manual expiration reversal : Reason

pub record PointsTransaction : Type 0 where
  pub account : ℕ
  pub points_change : ℤ
  pub reason : Reason
  pub order : Option ℕ
  pub notes : String
  pub expires_at : Option ℕ
  pub expired_transaction : Option ℕ

pub record GiftCard : Type 0 where
  pub business : ℕ
  pub code : String
  pub initial_balance : ℤ
  pub current_balance : ℤ
  pub is_active : Bool
  pub expires_at : Option ℕ
  pub recipient_name : String
  pub recipient_email : String
  pub purchaser_customer : Option ℕ
  pub sent_at : Option ℕ

pub data CardReason : Type 0 where
  initial reload redemption : CardReason

pub record GiftCardTransaction : Type 0 where
  pub gift_card : ℕ
  pub amount_change : ℤ
  pub reason : CardReason
  pub notes : String
  pub created_by : Option ℕ

pub record Db : Type 0 where
  pub programs : Table LoyaltyProgram
  pub accounts : Table CustomerLoyaltyAccount
  pub points_transactions : Table PointsTransaction
  pub orders : Table Order
  pub order_line_items : List LineItem
  pub gift_cards : Table GiftCard
  pub gift_card_transactions : Table GiftCardTransaction
  pub finance : FinanceDb.Db

-- LoyaltyError and its subclasses, the exceptions of `finance.services`, and the database's own.
pub data Error : Type 0 where
  loyalty_error invalid_order_state order_already_converted : Error
  insufficient_points : ℤ → ℤ → Error
  insufficient_gift_card_balance : ℤ → ℤ → Error
  inactive_gift_card expired_gift_card : Error
  finance_error : FinanceDb.Error → Error
  does_not_exist integrity_error : Error

abbrev pub Service : Type 0 → Type 0
Service = Exec Db Error

abbrev pub of_account : ℕ → ℕ × PointsTransaction → Bool
of_account account (_, t) = t.account == account

abbrev pub points_of : ℕ × PointsTransaction → ℤ
points_of (_, t) = t.points_change

-- What the ledger of an account comes to.
unfoldable pub points_total : ℕ → Db → ℤ
points_total account db = sum_where (of_account account) points_of db.points_transactions

abbrev pub of_card : ℕ → ℕ × GiftCardTransaction → Bool
of_card card (_, t) = t.gift_card == card

abbrev pub card_amount : ℕ × GiftCardTransaction → ℤ
card_amount (_, t) = t.amount_change

-- What the ledger of a gift card comes to.
unfoldable pub card_total : ℕ → Db → ℤ
card_total card db = sum_where (of_card card) card_amount db.gift_card_transactions
