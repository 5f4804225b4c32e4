-- ===== src/Core/Db.antt =====
-- core/models.py: the tenants and who belongs to them. Names, addresses and the audit columns are
-- left out; a time is a number, and so is an id of Stripe's, which is `none` where the column is empty.
use food_tech_crm_backend.Prelude.{ℕ, String, Option, Bool}

-- The strings of Stripe that the code tests for, and any other one.
pub data SubscriptionStatus : Type 0 where
  active trialing past_due canceled : SubscriptionStatus
  other : String → SubscriptionStatus

pub record Business : Type 0 where
  pub is_active : Bool
  pub is_legacy : Bool
  pub trial_ends_at : Option ℕ
  pub trial_expired : Bool
  pub subscription_status : SubscriptionStatus
  pub stripe_customer_id : Option ℕ
  pub stripe_subscription_id : Option ℕ

pub data Role : Type 0 where
  owner manager staff : Role

pub record BusinessMembership : Type 0 where
  pub business : ℕ
  pub user : ℕ
  pub role : Role
  pub location : Option ℕ
  pub is_active : Bool
