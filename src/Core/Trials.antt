-- ===== src/Core/Trials.antt =====
-- core/tasks.py: the daily check of the trials.
pub mod Status
use food_tech_crm_backend.Prelude.{
  ℕ, Option, none, some, ◌≡◌, arith, refl, ap, ◌∙◌, Bool, true, false, not, ◌&&◌, ◌||◌, ltb,
  if◌then◌else◌,
}
use food_tech_crm_backend.Prelude.Table.{Table, lookup, update_all, map_row, lookup-update_all}
use food_tech_crm_backend.Core.Db.{
  SubscriptionStatus, active, trialing, past_due, canceled, Business,
}

-- ACTIVE_SUBSCRIPTION_STATUSES
abbrev pub is_subscribed : SubscriptionStatus → Bool
is_subscribed active = true
is_subscribed trialing = true
is_subscribed _ = false

abbrev pub has_subscription : Business → Bool
has_subscription b = is_subscribed b.subscription_status

abbrev pub is_past : ℕ → Option ℕ → Bool
is_past now none = false
is_past now (some t) = ltb t now

-- The three queries.
abbrev pub expires : ℕ → Business → Bool
expires now b = not b.trial_expired && is_past now b.trial_ends_at && not (has_subscription b)

abbrev pub returns : Business → Bool
returns b = has_subscription b && not b.is_active

abbrev pub lapses : Business → Bool
lapses b = not b.is_legacy && b.trial_expired && b.is_active && not (has_subscription b)

abbrev pub expired : Business → Business
expired b = record b { trial_expired = true; is_active = false }

abbrev pub activated : Business → Business
activated b = record b { is_active = true }

abbrev pub deactivated : Business → Business
deactivated b = record b { is_active = false }

unfoldable pub check_expired_trials : ℕ → Table Business → Table Business
check_expired_trials now t =
    update_all lapses deactivated
      (update_all returns activated (update_all (expires now) expired t))

-- The task on one row.
abbrev checked : ℕ → Business → Business
checked now b =
    let b₁ = if expires now b then expired b else b in
    let b₂ = if returns b₁ then activated b₁ else b₁ in if lapses b₂ then deactivated b₂ else b₂
