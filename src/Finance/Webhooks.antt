-- ===== src/Finance/Webhooks.antt =====
-- finance/webhooks.py: the Stripe webhook, which keeps each event once and changes the business that
-- it is about.
pub mod Delivery
use food_tech_crm_backend.Prelude.{
  ℕ, Option, none, some, List, [], ◌∷◌, Bool, true, false, not, ◌&&◌, ◌==◌, ◌==?◌, any_where,
  first_where, if◌then◌else◌,
}
use food_tech_crm_backend.Prelude.Table.{Table, lookup, update}
use food_tech_crm_backend.Prelude.Exec.{
  Exec, Result, ok, err, pure, raise, gets, or_raise, atomic, raise_if, modify, ◌>>=◌, ◌>>◌,
}
use food_tech_crm_backend.Core.Db.{SubscriptionStatus, active, past_due, canceled, Business}

-- The objects of the events that are handled; a key that may be missing is an Option, and so is a
-- `client_reference_id`, which is `none` where it is no UUID.
pub data EventObject : Type 0 where
  checkout_completed : Option ℕ → Option ℕ → Option ℕ → EventObject
  subscription_updated : Option ℕ → Option SubscriptionStatus → EventObject
  subscription_deleted : Option ℕ → EventObject
  invoice_paid : Option ℕ → EventObject
  unhandled : EventObject

pub record Event : Type 0 where
  pub id : ℕ
  pub object : EventObject

-- `stripe_events` has the ids of the rows of StripeWebhookEvent. Businesses stand the newest first.
pub record Db : Type 0 where
  pub businesses : Table Business
  pub stripe_events : List ℕ

pub data Error : Type 0 where
  key_error : Error

abbrev pub Service : Type 0 → Type 0
Service = Exec Db Error

-- `session.get(key, "") or old`
abbrev pub given_or : Option ℕ → Option ℕ → Option ℕ
given_or none old = old
given_or (some new) old = some new

abbrev pub save_business : ℕ → (Business → Business) → Db → Db
save_business pk f db = record db { businesses = update pk f db.businesses }

-- The first business that the test finds, changed; the code logs where there is none.
abbrev pub change_first : (ℕ × Business → Bool) → (Business → Business) → Db → Db
change_first p f db = elim (first_where p db.businesses) [
  | none ↦ db
  | some (pk, _) ↦ save_business pk f db
]

abbrev pub checked_out : Option ℕ → Option ℕ → Business → Business
checked_out customer subscription b = record b {
  stripe_customer_id = given_or customer b.stripe_customer_id;
  stripe_subscription_id = given_or subscription b.stripe_subscription_id;
  subscription_status = active;
  is_active = true;
}

unfoldable pub handle_checkout_completed : Option ℕ → Option ℕ → Option ℕ → Service (Unit {0})
handle_checkout_completed reference customer subscription = elim reference [
  | none ↦ pure tt
  | some id ↦ modify (change_first (λ (k, _). k == id) (checked_out customer subscription))
]

abbrev pub has_subscription_id : ℕ → ℕ × Business → Bool
has_subscription_id id (_, b) = b.stripe_subscription_id ==? id

abbrev pub with_status : Option SubscriptionStatus → Business → Business
with_status none b = b
with_status (some s) b = record b { subscription_status = s }

-- `subscription["id"]` raises KeyError where the key is missing.
unfoldable pub handle_subscription_updated :
    Option ℕ → Option SubscriptionStatus → Service (Unit {0})
handle_subscription_updated subscription status = do
  id ← or_raise subscription key_error
  modify (change_first (has_subscription_id id) (with_status status))

abbrev pub cancelled_business : Business → Business
cancelled_business b = record b {
  subscription_status = canceled;
  is_active = if b.is_legacy then b.is_active else false;
}

unfoldable pub handle_subscription_deleted : Option ℕ → Service (Unit {0})
handle_subscription_deleted subscription = do
  id ← or_raise subscription key_error
  modify (change_first (has_subscription_id id) cancelled_business)

abbrev pub has_customer_id : ℕ → ℕ × Business → Bool
has_customer_id id (_, b) = b.stripe_customer_id ==? id

abbrev pub caught_up : SubscriptionStatus → SubscriptionStatus
caught_up past_due = active
caught_up s = s

abbrev pub paid_business : Business → Business
paid_business b = record b {
  is_active = true;
  subscription_status = caught_up b.subscription_status;
}

-- No business has a null customer id.
unfoldable pub handle_invoice_paid : Option ℕ → Service (Unit {0})
handle_invoice_paid customer = elim customer [
  | none ↦ pure tt
  | some id ↦ modify (change_first (has_customer_id id) paid_business)
]

-- EVENT_HANDLERS
unfoldable pub handle : EventObject → Service (Unit {0})
handle (checkout_completed r c s) = handle_checkout_completed r c s
handle (subscription_updated s status) = handle_subscription_updated s status
handle (subscription_deleted s) = handle_subscription_deleted s
handle (invoice_paid c) = handle_invoice_paid c
handle unhandled = pure tt

-- Whether the event was new; the insert of an event that is there fails and ends the block.
abbrev pub record_event : ℕ → Db → Db
record_event id db = record db { stripe_events = id ∷ db.stripe_events }

abbrev pub is_event : ℕ → ℕ → Bool
is_event id e = e == id

unfoldable pub process : Event → Service (Unit {0})
process event = atomic (do modify (record_event event.id); handle event.object)

abbrev pub respond : Result Error (Unit {0}) × Db → ℕ × Db
respond (ok _, db) = (200, db)
respond (err _, db) = (500, db)

-- The status of the response. `event` is what `stripe.Webhook.construct_event` makes of the payload:
-- `none` where it is malformed or its signature does not match.
unfoldable pub post : Option Event → Db → ℕ × Db
post none db = (400, db)
post (some event) db =
    if any_where (is_event event.id) db.stripe_events then (200, db) else respond (process event db)
