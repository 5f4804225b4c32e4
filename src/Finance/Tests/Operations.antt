-- ===== src/Finance/Tests/Operations.antt =====
-- Recurring invoices, an aging report, and a Stripe event that is delivered twice.
use food_tech_crm_backend.Prelude.{◌+◌, ◌*◌, none, some, List, [], ◌∷◌, ◌≡◌, refl, true, false}
use food_tech_crm_backend.Prelude.Int.{pos, sum_where}
use food_tech_crm_backend.Prelude.Table.{Table}
use food_tech_crm_backend.Core.Db.{Business, SubscriptionStatus}
use food_tech_crm_backend.Core.Recurrence.{Rule}
use food_tech_crm_backend.Finance.Tax.{TaxType, DiscountType}
use food_tech_crm_backend.Finance.Db.{Db}
use food_tech_crm_backend.Finance.Recurring.{
  Kind, RecurringTransaction, expand_active_recurring_transactions,
}
use food_tech_crm_backend.Finance.Recurring.Expansion.{expand_active_recurring_transactions-twice}
use food_tech_crm_backend.Finance.Reports.{Row, aging_report, grand_total}
use food_tech_crm_backend.Finance.Reports.Aging.{aging_report_total, is_counted, balance_of}
use food_tech_crm_backend.Finance.Webhooks.{
  EventObject, Event, process, handle, handle_invoice_paid, post,
}
use food_tech_crm_backend.Finance.Webhooks.{Db as WebhookDb}
use food_tech_crm_backend.Finance.Webhooks.Delivery.{deliver, deliver_again}
use food_tech_crm_backend.Finance.Tests.Samples.{line, empty_db}

abbrev rent : RecurringTransaction
rent = record {
  business = 1;
  kind = Kind.invoice;
  customer = some 2;
  vendor = none;
  line_item_presets = line ∷ [];
  discount_type = DiscountType.none;
  discount_value = pos 0;
  tax_type = TaxType.zero;
  notes = "";
  due_in_days = 30;
  recurrence_rule = Rule.biweekly;
  start_date = 700;
  end_date = none;
  is_active = true;
}

abbrev rows : Table RecurringTransaction
rows = (5, rent) ∷ (6, record rent { customer = none }) ∷ []

abbrev expanded : Db
expanded =
    (expand_active_recurring_transactions (λ r d. r * 1000 + d) (λ _. true) rows 700 28 empty_db).1

expand_active_recurring_transactions-twice_example :
    expand_active_recurring_transactions (λ r d. r * 1000 + d) (λ _. true) rows 700 28 expanded
    ≡ (0, expanded)
expand_active_recurring_transactions-twice_example =
    expand_active_recurring_transactions-twice (λ r d. r * 1000 + d) (λ _. true) rows 700 28
      empty_db

abbrev owed : List Row
owed =
    record { pk = 1; due_date = some 90; total = pos 1000; paid_total = pos 400 }
    ∷ record { pk = 2; due_date = some 10; total = pos 500; paid_total = pos 500 }
    ∷ record { pk = 3; due_date = none; total = pos 700; paid_total = pos 0 }
    ∷ []

aging_report_total_example :
    grand_total (aging_report 100 owed) ≡ sum_where is_counted balance_of owed
aging_report_total_example = aging_report_total 100 owed

abbrev lapsed : Business
lapsed = record {
  is_active = false;
  is_legacy = false;
  trial_ends_at = none;
  trial_expired = true;
  subscription_status = SubscriptionStatus.past_due;
  stripe_customer_id = some 77;
  stripe_subscription_id = some 88;
}

abbrev db : WebhookDb
db = record { businesses = (1, lapsed) ∷ []; stripe_events = [] }

abbrev paid : Event
paid = record { id = 9; object = EventObject.invoice_paid (some 77) }

abbrev deleted : Event
deleted = record { id = 10; object = EventObject.subscription_deleted (some 88) }

abbrev broken : Event
broken = record { id = 11; object = EventObject.subscription_deleted none }

abbrev later : WebhookDb
later = deliver (some deleted ∷ none ∷ some broken ∷ []) (post (some paid) db).1

deliver_again_example : post (some paid) later ≡ (200, later)
unfolding post process handle handle_invoice_paid
deliver_again_example = deliver_again paid (some deleted ∷ none ∷ some broken ∷ []) db refl
