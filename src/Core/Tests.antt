-- ===== src/Core/Tests.antt =====
-- Dates of a biweekly rule, a day on which trials end, and who is let in after it.
use food_tech_crm_backend.Prelude.{inl, none, some, false, [], ◌∷◌, ◌≡◌, refl, true, ◌<◌, arith}
use food_tech_crm_backend.Prelude.Table.{Table}
use food_tech_crm_backend.Core.Db.{Business, SubscriptionStatus, Role, BusinessMembership}
use food_tech_crm_backend.Core.Permissions.{
  User, Db, get_membership, business_is_active, has_permission, has_object_permission,
}
use food_tech_crm_backend.Core.Permissions.Access.{
  IsGranted, has_permission-IsGranted, lapsed_refused,
}
use food_tech_crm_backend.Core.Trials.{check_expired_trials}
use food_tech_crm_backend.Core.Trials.Status.{is_settled, check_expired_trials-settled}
use food_tech_crm_backend.Core.Recurrence.{
  Rule, next_weekday_on_or_after, first_occurrence, dates_from, occurrence_dates,
}
use food_tech_crm_backend.Core.Recurrence.Dates.{has_date, occurrence_dates_lem}

-- The rule starts on a Thursday (4) for Mondays: 8, 22, 36, 50.
mondays : occurrence_dates Rule.biweekly 4 none 0 20 50 ≡ 22 ∷ 36 ∷ 50 ∷ []
unfolding occurrence_dates first_occurrence dates_from next_weekday_on_or_after
mondays = refl

occurrence_dates_lem_example : has_date 36 (occurrence_dates Rule.biweekly 4 none 0 20 50) ≡ true
unfolding next_weekday_on_or_after
occurrence_dates_lem_example = occurrence_dates_lem Rule.biweekly 4 none 0 20 50 36

below_seven : 2 < 7
below_seven = omega arith

abbrev grandfathered : Business
grandfathered = record {
  is_active = true;
  is_legacy = true;
  trial_ends_at = some 100;
  trial_expired = false;
  subscription_status = SubscriptionStatus.other "";
  stripe_customer_id = none;
  stripe_subscription_id = none;
}

abbrev on_trial : Business
on_trial = record grandfathered { is_legacy = false }

abbrev businesses : Table Business
businesses = (1, grandfathered) ∷ (2, on_trial) ∷ []

abbrev lapsed : Business
lapsed = record on_trial { is_active = false; trial_expired = true }

check_expired_trials-settled_example : is_settled 200 lapsed ≡ true
unfolding check_expired_trials
check_expired_trials-settled_example = check_expired_trials-settled 200 2 lapsed businesses refl

abbrev ada : User
ada = record { id = 5; is_authenticated = true; is_superadmin = false }

abbrev manages : BusinessMembership
manages = record { business = 2; user = 5; role = Role.manager; location = none; is_active = true }

abbrev db : Db
db = record { businesses = businesses; memberships = (30, manages) ∷ [] }

has_permission-IsGranted_example : IsGranted Role.staff 5 2 db
unfolding has_permission get_membership business_is_active
has_permission-IsGranted_example = has_permission-IsGranted Role.staff ada 2 db refl (inl refl)

lapsed_refused_example :
    (has_permission Role.staff ada
        (some 2)
        (record db { businesses = check_expired_trials 200 businesses })
      ≡ false)
    × (has_object_permission Role.staff ada
          (some 2)
          (record db { businesses = check_expired_trials 200 businesses })
        ≡ false)
unfolding check_expired_trials
lapsed_refused_example = lapsed_refused 200 Role.staff ada 2 lapsed db refl refl refl refl refl
