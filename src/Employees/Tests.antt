-- ===== src/Employees/Tests.antt =====
-- A day of one membership: clocking in and out under a geofence, a break, a swap, a deactivation, a pay
-- stub, and a recurring schedule.
use food_tech_crm_backend.Prelude.{
  ℕ, ◌*◌, ◌+◌, ◌/◌, none, some, [], ◌∷◌, ◌≡◌, refl, true, false, arith, any_where, ◌==◌, ◌==?◌,
  ◌&&◌,
}
use food_tech_crm_backend.Prelude.Int.{pos, ◌+ℤ◌, ◌-ℤ◌, ◌*ℤ◌}
use food_tech_crm_backend.Prelude.Exec.{ok, err}
use food_tech_crm_backend.Employees.OpenRows.{IsConsistent}
use food_tech_crm_backend.Prelude.Table.{lookup}
use food_tech_crm_backend.Core.Db.{Business, SubscriptionStatus, BusinessMembership, Role}
use food_tech_crm_backend.Core.Recurrence.{Rule, next_weekday_on_or_after}
use food_tech_crm_backend.Employees.Db.{
  GeofenceSetting, EntryStatus, TimeEntry, TimeEntryBreak, EmployeeShift, ShiftStatus,
  RequestStatus, CheckType, LocationVerificationLog, Position, PayStub, ShiftSwapRequest,
  ShiftTemplate, RecurringSchedule, Db, Error,
}
use food_tech_crm_backend.Employees.TimeTracking.{
  Outside, GeofenceCheckResult, clock_in, clock_out, start_break, end_break, verify_geofence,
  check_against, is_open_entry, is_open_break, setting_for, get_applicable_geofence, new_entry,
  closed_entry,
}
use food_tech_crm_backend.Employees.TimeTracking.Sessions.{
  clock_in-stored, clock_out-clock_in, clock_out_leaves_break,
}
use food_tech_crm_backend.Employees.TimeTracking.Geofence.{IsVerdict, verify_geofence-IsVerdict}
use food_tech_crm_backend.Employees.Requests.Outcomes.{
  target_of, target_business, approve_shift_swap-approved,
}
use food_tech_crm_backend.Employees.Requests.{approve_shift_swap, approved_swap}
use food_tech_crm_backend.Employees.Deactivation.{save_membership}
use food_tech_crm_backend.Employees.History.{
  Reach, here, next, clocks_in, starts_break, clocks_out, saves_membership, Reach-IsConsistent,
}
use food_tech_crm_backend.Employees.History.Decided.{Reach-decided}
use food_tech_crm_backend.Employees.Payroll.{
  worked_seconds_by_iso_week, generate_pay_stub, new_stub, split_week, quantize, overtime_rate_of,
  gross_pay_of, tax_of,
}
use food_tech_crm_backend.Employees.Payroll.Hours.{SumsTo, worked_seconds_total}
use food_tech_crm_backend.Employees.Payroll.Pay.{Pays, generate_pay_stub-Pays}
use food_tech_crm_backend.Employees.Scheduling.{
  schedule_dates, active_schedules, expand_active_recurring_schedules,
}
use food_tech_crm_backend.Employees.Scheduling as Scheduling
use food_tech_crm_backend.Employees.Scheduling.Expansion.{
  expand_active_recurring_schedules-twice, expand_active_recurring_schedules_complete,
}

abbrev cafe : Business
cafe = record {
  is_active = true;
  is_legacy = false;
  trial_ends_at = none;
  trial_expired = false;
  subscription_status = SubscriptionStatus.active;
  stripe_customer_id = none;
  stripe_subscription_id = none;
}

abbrev ada : BusinessMembership
ada = record { business = 1; user = 1; role = Role.staff; location = some 3; is_active = true }

abbrev ben : BusinessMembership
ben = record { business = 1; user = 2; role = Role.staff; location = none; is_active = true }

abbrev door : GeofenceSetting
door = record {
  business = 1;
  location = some 3;
  center_latitude = pos 45000000;
  center_longitude = pos 73000000;
  radius_meters = 50;
  enabled = true;
}

abbrev shift : EmployeeShift
shift = record {
  membership = 10;
  position = 5;
  recurring_schedule = none;
  start_at = 100;
  end_at = 200;
  status = ShiftStatus.scheduled;
}

abbrev swap : RequestStatus → ShiftSwapRequest
swap status = record {
  shift = 50;
  requesting_membership = 10;
  target_membership = some 11;
  status = status;
  approved_by = none;
}

abbrev template : ShiftTemplate
template = record { position = 5; day_of_week = 2; start_time = 32400; end_time = 50400 }

abbrev schedule : RecurringSchedule
schedule = record {
  membership = 10;
  shift_template = 60;
  recurrence_rule = Rule.weekly;
  start_date = 700;
  end_date = none;
  is_active = true;
}

abbrev start : RequestStatus → Db
start status = record {
  businesses = (1, cafe) ∷ [];
  memberships = (11, ben) ∷ (10, ada) ∷ [];
  geofence_settings = (20, door) ∷ [];
  time_entries = [];
  breaks = [];
  verification_logs = [];
  shift_templates = (60, template) ∷ [];
  recurring_schedules = (61, schedule) ∷ [];
  shifts = (50, shift) ∷ [];
  shift_swap_requests = (70, swap status) ∷ [];
  time_off_requests = [];
  pay_stubs = [];
}

-- Forty metres from everywhere.
abbrev near : ℕ → ℕ → ℕ → Outside
near now log_id id = record { distance = λ _ _ _ _. 4000; now = now; log_id = log_id; id = id }

abbrev at_work : Db
at_work =
    (clock_in (near 1000 80 90) 10 (some (pos 0)) (some (pos 0)) (start RequestStatus.pending)).1

abbrev on_break : Db
on_break = (start_break 2000 91 10 at_work).1

abbrev gone : Db
gone = (clock_out (near 3000 81 0) (10, ada) (some (pos 0)) (some (pos 0)) on_break).1

abbrev day : Reach (start RequestStatus.pending) gone
day =
    next
      (next (next here (clocks_in (near 1000 80 90) 10 (some (pos 0)) (some (pos 0))))
        (starts_break 2000 91 10))
      (clocks_out (near 3000 81 0) 10 ada (some (pos 0)) (some (pos 0)))

Reach-IsConsistent_example : IsConsistent gone
Reach-IsConsistent_example = Reach-IsConsistent ((tt, tt), tt, (refl, tt)) day

abbrev left : Db
left = save_membership 4000 11 (record ben { is_active = false }) (start RequestStatus.rejected)

Reach-decided_example : lookup 70 left.shift_swap_requests ≡ some (swap RequestStatus.rejected)
Reach-decided_example =
    Reach-decided 70 (swap RequestStatus.rejected) refl refl
      (next here (saves_membership 4000 11 (record ben { is_active = false })))

abbrev inside : GeofenceCheckResult
inside = record {
  setting = some (20, door);
  distance_meters = some 4000;
  within_geofence = some true;
  passed = true;
}

abbrev first_entry : TimeEntry
first_entry = new_entry 1000 10 (some (pos 0)) (some (pos 0)) inside

abbrev first_log : LocationVerificationLog
first_log = record {
  membership = 10;
  time_entry = some 90;
  geofence_setting = some 20;
  check_type = CheckType.clock_in;
  reported_latitude = some (pos 0);
  reported_longitude = some (pos 0);
  distance_meters = some 4000;
  within_geofence = some true;
  passed = true;
}

clock_in-stored_example :
    let called =
      clock_in (near 1000 80 90) 10 (some (pos 0)) (some (pos 0)) (start RequestStatus.pending) in
    (called.0 ≡ ok first_entry)
    × (called.1.time_entries ≡ (90, first_entry) ∷ [])
    × (lookup 80 called.1.verification_logs ≡ some first_log)
unfolding verify_geofence get_applicable_geofence setting_for check_against
clock_in-stored_example =
    clock_in-stored (near 1000 80 90) 10 (some (pos 0)) (some (pos 0)) ada
      (start RequestStatus.pending) ((tt, tt), tt, (refl, tt)) refl refl

abbrev closed : TimeEntry
closed = closed_entry 3000 (some (pos 0)) (some (pos 0)) inside first_entry

clock_out-clock_in_example :
    let called = clock_out (near 3000 81 0) (10, ada) (some (pos 0)) (some (pos 0)) at_work in
    (called.0 ≡ ok closed)
    × (lookup 90 called.1.time_entries ≡ some closed)
    × (any_where (is_open_entry 10) called.1.time_entries ≡ false)
unfolding verify_geofence get_applicable_geofence setting_for check_against
clock_out-clock_in_example =
    clock_out-clock_in (near 1000 80 90) 10 (some (pos 0)) (some (pos 0)) ada (near 3000 81 0)
      (some (pos 0)) (some (pos 0)) (start RequestStatus.pending) ((tt, tt), tt, (refl, tt)) refl
      refl refl refl

abbrev a_break : TimeEntryBreak
a_break = record {
  time_entry = 90;
  break_start_at = 2000;
  break_end_at = none;
  auto_closed_on_deactivation = false;
}

abbrev mid_break : Db
mid_break = record (start RequestStatus.pending) {
  time_entries = (90, first_entry) ∷ [];
  breaks = (91, a_break) ∷ [];
}

abbrev after_out : Db
after_out = (clock_out (near 3000 81 0) (10, ada) (some (pos 0)) (some (pos 0)) mid_break).1

clock_out_leaves_break_example :
    (any_where (is_open_entry 10) after_out.time_entries ≡ false)
    × (any_where (is_open_break 90) after_out.breaks ≡ true)
    × (lookup 91 after_out.breaks ≡ some a_break)
    × (after_out.breaks ≡ mid_break.breaks)
    × (end_break 3500 10 after_out ≡ (err Error.no_open_time_entry, after_out))
unfolding verify_geofence get_applicable_geofence setting_for check_against
clock_out_leaves_break_example =
    clock_out_leaves_break (near 3000 81 0) 10 ada (some (pos 0)) (some (pos 0)) 90 first_entry 91
      a_break 3500 mid_break (((refl, tt), (refl, tt)), (refl, tt), (refl, tt)) refl refl refl refl
      refl

verify_geofence-IsVerdict_example :
    IsVerdict
      (near 1 2 3).distance
      ada
      (some (pos 0))
      none
      (start RequestStatus.pending)
      false
      (some (20, door))
unfolding verify_geofence check_against get_applicable_geofence setting_for
verify_geofence-IsVerdict_example =
    verify_geofence-IsVerdict (near 1 2 3).distance ada (some (pos 0)) none
      (start RequestStatus.pending)

-- Approved for a membership that is not the request's own target.
abbrev swapped : Db
swapped = (approve_shift_swap 70 12 (some (13, ben)) (start RequestStatus.pending)).1

approve_shift_swap-approved_example :
    (t : ℕ) × (RequestStatus.pending ≡ RequestStatus.pending)
    × (target_of (some (13, ben)) (some 11) ≡ some t)
    × (target_business (some (13, ben)) t (start RequestStatus.pending) ≡ some 1)
    × (lookup 50 swapped.shifts ≡ some (record shift { membership = t }))
    × (lookup 70 swapped.shift_swap_requests
        ≡ some (record (swap RequestStatus.pending) {
          status = RequestStatus.approved;
          target_membership = some t;
          approved_by = some 12;
        }))
unfolding approve_shift_swap
approve_shift_swap-approved_example =
    approve_shift_swap-approved 70 12 (some (13, ben)) (swap RequestStatus.pending) ada shift
      (start RequestStatus.pending) swapped (approved_swap 13 12 (swap RequestStatus.pending)) refl
      refl refl refl

-- An entry of 42 hours in one week, with a break of one hour that was ended.
abbrev worked : Db
worked = record (start RequestStatus.pending) {
  time_entries =
      (90, record first_entry { clock_out_at = some 155800; status = EntryStatus.clocked_out })
      ∷ [];
  breaks = (91, record a_break { break_end_at = some 5600 }) ∷ [];
}

worked_seconds_total_example :
    SumsTo (pos 151200) (worked_seconds_by_iso_week (λ t. t / 86400) 10 0 7 worked)
unfolding ◌-ℤ◌ ◌+ℤ◌
worked_seconds_total_example = worked_seconds_total (λ t. t / 86400) 10 0 7 worked (refl, tt)

abbrev cook : Position
cook = record { business = 1; hourly_rate = pos 1650; is_active = true }

-- A 42-hour week: 40 hours and two of overtime.
abbrev paid : Db
paid = (generate_pay_stub 95 (λ t. t / 86400) none 10 (5, cook) 0 7 worked).1

abbrev the_stub : PayStub
the_stub = record {
  membership = 10;
  position = 5;
  pay_period_start = 0;
  pay_period_end = 7;
  regular_hours = pos 4000;
  overtime_hours = pos 200;
  gross_pay = pos 70950;
  net_pay = pos 60308;
  overtime_rate = pos 2475;
  tax_amount = pos 10642;
  weekly_breakdown =
      record {
        iso_week = 0;
        worked_hours = pos 4200;
        regular_hours = pos 4000;
        overtime_hours = pos 200;
      }
      ∷ [];
}

stub_generated :
    generate_pay_stub 95 (λ t. t / 86400) none 10 (5, cook) 0 7 worked ≡ (ok the_stub, paid)
unfolding generate_pay_stub worked_seconds_by_iso_week new_stub split_week quantize gross_pay_of
    tax_of overtime_rate_of ◌+ℤ◌ ◌-ℤ◌ ◌*ℤ◌
stub_generated = refl

generate_pay_stub-Pays_example :
    (lookup 95 paid.pay_stubs ≡ some the_stub) × Pays (pos 1650) the_stub
generate_pay_stub-Pays_example =
    generate_pay_stub-Pays 95 (λ t. t / 86400) none 10 5 cook 0 7 worked paid the_stub
      stub_generated (omega arith) (omega arith) (omega arith)

abbrev plan : Scheduling.Outside
plan = record { make_aware = λ d t. d * 86400 + t; id = λ s d. s * 1000 + d }

abbrev planned : Db
planned = (expand_active_recurring_schedules plan 700 28 (start RequestStatus.pending)).1

expand_active_recurring_schedules-twice_example :
    expand_active_recurring_schedules plan 700 28 planned ≡ (0, planned)
expand_active_recurring_schedules-twice_example =
    expand_active_recurring_schedules-twice plan 700 28 (start RequestStatus.pending)

-- The ordinal 703 is a Wednesday (2).
expand_active_recurring_schedules_complete_example :
    any_where
      (λ (_, x). x.recurring_schedule ==? 61 && x.start_at == 703 * 86400 + 32400)
      planned.shifts
    ≡ true
unfolding next_weekday_on_or_after
expand_active_recurring_schedules_complete_example =
    expand_active_recurring_schedules_complete plan 700 28 61 703 schedule template ada cafe
      (start RequestStatus.pending) refl refl refl refl refl refl (omega arith) (omega arith)
      (omega arith) refl refl
