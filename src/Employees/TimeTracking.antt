-- ===== src/Employees/TimeTracking.antt =====
-- employees/services.py: clocking in and out under a geofence, and breaks.
pub mod Geofence
pub mod Outcomes
pub mod Sessions
use food_tech_crm_backend.Prelude.{
  ℕ, ◌*◌, Option, none, some, ◌∷◌, Bool, true, false, not, ◌&&◌, ◌==◌, ◌==?◌, leb, is_some,
  any_where, first_where, if◌then◌else◌,
}
use food_tech_crm_backend.Prelude.Int.{ℤ}
use food_tech_crm_backend.Prelude.Table.{Table, lookup, insert, update}
use food_tech_crm_backend.Prelude.Exec.{
  Exec, Result, ok, err, pure, raise, gets, or_raise, atomic, raise_if, modify, when, ◌>>=◌, ◌>>◌,
}
use food_tech_crm_backend.Core.Db.{BusinessMembership}
use food_tech_crm_backend.Employees.Db.{
  GeofenceSetting, EntryStatus, clocked_in, clocked_out, TimeEntry, TimeEntryBreak, CheckType,
  LocationVerificationLog, Db, Error, already_clocked_in, no_open_time_entry, break_state_error,
  geofence_violation, does_not_exist, integrity_error, attribute_error, Service,
}

-- The distance of two points, each by its latitude and longitude, in hundredths of a metre.
abbrev pub Distance : Type 0
Distance = ℤ → ℤ → ℤ → ℤ → ℕ

pub record GeofenceCheckResult : Type 0 where
  pub setting : Option (ℕ × GeofenceSetting)
  pub distance_meters : Option ℕ
  pub within_geofence : Option Bool
  pub passed : Bool

abbrev pub at_location : ℕ → ℕ → ℕ × GeofenceSetting → Bool
at_location business location (_, s) =
    s.business == business && s.location ==? location && s.enabled

abbrev pub business_wide : ℕ → ℕ × GeofenceSetting → Bool
business_wide business (_, s) = s.business == business && not (is_some s.location) && s.enabled

unfoldable pub setting_for : ℕ → Option ℕ → Db → Option (ℕ × GeofenceSetting)
setting_for business none db = first_where (business_wide business) db.geofence_settings
setting_for business (some l) db =
    elim (first_where (at_location business l) db.geofence_settings) [
      | none ↦ first_where (business_wide business) db.geofence_settings
      | some s ↦ some s
    ]

unfoldable pub get_applicable_geofence : BusinessMembership → Db → Option (ℕ × GeofenceSetting)
get_applicable_geofence m db = setting_for m.business m.location db

abbrev pub unverified : ℕ × GeofenceSetting → GeofenceCheckResult
unverified setting = record {
  setting = some setting;
  distance_meters = none;
  within_geofence = some false;
  passed = false;
}

abbrev pub measured : ℕ × GeofenceSetting → ℕ → GeofenceCheckResult
measured setting distance =
    let within = leb distance (setting.1.radius_meters * 100) in
    record {
      setting = some setting;
      distance_meters = some distance;
      within_geofence = some within;
      passed = within;
    }

-- The verdict under a setting: no reported position is outside.
unfoldable pub check_against :
    Distance → ℕ × GeofenceSetting → Option ℤ → Option ℤ → GeofenceCheckResult
check_against distance (k, s) none lng = unverified (k, s)
check_against distance (k, s) (some lat) none = unverified (k, s)
check_against distance (k, s) (some lat) (some lng) =
    measured (k, s) (distance s.center_latitude s.center_longitude lat lng)

unfoldable pub verify_geofence :
    Distance → BusinessMembership → Option ℤ → Option ℤ → Db → GeofenceCheckResult
verify_geofence distance m lat lng db = elim (get_applicable_geofence m db) [
  | none ↦ record { setting = none; distance_meters = none; within_geofence = none; passed = true }
  | some setting ↦ check_against distance setting lat lng
]

abbrev pub pk_of : Option (ℕ × GeofenceSetting) → Option ℕ
pk_of none = none
pk_of (some (k, _)) = some k

abbrev pub log_check :
    ℕ → ℕ → CheckType → Option ℤ → Option ℤ → GeofenceCheckResult → Option ℕ → Db → Db
log_check id membership type lat lng result time_entry db =
    let log : LocationVerificationLog = record {
      membership = membership;
      time_entry = time_entry;
      geofence_setting = pk_of result.setting;
      check_type = type;
      reported_latitude = lat;
      reported_longitude = lng;
      distance_meters = result.distance_meters;
      within_geofence = result.within_geofence;
      passed = result.passed;
    } in
    record db { verification_logs = insert id log db.verification_logs }

-- `distance_meters if distance_meters is not None else 0`
abbrev pub distance_or_zero : Option ℕ → ℕ
distance_or_zero none = 0
distance_or_zero (some d) = d

abbrev pub violation : GeofenceCheckResult → Error
violation result = elim result.setting [
  | none ↦ attribute_error
  | some (_, s) ↦ geofence_violation (distance_or_zero result.distance_meters) s.radius_meters
]

abbrev pub is_clocked_in : TimeEntry → Bool
is_clocked_in e = elim e.status [ EntryStatus.clocked_in ↦ true | EntryStatus.clocked_out ↦ false ]

abbrev pub is_open_entry : ℕ → ℕ × TimeEntry → Bool
is_open_entry membership (_, e) = is_clocked_in e && e.membership == membership

-- The unique constraint `unique_open_time_entry_per_membership`.
abbrev pub violates_open_entry : ℕ → ℕ × TimeEntry → Bool
violates_open_entry membership (_, e) = not (is_some e.clock_out_at) && e.membership == membership

abbrev pub new_entry : ℕ → ℕ → Option ℤ → Option ℤ → GeofenceCheckResult → TimeEntry
new_entry now membership lat lng result = record {
  membership = membership;
  clock_in_at = now;
  clock_out_at = none;
  status = clocked_in;
  clock_in_lat = lat;
  clock_in_lng = lng;
  clock_out_lat = none;
  clock_out_lng = none;
  clock_in_distance_meters = result.distance_meters;
  clock_out_distance_meters = none;
  clock_in_within_geofence = result.within_geofence;
  clock_out_within_geofence = none;
  auto_closed_on_deactivation = false;
}

-- What a call is given from outside: the distance, the clock, and the keys of the new rows.
pub record Outside : Type 0 where
  pub distance : Distance
  pub now : ℕ
  pub log_id : ℕ
  pub id : ℕ

abbrev pub link_log : ℕ → ℕ → Db → Db
link_log log_id id db = record db {
  verification_logs = update log_id (λ l. record l { time_entry = some id }) db.verification_logs;
}

abbrev pub store_entry : ℕ → TimeEntry → Db → Db
store_entry id entry db = record db { time_entries = insert id entry db.time_entries }

-- The entry of a check that passed, and the log's link to it.
abbrev pub open_entry : Outside → ℕ → TimeEntry → Service (Unit {0})
open_entry outside membership entry = do
  raise_if (← gets (λ db. any_where (violates_open_entry membership) db.time_entries))
      integrity_error
  modify (store_entry outside.id entry)
  modify (link_log outside.log_id outside.id)

-- The raise stands outside the block, so that the log of a rejection is kept.
unfoldable pub clock_in : Outside → ℕ → Option ℤ → Option ℤ → Service TimeEntry
clock_in outside pk lat lng = do
  result ← atomic (do
    locked ← or_raise (← gets (λ db. lookup pk db.memberships)) does_not_exist
    raise_if (← gets (λ db. any_where (is_open_entry pk) db.time_entries)) already_clocked_in
    result ← gets (verify_geofence outside.distance locked lat lng)
    modify (log_check outside.log_id pk CheckType.clock_in lat lng result none)
    when result.passed (open_entry outside pk (new_entry outside.now pk lat lng result))
    pure result)
  raise_if (not result.passed) (violation result)
  pure (new_entry outside.now pk lat lng result)

abbrev pub closed_entry : ℕ → Option ℤ → Option ℤ → GeofenceCheckResult → TimeEntry → TimeEntry
closed_entry now lat lng result e = record e {
  clock_out_at = some now;
  status = clocked_out;
  clock_out_lat = lat;
  clock_out_lng = lng;
  clock_out_distance_meters = result.distance_meters;
  clock_out_within_geofence = result.within_geofence;
}

abbrev pub close_entry : ℕ → ℕ → Option ℤ → Option ℤ → GeofenceCheckResult → Db → Db
close_entry now id lat lng result db = record db {
  time_entries = update id (closed_entry now lat lng result) db.time_entries;
}

-- The membership is given with its row, which the call does not read again.
unfoldable pub clock_out :
    Outside → ℕ × BusinessMembership → Option ℤ → Option ℤ → Service TimeEntry
clock_out outside (pk, m) lat lng = do
  (entry, result) ← atomic (do
    (id, entry) ←
        or_raise (← gets (λ db. first_where (is_open_entry pk) db.time_entries)) no_open_time_entry
    result ← gets (verify_geofence outside.distance m lat lng)
    modify (log_check outside.log_id pk CheckType.clock_out lat lng result (some id))
    when result.passed (modify (close_entry outside.now id lat lng result))
    pure (entry, result))
  raise_if (not result.passed) (violation result)
  pure (closed_entry outside.now lat lng result entry)

abbrev pub is_open : TimeEntryBreak → Bool
is_open b = not (is_some b.break_end_at)

abbrev pub is_open_break : ℕ → ℕ × TimeEntryBreak → Bool
is_open_break entry (_, b) = is_open b && b.time_entry == entry

abbrev pub store_break : ℕ → TimeEntryBreak → Db → Db
store_break id b db = record db { breaks = insert id b db.breaks }

-- The unique constraint on open breaks is the test that stands before.
unfoldable pub start_break : ℕ → ℕ → ℕ → Service TimeEntryBreak
start_break now new_id pk = atomic (do
  (id, entry) ←
      or_raise (← gets (λ db. first_where (is_open_entry pk) db.time_entries)) no_open_time_entry
  raise_if (← gets (λ db. any_where (is_open_break id) db.breaks)) break_state_error
  let b : TimeEntryBreak = record {
    time_entry = id;
    break_start_at = now;
    break_end_at = none;
    auto_closed_on_deactivation = false;
  }
  modify (store_break new_id b)
  pure b)

abbrev pub ended : ℕ → TimeEntryBreak → TimeEntryBreak
ended now b = record b { break_end_at = some now }

unfoldable pub end_break : ℕ → ℕ → Service TimeEntryBreak
end_break now pk = atomic (do
  (id, entry) ←
      or_raise (← gets (λ db. first_where (is_open_entry pk) db.time_entries)) no_open_time_entry
  (j, b) ← or_raise (← gets (λ db. first_where (is_open_break id) db.breaks)) break_state_error
  modify (λ db. record db { breaks = update j (ended now) db.breaks })
  pure (ended now b))
