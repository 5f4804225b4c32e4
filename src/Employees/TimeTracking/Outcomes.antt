-- ===== src/Employees/TimeTracking/Outcomes.antt =====
-- What clocking in and out and the breaks do on every branch.
use food_tech_crm_backend.Prelude.{
  ℕ, Option, none, some, ◌≡◌, arith, false, any_where, first_where, if◌then◌else◌,
}
use food_tech_crm_backend.Prelude.Int.{ℤ}
use food_tech_crm_backend.Prelude.Table.{lookup, update}
use food_tech_crm_backend.Prelude.Exec.{ok, err}
use food_tech_crm_backend.Core.Db.{BusinessMembership}
use food_tech_crm_backend.Employees.Db.{
  TimeEntryBreak, CheckType, Db, already_clocked_in, no_open_time_entry, break_state_error,
  does_not_exist, integrity_error,
}
use food_tech_crm_backend.Employees.TimeTracking.{
  Outside, GeofenceCheckResult, verify_geofence, log_check, violation, is_open_entry,
  violates_open_entry, new_entry, link_log, store_entry, clock_in, closed_entry, close_entry,
  clock_out, is_open_break, store_break, start_break, ended, end_break,
}

-- The state after the check of a call was logged.
abbrev pub logged :
    Outside → ℕ → CheckType → Option ℤ → Option ℤ → GeofenceCheckResult → Option ℕ → Db → Db
logged outside pk type lat lng result entry db =
    log_check outside.log_id pk type lat lng result entry db

pub clock_in_branches :
    (outside : Outside) (pk : ℕ) (lat lng : Option ℤ) (m : BusinessMembership) (db : Db)
    → lookup pk db.memberships ≡ some m
    → let result = verify_geofence outside.distance m lat lng db in
      let entry = new_entry outside.now pk lat lng result in
      let after = logged outside pk CheckType.clock_in lat lng result none db in
      clock_in outside pk lat lng db ≡ (
        if any_where (is_open_entry pk) db.time_entries
        then (err already_clocked_in, db)
        else if result.passed
        then if any_where (violates_open_entry pk) db.time_entries
          then (err integrity_error, db)
          else (ok entry, link_log outside.log_id outside.id (store_entry outside.id entry after))
        else (err (violation result), after))
unfolding clock_in
clock_in_branches outside pk lat lng m db row = ground arith

pub clock_in_missing :
    (outside : Outside) (pk : ℕ) (lat lng : Option ℤ) (db : Db)
    → lookup pk db.memberships ≡ none
    → clock_in outside pk lat lng db ≡ (err does_not_exist, db)
unfolding clock_in
clock_in_missing outside pk lat lng db row = ground arith

-- A clock out, on every branch: where no entry of the membership is open it is refused and nothing
-- changes; otherwise the check is logged with that entry, which is then closed where the check
-- passed, and stays as it is, under an error with the distance and the radius, where it did not.
pub clock_out_lem :
    (outside : Outside) (pk : ℕ) (m : BusinessMembership) (lat lng : Option ℤ) (db : Db)
    → let result = verify_geofence outside.distance m lat lng db in
      clock_out outside (pk, m) lat lng db ≡ elim (first_where (is_open_entry pk) db.time_entries) [
        | none ↦ (err no_open_time_entry, db)
        | some (id, entry) ↦
            let after = logged outside pk CheckType.clock_out lat lng result (some id) db in
            if result.passed
            then (
              ok (closed_entry outside.now lat lng result entry),
              close_entry outside.now id lat lng result after,
            )
            else (err (violation result), after)
      ]
unfolding clock_out
clock_out_lem outside pk m lat lng db = ground arith

pub start_break_lem :
    (now new_id pk : ℕ) (db : Db)
    → start_break now new_id pk db ≡ elim (first_where (is_open_entry pk) db.time_entries) [
      | none ↦ (err no_open_time_entry, db)
      | some (id, _) ↦
          let b : TimeEntryBreak = record {
            time_entry = id;
            break_start_at = now;
            break_end_at = none;
            auto_closed_on_deactivation = false;
          } in
          if any_where (is_open_break id) db.breaks
          then (err break_state_error, db)
          else (ok b, store_break new_id b db)
    ]
unfolding start_break
start_break_lem now new_id pk db = ground arith

pub end_break_lem :
    (now pk : ℕ) (db : Db)
    → end_break now pk db ≡ elim (first_where (is_open_entry pk) db.time_entries) [
      | none ↦ (err no_open_time_entry, db)
      | some (id, _) ↦ elim (first_where (is_open_break id) db.breaks) [
        | none ↦ (err break_state_error, db)
        | some (j, b) ↦ (ok (ended now b), record db { breaks = update j (ended now) db.breaks })
      ]
    ]
unfolding end_break
end_break_lem now pk db = ground arith
