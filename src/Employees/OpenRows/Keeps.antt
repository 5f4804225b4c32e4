-- ===== src/Employees/OpenRows/Keeps.antt =====
-- Every operation keeps what is open open once.
use food_tech_crm_backend.Prelude.{
  ℕ, Option, none, some, Option-cases, refl, false, inl, inr, any_where, first_where, if◌then◌else◌,
}
use food_tech_crm_backend.Prelude.Int.{ℤ}
use food_tech_crm_backend.Prelude.Table.{lookup}
use food_tech_crm_backend.Prelude.Unique.{insert-IsUnique, update-IsUnique}
use food_tech_crm_backend.Prelude.Exec.{ok, err, if_keeps}
use food_tech_crm_backend.Core.Db.{BusinessMembership}
use food_tech_crm_backend.Employees.Db.{
  TimeEntryBreak, CheckType, Db, already_clocked_in, integrity_error, break_state_error,
}
use food_tech_crm_backend.Employees.TimeTracking.{
  Outside, verify_geofence, violation, is_clocked_in, is_open_entry, violates_open_entry, new_entry,
  link_log, store_entry, clock_in, closed_entry, close_entry, clock_out, is_open, is_open_break,
  store_break, start_break, ended, end_break,
}
use food_tech_crm_backend.Employees.TimeTracking.Outcomes.{
  logged, clock_in_branches, clock_in_missing, clock_out_lem, start_break_lem, end_break_lem,
}
use food_tech_crm_backend.Employees.OpenRows.{IsConsistent, close-IsEntries}

pub clock_in-IsConsistent :
    (outside : Outside) (pk : ℕ) (lat lng : Option ℤ) (db : Db)
    → IsConsistent db
    → IsConsistent (clock_in outside pk lat lng db).1
clock_in-IsConsistent outside pk lat lng db ((u, s), v, w) =
    elim (Option-cases (lookup pk db.memberships)) [
      | inl e ↦ rw (clock_in_missing outside pk lat lng db e) ((u, s), v, w)
      | inr (m, row) ↦
          let result = verify_geofence outside.distance m lat lng db in
          let entry = new_entry outside.now pk lat lng result in
          let after = logged outside pk CheckType.clock_in lat lng result none db in
          rw (clock_in_branches outside pk lat lng m db row) (
            if_keeps IsConsistent (any_where (is_open_entry pk) db.time_entries)
              (err already_clocked_in, db) _ (λ _. ((u, s), v, w))
              (λ free.
                if_keeps IsConsistent result.passed
                  (if any_where (violates_open_entry pk) db.time_entries
                    then (err integrity_error, db)
                    else (
                      ok entry,
                      link_log outside.log_id outside.id (store_entry outside.id entry after),
                    ))
                  (err (violation result), after)
                  (λ _.
                    if_keeps IsConsistent (any_where (violates_open_entry pk) db.time_entries)
                      (err integrity_error, db)
                      (
                        ok entry,
                        link_log outside.log_id outside.id (store_entry outside.id entry after),
                      )
                      (λ _. ((u, s), v, w))
                      (λ _. (
                        (
                          insert-IsUnique is_clocked_in (λ e. e.membership) outside.id entry
                              db.time_entries free u,
                          (refl, s),
                        ),
                        v,
                        w,
                      )))
                  (λ _. ((u, s), v, w))))
    ]

pub clock_out-IsConsistent :
    (outside : Outside) (pk : ℕ) (m : BusinessMembership) (lat lng : Option ℤ) (db : Db)
    → IsConsistent db
    → IsConsistent (clock_out outside (pk, m) lat lng db).1
clock_out-IsConsistent outside pk m lat lng db ((u, s), v, w) =
    rw (clock_out_lem outside pk m lat lng db)
      (elim (Option-cases (first_where (is_open_entry pk) db.time_entries)) [
        | inl e ↦ rw e ((u, s), v, w)
        | inr ((id, entry), e) ↦
            let result = verify_geofence outside.distance m lat lng db in
            let after = logged outside pk CheckType.clock_out lat lng result (some id) db in
            rw e (
              if_keeps IsConsistent result.passed
                (
                  ok (closed_entry outside.now lat lng result entry),
                  close_entry outside.now id lat lng result after,
                )
                (err (violation result), after)
                (λ _. (
                  close-IsEntries (closed_entry outside.now lat lng result) (λ _. refl) (λ _. refl)
                      (λ _. refl) id db.time_entries (u, s),
                  v,
                  w,
                ))
                (λ _. ((u, s), v, w)))
      ])

pub start_break-IsConsistent :
    (now new_id pk : ℕ) (db : Db) → IsConsistent db → IsConsistent (start_break now new_id pk db).1
start_break-IsConsistent now new_id pk db (h, u, k) =
    rw (start_break_lem now new_id pk db)
      (elim (Option-cases (first_where (is_open_entry pk) db.time_entries)) [
        | inl e ↦ rw e (h, u, k)
        | inr ((id, entry), e) ↦
            let b : TimeEntryBreak = record {
              time_entry = id;
              break_start_at = now;
              break_end_at = none;
              auto_closed_on_deactivation = false;
            } in
            rw e (
              if_keeps IsConsistent (any_where (is_open_break id) db.breaks)
                (err break_state_error, db) (ok b, store_break new_id b db) (λ _. (h, u, k))
                (λ free.
                  (h, insert-IsUnique is_open (λ b. b.time_entry) new_id b db.breaks free u, k)))
      ])

pub end_break-IsConsistent :
    (now pk : ℕ) (db : Db) → IsConsistent db → IsConsistent (end_break now pk db).1
end_break-IsConsistent now pk db (h, u, k) =
    rw (end_break_lem now pk db)
      (elim (Option-cases (first_where (is_open_entry pk) db.time_entries)) [
        | inl e ↦ rw e (h, u, k)
        | inr ((id, entry), e) ↦ elim (Option-cases (first_where (is_open_break id) db.breaks)) [
          | inl f ↦ rw (e, f) (h, u, k)
          | inr ((j, b), f) ↦
              rw (e, f)
                (
                  h,
                  update-IsUnique is_open (λ b. b.time_entry) (ended now) (λ _. refl) (λ _ _. refl)
                      j db.breaks u,
                  k,
                )
        ]
      ])
