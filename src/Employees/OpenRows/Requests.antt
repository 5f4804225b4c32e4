-- ===== src/Employees/OpenRows/Requests.antt =====
-- Requests and deactivations keep what is open open once.
use food_tech_crm_backend.Prelude.{
  ℕ, Option, Option-cases, ◌≡◌, arith, refl, Bool, true, false, not, ◌&&◌, ◌||◌, ◌==◌, inl, inr,
  any_where, if◌then◌else◌,
}
use food_tech_crm_backend.Prelude.Table.{lookup, update}
use food_tech_crm_backend.Prelude.Unique.{insert-IsUnique, update-IsUnique, update_all-IsUnique}
use food_tech_crm_backend.Prelude.Exec.{ok, err, if_keeps}
use food_tech_crm_backend.Core.Db.{BusinessMembership}
use food_tech_crm_backend.Employees.Db.{
  EmployeeShift, RequestStatus, cancelled, approved, rejected, Db, shift_swap_error, time_off_error,
}
use food_tech_crm_backend.Employees.TimeTracking.{is_open_entry, is_open}
use food_tech_crm_backend.Employees.Requests.{
  is_pending, is_pending_swap, is_pending_for, key_of, of_other_business, new_swap, store_swap,
  request_shift_swap, approved_swap, rejected_swap, set_swap, approve_shift_swap, reject_shift_swap,
  decided, decide, approve_time_off, reject_time_off,
}
use food_tech_crm_backend.Employees.Requests.Outcomes.{
  request_shift_swap_lem, approve_shift_swap_keeps, reject_shift_swap_lem,
  reject_shift_swap_missing, decide_lem, decide_missing,
}
use food_tech_crm_backend.Employees.Deactivation.Outcomes.{
  save_membership_lem, save_membership_new, saved,
}
use food_tech_crm_backend.Employees.Deactivation.{
  is_left_open, force_ended, force_closed, concerns, handle_membership_deactivation,
  save_membership,
}
use food_tech_crm_backend.Employees.OpenRows.{IsConsistent, close_all-IsEntries}

pub request_shift_swap-IsConsistent :
    (id shift : ℕ) (s : EmployeeShift) (requesting : ℕ) (m : BusinessMembership)
    (target : Option (ℕ × BusinessMembership)) (db : Db)
    → IsConsistent db
    → IsConsistent (request_shift_swap id (shift, s) (requesting, m) target db).1
request_shift_swap-IsConsistent id shift s requesting m target db (h, k, u) =
    let r = new_swap shift requesting (key_of target) in
    rw (request_shift_swap_lem id shift s requesting m target db) (
      if_keeps IsConsistent
        (not (s.membership == requesting)
          || of_other_business m.business target
          || any_where (is_pending_for shift) db.shift_swap_requests)
        (err shift_swap_error, db) (ok r, store_swap id r db) (λ _. (h, k, u))
        (λ free. (
          h,
          k,
          insert-IsUnique is_pending_swap (λ r. r.shift) id r db.shift_swap_requests
              (last_false (not (s.membership == requesting)) (of_other_business m.business target) _
                free)
              u,
        )))
  where
    last_false : (a b c : Bool) → (a || b || c) ≡ false → c ≡ false
    last_false a b c e = ground arith

pub approve_shift_swap-IsConsistent :
    (pk by : ℕ) (given : Option (ℕ × BusinessMembership)) (db : Db)
    → IsConsistent db
    → IsConsistent (approve_shift_swap pk by given db).1
approve_shift_swap-IsConsistent pk by given db (h, k, u) =
    approve_shift_swap_keeps IsConsistent pk by given db (h, k, u)
      (λ r t _ _. (
        h,
        k,
        update-IsUnique is_pending_swap (λ r. r.shift) (approved_swap t by) (λ _. refl)
            (λ _ _. refl) pk db.shift_swap_requests u,
      ))

pub reject_shift_swap-IsConsistent :
    (pk by : ℕ) (db : Db) → IsConsistent db → IsConsistent (reject_shift_swap pk by db).1
reject_shift_swap-IsConsistent pk by db (h, k, u) =
    elim (Option-cases (lookup pk db.shift_swap_requests)) [
      | inl e ↦ rw (reject_shift_swap_missing pk by db e) (h, k, u)
      | inr (r, row) ↦ rw (reject_shift_swap_lem pk by r db row) (
          if_keeps IsConsistent (is_pending r.status)
            (ok (rejected_swap by r), set_swap pk (rejected_swap by) db) (err shift_swap_error, db)
            (λ _. (
              h,
              k,
              update-IsUnique is_pending_swap (λ r. r.shift) (rejected_swap by) (λ _. refl)
                  (λ _ _. refl) pk db.shift_swap_requests u,
            ))
            (λ _. (h, k, u)))
    ]

pub decide-IsConsistent :
    (status : RequestStatus) (pk by : ℕ) (db : Db)
    → IsConsistent db
    → IsConsistent (decide status pk by db).1
decide-IsConsistent status pk by db h = elim (Option-cases (lookup pk db.time_off_requests)) [
  | inl e ↦ rw (decide_missing status pk by db e) h
  | inr (r, row) ↦ rw (decide_lem status pk by r db row) (
      if_keeps IsConsistent (is_pending r.status)
        (
          ok (decided status by r),
          record db { time_off_requests = update pk (decided status by) db.time_off_requests },
        )
        (err time_off_error, db) (λ _. h) (λ _. h))
]

pub approve_time_off-IsConsistent :
    (pk by : ℕ) (db : Db) → IsConsistent db → IsConsistent (approve_time_off pk by db).1
unfolding approve_time_off
approve_time_off-IsConsistent = decide-IsConsistent approved

pub reject_time_off-IsConsistent :
    (pk by : ℕ) (db : Db) → IsConsistent db → IsConsistent (reject_time_off pk by db).1
unfolding reject_time_off
reject_time_off-IsConsistent = decide-IsConsistent rejected

pub deactivation-IsConsistent :
    (now pk : ℕ) (db : Db)
    → IsConsistent db
    → IsConsistent (handle_membership_deactivation now pk db)
unfolding handle_membership_deactivation
deactivation-IsConsistent now pk db (h, u, k) = (
  close_all-IsEntries (force_closed now) (λ _. refl) (λ _. refl) (λ _. refl)
      (λ e. is_open_entry pk (0, e)) db.time_entries h,
  update_all-IsUnique is_open (λ b. b.time_entry) (force_ended now) (λ _. refl) (λ _ _. refl)
      (is_left_open pk db.time_entries) db.breaks u,
  update_all-IsUnique is_pending_swap (λ r. r.shift) (λ r. record r { status = cancelled })
      (λ _. refl) (λ _ _. refl) (concerns pk) db.shift_swap_requests k,
)

pub save_membership-IsConsistent :
    (now pk : ℕ) (m : BusinessMembership) (db : Db)
    → IsConsistent db
    → IsConsistent (save_membership now pk m db)
save_membership-IsConsistent now pk m db h = elim (Option-cases (lookup pk db.memberships)) [
  | inl e ↦ rw (save_membership_new now pk m db e) h
  | inr (previous, e) ↦
      rw (save_membership_lem now pk m previous db e)
        (branches (saved pk m db) (previous.is_active && not m.is_active) h)
]
  where
    branches :
        (db : Db) (b : Bool)
        → IsConsistent db
        → IsConsistent (if b then handle_membership_deactivation now pk db else db)
    branches db true h = deactivation-IsConsistent now pk db h
    branches db false h = h
