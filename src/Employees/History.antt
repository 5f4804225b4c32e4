-- ===== src/Employees/History.antt =====
-- Sequences of calls of the employee services, in any order, and what holds after them.
pub mod Decided
use food_tech_crm_backend.Prelude.{
  ℕ, Option, none, some, Option-cases, ◌≡◌, ◌≢◌, arith, refl, Bool, true, false, not, ◌&&◌, ◌||◌,
  ◌==◌, ◌==?◌, inl, inr, if◌then◌else◌,
}
use food_tech_crm_backend.Prelude.Int.{ℤ}
use food_tech_crm_backend.Prelude.Table.{
  Table, lookup, insert, update, update_all, map_row, lookup-update, lookup-update_all,
}
use food_tech_crm_backend.Core.Db.{BusinessMembership}
use food_tech_crm_backend.Employees.Db.{EmployeeShift, ShiftSwapRequest, Db}
use food_tech_crm_backend.Employees.TimeTracking.{
  Outside, clock_in, clock_out, start_break, end_break,
}
use food_tech_crm_backend.Employees.Requests.{
  request_shift_swap, approve_shift_swap, reject_shift_swap, approve_time_off, reject_time_off,
}
use food_tech_crm_backend.Employees.Deactivation.{save_membership}
use food_tech_crm_backend.Employees.OpenRows.{IsConsistent}
use food_tech_crm_backend.Employees.OpenRows.Keeps.{
  clock_in-IsConsistent, clock_out-IsConsistent, start_break-IsConsistent, end_break-IsConsistent,
}
use food_tech_crm_backend.Employees.OpenRows.Requests.{
  request_shift_swap-IsConsistent, approve_shift_swap-IsConsistent, reject_shift_swap-IsConsistent,
  approve_time_off-IsConsistent, reject_time_off-IsConsistent, save_membership-IsConsistent,
}

-- One call of the service layer, or a save of a membership, with any arguments. A new row's key is
-- fresh.
pub data Step (db : Db) : Db → Type 0 where
  clocks_in :
      (outside : Outside) (pk : ℕ) (lat lng : Option ℤ) → Step db (clock_in outside pk lat lng db).1
  clocks_out :
      (outside : Outside) (pk : ℕ) (m : BusinessMembership) (lat lng : Option ℤ)
      → Step db (clock_out outside (pk, m) lat lng db).1
  starts_break : (now id pk : ℕ) → Step db (start_break now id pk db).1
  ends_break : (now pk : ℕ) → Step db (end_break now pk db).1
  requests_swap :
      (id shift : ℕ) (s : EmployeeShift) (requesting : ℕ) (m : BusinessMembership)
      (target : Option (ℕ × BusinessMembership))
      → lookup id db.shift_swap_requests ≡ none
      → Step db (request_shift_swap id (shift, s) (requesting, m) target db).1
  approves_swap :
      (pk by : ℕ) (target : Option (ℕ × BusinessMembership))
      → Step db (approve_shift_swap pk by target db).1
  rejects_swap : (pk by : ℕ) → Step db (reject_shift_swap pk by db).1
  approves_time_off : (pk by : ℕ) → Step db (approve_time_off pk by db).1
  rejects_time_off : (pk by : ℕ) → Step db (reject_time_off pk by db).1
  saves_membership : (now pk : ℕ) (m : BusinessMembership) → Step db (save_membership now pk m db)

pub data Reach (s : Db) : Db → Type 0 where
  here : Reach s s
  next : {t u : Db} → Reach s t → Step t u → Reach s u

Step-IsConsistent : {s t : Db} → Step s t → IsConsistent s → IsConsistent t
Step-IsConsistent (clocks_in outside pk lat lng) h = clock_in-IsConsistent outside pk lat lng _ h
Step-IsConsistent (clocks_out outside pk m lat lng) h =
    clock_out-IsConsistent outside pk m lat lng _ h
Step-IsConsistent (starts_break now id pk) h = start_break-IsConsistent now id pk _ h
Step-IsConsistent (ends_break now pk) h = end_break-IsConsistent now pk _ h
Step-IsConsistent (requests_swap id shift s requesting m target fresh) h =
    request_shift_swap-IsConsistent id shift s requesting m target _ h
Step-IsConsistent (approves_swap pk by target) h = approve_shift_swap-IsConsistent pk by target _ h
Step-IsConsistent (rejects_swap pk by) h = reject_shift_swap-IsConsistent pk by _ h
Step-IsConsistent (approves_time_off pk by) h = approve_time_off-IsConsistent pk by _ h
Step-IsConsistent (rejects_time_off pk by) h = reject_time_off-IsConsistent pk by _ h
Step-IsConsistent (saves_membership now pk m) h = save_membership-IsConsistent now pk m _ h

-- After any sequence of clock-ins and clock-outs, breaks, requests, decisions and saved memberships,
-- from a state where this holds (empty tables, say): a membership has at most one open time entry, an
-- entry has an end exactly when it is clocked out, an entry has at most one open break, and a shift
-- has at most one pending swap request.
pub Reach-IsConsistent : {s t : Db} → IsConsistent s → Reach s t → IsConsistent t
Reach-IsConsistent h here = h
Reach-IsConsistent h (next r st) = Step-IsConsistent st (Reach-IsConsistent h r)
