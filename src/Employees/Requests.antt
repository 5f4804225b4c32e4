-- ===== src/Employees/Requests.antt =====
-- employees/services.py: shift swap requests and time off requests. A membership or a shift that is
-- passed in is its key and its row.
pub mod Outcomes
use food_tech_crm_backend.Prelude.{
  ℕ, Option, none, some, ◌∷◌, Bool, true, false, not, ◌&&◌, ◌==◌, any_where, if◌then◌else◌,
}
use food_tech_crm_backend.Prelude.Table.{Table, lookup, insert, update}
use food_tech_crm_backend.Prelude.Exec.{
  Exec, Result, ok, err, pure, raise, gets, or_raise, atomic, raise_if, modify, ◌>>=◌, ◌>>◌,
}
use food_tech_crm_backend.Core.Db.{BusinessMembership}
use food_tech_crm_backend.Employees.Db.{
  EmployeeShift, RequestStatus, pending, approved, rejected, ShiftSwapRequest, TimeOffRequest, Db,
  Error, shift_swap_error, time_off_error, does_not_exist, Service,
}

abbrev pub is_pending : RequestStatus → Bool
is_pending pending = true
is_pending _ = false

abbrev pub is_pending_swap : ShiftSwapRequest → Bool
is_pending_swap r = is_pending r.status

abbrev pub is_pending_for : ℕ → ℕ × ShiftSwapRequest → Bool
is_pending_for shift (_, r) = is_pending_swap r && r.shift == shift

abbrev pub key_of : Option (ℕ × BusinessMembership) → Option ℕ
key_of none = none
key_of (some (k, _)) = some k

abbrev pub of_other_business : ℕ → Option (ℕ × BusinessMembership) → Bool
of_other_business business none = false
of_other_business business (some (_, m)) = not (m.business == business)

abbrev pub new_swap : ℕ → ℕ → Option ℕ → ShiftSwapRequest
new_swap shift requesting target = record {
  shift = shift;
  requesting_membership = requesting;
  target_membership = target;
  status = pending;
  approved_by = none;
}

abbrev pub store_swap : ℕ → ShiftSwapRequest → Db → Db
store_swap id r db = record db { shift_swap_requests = insert id r db.shift_swap_requests }

unfoldable pub request_shift_swap :
    ℕ
    → ℕ × EmployeeShift
    → ℕ × BusinessMembership
    → Option (ℕ × BusinessMembership)
    → Service ShiftSwapRequest
request_shift_swap id (shift, s) (requesting, m) target = do
  raise_if (not (s.membership == requesting)) shift_swap_error
  raise_if (of_other_business m.business target) shift_swap_error
  raise_if (← gets (λ db. any_where (is_pending_for shift) db.shift_swap_requests)) shift_swap_error
  modify (store_swap id (new_swap shift requesting (key_of target)))
  pure (new_swap shift requesting (key_of target))

abbrev pub membership_row : ℕ → Service (ℕ × BusinessMembership)
membership_row pk = do
  m ← or_raise (← gets (λ db. lookup pk db.memberships)) does_not_exist
  pure (pk, m)

-- `target_membership or locked.target_membership`
abbrev pub final_target :
    Option (ℕ × BusinessMembership) → Option ℕ → Service (ℕ × BusinessMembership)
final_target (some m) own = pure m
final_target none none = raise shift_swap_error
final_target none (some pk) = membership_row pk

abbrev pub assign_shift : ℕ → ℕ → Db → Db
assign_shift shift target db = record db {
  shifts = update shift (λ s. record s { membership = target }) db.shifts;
}

abbrev pub approved_swap : ℕ → ℕ → ShiftSwapRequest → ShiftSwapRequest
approved_swap target by r = record r {
  status = approved;
  target_membership = some target;
  approved_by = some by;
}

abbrev pub rejected_swap : ℕ → ShiftSwapRequest → ShiftSwapRequest
rejected_swap by r = record r { status = rejected; approved_by = some by }

abbrev pub set_swap : ℕ → (ShiftSwapRequest → ShiftSwapRequest) → Db → Db
set_swap pk f db = record db { shift_swap_requests = update pk f db.shift_swap_requests }

unfoldable pub approve_shift_swap :
    ℕ → ℕ → Option (ℕ × BusinessMembership) → Service ShiftSwapRequest
approve_shift_swap pk by target_membership = atomic (do
  locked ← or_raise (← gets (λ db. lookup pk db.shift_swap_requests)) does_not_exist
  raise_if (not (is_pending locked.status)) shift_swap_error
  (target, m) ← final_target target_membership locked.target_membership
  (_, requesting) ← membership_row locked.requesting_membership
  raise_if (not (m.business == requesting.business)) shift_swap_error
  shift ← or_raise (← gets (λ db. lookup locked.shift db.shifts)) does_not_exist
  modify (assign_shift locked.shift target)
  modify (set_swap pk (approved_swap target by))
  pure (approved_swap target by locked))

unfoldable pub reject_shift_swap : ℕ → ℕ → Service ShiftSwapRequest
reject_shift_swap pk by = atomic (do
  locked ← or_raise (← gets (λ db. lookup pk db.shift_swap_requests)) does_not_exist
  raise_if (not (is_pending locked.status)) shift_swap_error
  modify (set_swap pk (rejected_swap by))
  pure (rejected_swap by locked))

abbrev pub decided : RequestStatus → ℕ → TimeOffRequest → TimeOffRequest
decided status by r = record r { status = status; approved_by = some by }

abbrev pub decide : RequestStatus → ℕ → ℕ → Service TimeOffRequest
decide status pk by = atomic (do
  locked ← or_raise (← gets (λ db. lookup pk db.time_off_requests)) does_not_exist
  raise_if (not (is_pending locked.status)) time_off_error
  modify
      (λ db. record db { time_off_requests = update pk (decided status by) db.time_off_requests })
  pure (decided status by locked))

unfoldable pub approve_time_off : ℕ → ℕ → Service TimeOffRequest
approve_time_off = decide approved

unfoldable pub reject_time_off : ℕ → ℕ → Service TimeOffRequest
reject_time_off = decide rejected
