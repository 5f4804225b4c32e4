-- ===== src/Employees/History/Decided.antt =====
-- A request that is decided or cancelled stays as it is.
use food_tech_crm_backend.Prelude.{
  ℕ, Option, none, some, Option-cases, ◌≡◌, arith, refl, Bool, true, false, not, ◌&&◌, ◌||◌, ◌==◌,
  inl, inr, if◌then◌else◌, any_where,
}
use food_tech_crm_backend.Prelude.Int.{ℤ}
use food_tech_crm_backend.Prelude.Exec.{if_keeps, ok, err}
use food_tech_crm_backend.Prelude.Table.{Table, lookup, update, lookup-update, lookup-update_all}
use food_tech_crm_backend.Core.Db.{BusinessMembership}
use food_tech_crm_backend.Employees.Db.{
  EmployeeShift, ShiftSwapRequest, RequestStatus, cancelled, approved, rejected, Db,
  shift_swap_error,
}
use food_tech_crm_backend.Employees.TimeTracking.{
  Outside, clock_in, clock_out, start_break, end_break,
}
use food_tech_crm_backend.Employees.Requests.{
  is_pending, is_pending_for, key_of, of_other_business, new_swap, store_swap, approved_swap,
  rejected_swap, set_swap, decide, request_shift_swap, approve_shift_swap, reject_shift_swap,
  approve_time_off, reject_time_off,
}
use food_tech_crm_backend.Employees.Requests.Outcomes.{
  request_shift_swap_lem, approve_shift_swap_keeps, reject_shift_swap_lem,
  reject_shift_swap_missing,
}
use food_tech_crm_backend.Employees.Deactivation.{
  concerns, handle_membership_deactivation, save_membership,
}
use food_tech_crm_backend.Employees.Deactivation.Outcomes.{
  save_membership_lem, save_membership_new, saved,
}
use food_tech_crm_backend.Employees.History.{
  Step, Reach, clocks_in, clocks_out, starts_break, ends_break, requests_swap, approves_swap,
  rejects_swap, approves_time_off, rejects_time_off, saves_membership, here, next,
}

-- The calls that do not touch the swap requests.
clock_in_swaps :
    (outside : Outside) (pk : ℕ) (lat lng : Option ℤ) (db : Db)
    → (clock_in outside pk lat lng db).1.shift_swap_requests ≡ db.shift_swap_requests
unfolding clock_in
clock_in_swaps outside pk lat lng db = ground arith

clock_out_swaps :
    (outside : Outside) (pk : ℕ) (m : BusinessMembership) (lat lng : Option ℤ) (db : Db)
    → (clock_out outside (pk, m) lat lng db).1.shift_swap_requests ≡ db.shift_swap_requests
unfolding clock_out
clock_out_swaps outside pk m lat lng db = ground arith

start_break_swaps :
    (now id pk : ℕ) (db : Db)
    → (start_break now id pk db).1.shift_swap_requests ≡ db.shift_swap_requests
unfolding start_break
start_break_swaps now id pk db = ground arith

end_break_swaps :
    (now pk : ℕ) (db : Db) → (end_break now pk db).1.shift_swap_requests ≡ db.shift_swap_requests
unfolding end_break
end_break_swaps now pk db = ground arith

decide_swaps :
    (status : RequestStatus) (pk by : ℕ) (db : Db)
    → (decide status pk by db).1.shift_swap_requests ≡ db.shift_swap_requests
decide_swaps status pk by db = ground arith

approve_time_off_swaps :
    (pk by : ℕ) (db : Db)
    → (approve_time_off pk by db).1.shift_swap_requests ≡ db.shift_swap_requests
unfolding approve_time_off
approve_time_off_swaps = decide_swaps approved

reject_time_off_swaps :
    (pk by : ℕ) (db : Db)
    → (reject_time_off pk by db).1.shift_swap_requests ≡ db.shift_swap_requests
unfolding reject_time_off
reject_time_off_swaps = decide_swaps rejected

-- The calls that do.
module _ (key : ℕ) (r : ShiftSwapRequest) (done : is_pending r.status ≡ false) where
  abbrev IsKept : Db → Type 0
  IsKept db = lookup key db.shift_swap_requests ≡ some r

  update_kept :
      (pk : ℕ) (q : ShiftSwapRequest) (f : ShiftSwapRequest → ShiftSwapRequest)
      (t : Table ShiftSwapRequest)
      → lookup pk t ≡ some q
      → is_pending q.status ≡ true
      → lookup key t ≡ some r
      → lookup key (update pk f t) ≡ some r
  update_kept pk q f t row pending h = rw (lookup-update pk key f t, h) (cases (pk == key) refl)
    where
      cases : (b : Bool) → (pk == key) ≡ b → (if b then some (f r) else some r) ≡ some r
      cases false e = refl
      cases true e = ground arith

  request-IsKept :
      (id shift : ℕ) (s : EmployeeShift) (requesting : ℕ) (m : BusinessMembership)
      (target : Option (ℕ × BusinessMembership)) (db : Db)
      → lookup id db.shift_swap_requests ≡ none
      → IsKept db
      → IsKept (request_shift_swap id (shift, s) (requesting, m) target db).1
  request-IsKept id shift s requesting m target db fresh h =
      let q = new_swap shift requesting (key_of target) in
      rw (request_shift_swap_lem id shift s requesting m target db) (
        if_keeps IsKept
          (not (s.membership == requesting)
            || of_other_business m.business target
            || any_where (is_pending_for shift) db.shift_swap_requests)
          (err shift_swap_error, db) (ok q, store_swap id q db) (λ _. h)
          (λ _. stored (id == key) refl))
    where
      stored :
          (b : Bool)
          → (id == key) ≡ b
          → (if b
              then some (new_swap shift requesting (key_of target))
              else lookup key db.shift_swap_requests)
            ≡ some r
      stored false e = h
      stored true e = ground arith

  approve-IsKept :
      (pk by : ℕ) (given : Option (ℕ × BusinessMembership)) (db : Db)
      → IsKept db
      → IsKept (approve_shift_swap pk by given db).1
  approve-IsKept pk by given db h =
      approve_shift_swap_keeps IsKept pk by given db h (λ q t row pending.
        update_kept pk q (approved_swap t by) db.shift_swap_requests row pending h)

  reject-IsKept : (pk by : ℕ) (db : Db) → IsKept db → IsKept (reject_shift_swap pk by db).1
  reject-IsKept pk by db h = elim (Option-cases (lookup pk db.shift_swap_requests)) [
    | inl e ↦ rw (reject_shift_swap_missing pk by db e) h
    | inr (q, row) ↦ rw (reject_shift_swap_lem pk by q db row) (
        if_keeps IsKept (is_pending q.status)
          (ok (rejected_swap by q), set_swap pk (rejected_swap by) db) (err shift_swap_error, db)
          (λ pending. update_kept pk q (rejected_swap by) db.shift_swap_requests row pending h)
          (λ _. h))
  ]

  deactivation-IsKept :
      (now pk : ℕ) (db : Db) → IsKept db → IsKept (handle_membership_deactivation now pk db)
  unfolding handle_membership_deactivation
  deactivation-IsKept now pk db h =
      rw
        (
          lookup-update_all key (concerns pk) (λ q. record q { status = cancelled })
              db.shift_swap_requests,
          h,
        )
        (ground arith)

  save-IsKept :
      (now pk : ℕ) (m : BusinessMembership) (db : Db)
      → IsKept db
      → IsKept (save_membership now pk m db)
  save-IsKept now pk m db h = elim (Option-cases (lookup pk db.memberships)) [
    | inl e ↦ rw (save_membership_new now pk m db e) h
    | inr (previous, e) ↦
        rw (save_membership_lem now pk m previous db e)
          (branches (saved pk m db) (previous.is_active && not m.is_active) h)
  ]
    where
      branches :
          (db : Db) (b : Bool)
          → IsKept db
          → IsKept (if b then handle_membership_deactivation now pk db else db)
      branches db true h = deactivation-IsKept now pk db h
      branches db false h = h

  Step-IsKept : {s t : Db} → Step s t → IsKept s → IsKept t
  Step-IsKept (clocks_in outside pk lat lng) h = rw (clock_in_swaps outside pk lat lng _) h
  Step-IsKept (clocks_out outside pk m lat lng) h = rw (clock_out_swaps outside pk m lat lng _) h
  Step-IsKept (starts_break now id pk) h = rw (start_break_swaps now id pk _) h
  Step-IsKept (ends_break now pk) h = rw (end_break_swaps now pk _) h
  Step-IsKept (requests_swap id shift s requesting m target fresh) h =
      request-IsKept id shift s requesting m target _ fresh h
  Step-IsKept (approves_swap pk by target) h = approve-IsKept pk by target _ h
  Step-IsKept (rejects_swap pk by) h = reject-IsKept pk by _ h
  Step-IsKept (approves_time_off pk by) h = rw (approve_time_off_swaps pk by _) h
  Step-IsKept (rejects_time_off pk by) h = rw (reject_time_off_swaps pk by _) h
  Step-IsKept (saves_membership now pk m) h = save-IsKept now pk m _ h

-- A swap request that is approved, rejected or cancelled is never changed again, by any sequence of
-- calls: not its status, its target, nor who decided it.
pub Reach-decided :
    {s t : Db} (key : ℕ) (r : ShiftSwapRequest)
    → is_pending r.status ≡ false
    → lookup key s.shift_swap_requests ≡ some r
    → Reach s t
    → lookup key t.shift_swap_requests ≡ some r
Reach-decided key r done h here = h
Reach-decided key r done h (next past st) =
    Step-IsKept key r done st (Reach-decided key r done h past)
