-- ===== src/Employees/Requests/Outcomes.antt =====
-- What the requests come to on every branch.
use food_tech_crm_backend.Prelude.{
  ℕ, Option, none, some, Option-cases, ◌≡◌, arith, refl, sym, ap, subst, ◌∙◌, ==_iff, Bool, false,
  Bool-cases, true, not, ◌||◌, ◌==◌, inl, inr, any_where, if◌then◌else◌,
}
use food_tech_crm_backend.Prelude.Table.{lookup, update, lookup-update}
use food_tech_crm_backend.Prelude.Exec.{Result, ok, err, if_keeps}
use food_tech_crm_backend.Core.Db.{BusinessMembership}
use food_tech_crm_backend.Employees.Db.{
  EmployeeShift, RequestStatus, pending, approved, ShiftSwapRequest, TimeOffRequest, Db, Error,
  shift_swap_error, time_off_error, does_not_exist,
}
use food_tech_crm_backend.Employees.Requests.{
  is_pending, is_pending_for, key_of, of_other_business, new_swap, store_swap, request_shift_swap,
  assign_shift, approved_swap, rejected_swap, set_swap, approve_shift_swap, reject_shift_swap,
  decided, decide,
}

-- A swap is refused, and nothing changes, for another membership's shift, for a target of another
-- business, and where a request for the shift is pending; otherwise a pending one is stored.
pub request_shift_swap_lem :
    (id shift : ℕ) (s : EmployeeShift) (requesting : ℕ) (m : BusinessMembership)
    (target : Option (ℕ × BusinessMembership)) (db : Db)
    → let r = new_swap shift requesting (key_of target) in
      request_shift_swap id (shift, s) (requesting, m) target db ≡ (
        if not (s.membership == requesting)
          || of_other_business m.business target
          || any_where (is_pending_for shift) db.shift_swap_requests
        then (err shift_swap_error, db)
        else (ok r, store_swap id r db))
unfolding request_shift_swap
request_shift_swap_lem id shift s requesting m target db = ground arith

-- The target that an approval comes to: the one given with it, or else the request's own.
abbrev pub target_of : Option (ℕ × BusinessMembership) → Option ℕ → Option ℕ
target_of none own = own
target_of (some (k, _)) own = some k

-- The business of that target.
abbrev pub target_business : Option (ℕ × BusinessMembership) → ℕ → Db → Option ℕ
target_business none t db = elim (lookup t db.memberships) [
  | none ↦ none
  | some m ↦ some m.business
]
target_business (some (_, m)) t db = some m.business

abbrev pub approval : ℕ → ℕ → ShiftSwapRequest → ℕ → Db → Result Error ShiftSwapRequest × Db
approval pk by r target db = (
  ok (approved_swap target by r),
  set_swap pk (approved_swap target by) (assign_shift r.shift target db),
)

-- What comes of a pending request with this target.
abbrev pub assign :
    ℕ
    → ℕ
    → Option (ℕ × BusinessMembership)
    → ShiftSwapRequest
    → BusinessMembership
    → Db
    → Option ℕ
    → Result Error ShiftSwapRequest × Db
assign pk by given r m db none = (err shift_swap_error, db)
assign pk by given r m db (some t) = elim (target_business given t db) [
  | none ↦ (err does_not_exist, db)
  | some b ↦ if b == m.business then approval pk by r t db else (err shift_swap_error, db)
]

-- An approval on every branch, where the request, its requester and its shift are there.
pub approve_shift_swap_lem :
    (pk by : ℕ) (given : Option (ℕ × BusinessMembership)) (r : ShiftSwapRequest)
    (m : BusinessMembership) (s : EmployeeShift) (db : Db)
    → lookup pk db.shift_swap_requests ≡ some r
    → lookup r.requesting_membership db.memberships ≡ some m
    → lookup r.shift db.shifts ≡ some s
    → approve_shift_swap pk by given db ≡ (
        if is_pending r.status
        then assign pk by given r m db (target_of given r.target_membership)
        else (err shift_swap_error, db))
unfolding approve_shift_swap
approve_shift_swap_lem pk by given r m s db row requester shift = ground arith

-- What an approval that went through came to.
came_to :
    (pk by : ℕ) (given : Option (ℕ × BusinessMembership)) (r : ShiftSwapRequest)
    (m : BusinessMembership) (db after : Db) (v : ShiftSwapRequest) (b : Bool) (o : Option ℕ)
    → ◌≡◌ {A = Result Error ShiftSwapRequest × Db}
        (if b then assign pk by given r m db o else (err shift_swap_error, db))
        (ok v, after)
    → (t : ℕ) × (b ≡ true)
      × (o ≡ some t)
      × (target_business given t db ≡ some m.business)
      × (set_swap pk (approved_swap t by) (assign_shift r.shift t db) ≡ after)
came_to pk by given r m db after v false o h = absurd (ground arith)
came_to pk by given r m db after v true none h = absurd (ground arith)
came_to pk by given r m db after v true (some t) h = business (target_business given t db) refl h
  where
    business :
        (o : Option ℕ)
        → target_business given t db ≡ o
        → ◌≡◌ {A = Result Error ShiftSwapRequest × Db}
            (elim o [
              | none ↦ (err does_not_exist, db)
              | some b ↦
                  if b == m.business then approval pk by r t db else (err shift_swap_error, db)
            ])
            (ok v, after)
        → (u : ℕ) × (true ≡ true)
          × (some t ≡ some u)
          × (target_business given u db ≡ some m.business)
          × (set_swap pk (approved_swap u by) (assign_shift r.shift u db) ≡ after)
    business none e h = absurd (ground arith)
    business (some b) e h = elim (Bool-cases (b == m.business)) [
      | inr f ↦ absurd (ground arith)
      | inl f ↦ (t, refl, refl, e ∙ ap some ((==_iff b m.business).0 f), ground arith)
    ]

-- An approval that goes through, of a request whose requester and shift are there. The request was
-- pending; it is approved now, by the one who approved it, for the target given with the approval, or
-- else the request's own, whatever the request's own was; that target is of the requester's business;
-- and the shift is the target's.
pub approve_shift_swap-approved :
    (pk by : ℕ) (given : Option (ℕ × BusinessMembership)) (r : ShiftSwapRequest)
    (m : BusinessMembership) (s : EmployeeShift) (db after : Db) (v : ShiftSwapRequest)
    → lookup pk db.shift_swap_requests ≡ some r
    → lookup r.requesting_membership db.memberships ≡ some m
    → lookup r.shift db.shifts ≡ some s
    → approve_shift_swap pk by given db ≡ (ok v, after)
    → (t : ℕ) × (r.status ≡ pending)
      × (target_of given r.target_membership ≡ some t)
      × (target_business given t db ≡ some m.business)
      × (lookup r.shift after.shifts ≡ some (record s { membership = t }))
      × (lookup pk after.shift_swap_requests
          ≡ some
              (record r { status = approved; target_membership = some t; approved_by = some by }))
approve_shift_swap-approved pk by given r m s db after v row requester shift done =
    let (t, waiting, target, business, is_after) =
      came_to pk by given r m db after v (is_pending r.status) (target_of given r.target_membership)
        (sym (approve_shift_swap_lem pk by given r m s db row requester shift) ∙ done) in
    (
      t,
      pending_status r.status waiting,
      target,
      business,
      subst (λ d. lookup r.shift d.shifts ≡ some (record s { membership = t })) is_after
          (lookup-update r.shift r.shift (λ s. record s { membership = t }) db.shifts
            ∙ ground arith),
      subst (λ d. lookup pk d.shift_swap_requests ≡ some (approved_swap t by r)) is_after
          (lookup-update pk pk (approved_swap t by) db.shift_swap_requests ∙ ground arith),
    )
  where
    pending_status : (x : RequestStatus) → is_pending x ≡ true → x ≡ pending
    pending_status pending h = refl
    pending_status approved h = absurd (ground arith)
    pending_status RequestStatus.rejected h = absurd (ground arith)
    pending_status RequestStatus.cancelled h = absurd (ground arith)

pub reject_shift_swap_lem :
    (pk by : ℕ) (r : ShiftSwapRequest) (db : Db)
    → lookup pk db.shift_swap_requests ≡ some r
    → reject_shift_swap pk by db ≡ (
        if is_pending r.status
        then (ok (rejected_swap by r), set_swap pk (rejected_swap by) db)
        else (err shift_swap_error, db))
unfolding reject_shift_swap
reject_shift_swap_lem pk by r db row = ground arith

pub reject_shift_swap_missing :
    (pk by : ℕ) (db : Db)
    → lookup pk db.shift_swap_requests ≡ none
    → reject_shift_swap pk by db ≡ (err does_not_exist, db)
unfolding reject_shift_swap
reject_shift_swap_missing pk by db row = ground arith

no_swap_row :
    (pk by : ℕ) (given : Option (ℕ × BusinessMembership)) (db : Db)
    → lookup pk db.shift_swap_requests ≡ none
    → (approve_shift_swap pk by given db).1 ≡ db
unfolding approve_shift_swap
no_swap_row pk by given db row = ground arith

no_requester :
    (pk by : ℕ) (given : Option (ℕ × BusinessMembership)) (r : ShiftSwapRequest) (db : Db)
    → lookup pk db.shift_swap_requests ≡ some r
    → lookup r.requesting_membership db.memberships ≡ none
    → (approve_shift_swap pk by given db).1 ≡ db
unfolding approve_shift_swap
no_requester pk by given r db row requester = ground arith

no_shift :
    (pk by : ℕ) (given : Option (ℕ × BusinessMembership)) (r : ShiftSwapRequest)
    (m : BusinessMembership) (db : Db)
    → lookup pk db.shift_swap_requests ≡ some r
    → lookup r.requesting_membership db.memberships ≡ some m
    → lookup r.shift db.shifts ≡ none
    → (approve_shift_swap pk by given db).1 ≡ db
unfolding approve_shift_swap
no_shift pk by given r m db row requester shift = ground arith

-- Whatever holds of the state before an approval, and of the state with the shift given away where
-- the request was pending, holds after it.
pub approve_shift_swap_keeps :
    (P : Db → Type 0) (pk by : ℕ) (given : Option (ℕ × BusinessMembership)) (db : Db)
    → P db
    → ((r : ShiftSwapRequest) (t : ℕ)
        → lookup pk db.shift_swap_requests ≡ some r
        → is_pending r.status ≡ true
        → P (set_swap pk (approved_swap t by) (assign_shift r.shift t db)))
    → P (approve_shift_swap pk by given db).1
approve_shift_swap_keeps P pk by given db before after =
    elim (Option-cases (lookup pk db.shift_swap_requests)) [
      | inl e ↦ rw (no_swap_row pk by given db e) before
      | inr (r, row) ↦ elim (Option-cases (lookup r.requesting_membership db.memberships)) [
        | inl e ↦ rw (no_requester pk by given r db row e) before
        | inr (m, requester) ↦ elim (Option-cases (lookup r.shift db.shifts)) [
          | inl e ↦ rw (no_shift pk by given r m db row requester e) before
          | inr (s, shift) ↦ rw (approve_shift_swap_lem pk by given r m s db row requester shift) (
              if_keeps P (is_pending r.status)
                (assign pk by given r m db (target_of given r.target_membership))
                (err shift_swap_error, db)
                (λ h. assigned r m row h (target_of given r.target_membership)) (λ _. before))
        ]
      ]
    ]
  where
    assigned :
        (r : ShiftSwapRequest) (m : BusinessMembership)
        → lookup pk db.shift_swap_requests ≡ some r
        → is_pending r.status ≡ true
        → (o : Option ℕ) → P (assign pk by given r m db o).1
    assigned r m row h none = before
    assigned r m row h (some t) = elim (Option-cases (target_business given t db)) [
      | inl e ↦ rw (assign, e) before
      | inr (b, e) ↦
          rw (assign, e)
            (if_keeps P (b == m.business) (approval pk by r t db) (err shift_swap_error, db)
              (λ _. after r t row h) (λ _. before))
    ]

-- A decision on a time off request that is there.
pub decide_lem :
    (status : RequestStatus) (pk by : ℕ) (r : TimeOffRequest) (db : Db)
    → lookup pk db.time_off_requests ≡ some r
    → decide status pk by db ≡ (
        if is_pending r.status
        then (
          ok (decided status by r),
          record db { time_off_requests = update pk (decided status by) db.time_off_requests },
        )
        else (err time_off_error, db))
decide_lem status pk by r db row = ground arith

pub decide_missing :
    (status : RequestStatus) (pk by : ℕ) (db : Db)
    → lookup pk db.time_off_requests ≡ none
    → decide status pk by db ≡ (err does_not_exist, db)
decide_missing status pk by db row = ground arith
