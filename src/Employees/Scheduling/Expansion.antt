-- ===== src/Employees/Scheduling/Expansion.antt =====
-- What the expansion of recurring schedules comes to: every date has one shift.
use food_tech_crm_backend.Prelude.{
  ℕ, ◌+◌, List, [], ◌∷◌, ◌≡◌, arith, refl, sym, subst, ◌∙◌, ap, Bool, true, false, ◌&&◌, ◌==◌,
  any_where, rows_where, Option, some, none, Option-cases, ==_iff, ◌==?◌, ◌≤◌, leb, if◌then◌else◌,
  Bool-cases, inl, inr,
}
use food_tech_crm_backend.Prelude.Table.{Table, insert, lookup}
use food_tech_crm_backend.Prelude.Unique.{IsUnique}
use food_tech_crm_backend.Prelude.Queries.{rows_where-cons}
use food_tech_crm_backend.Core.Db.{Business, BusinessMembership}
use food_tech_crm_backend.Core.Recurrence.{next_weekday_on_or_after}
use food_tech_crm_backend.Core.Recurrence.Expansion.{
  expand_rows, IsDone, AreDone, AllDone, rows_settle, expand_rows_keeps, expand_rows-twice,
}
use food_tech_crm_backend.Core.Recurrence.Dates.{
  has_date, within_end, in_phase, occurrence_dates_lem,
}
use food_tech_crm_backend.Employees.Db.{ShiftTemplate, RecurringSchedule, EmployeeShift, Db}
use food_tech_crm_backend.Employees.Scheduling.{
  Row, Outside, schedule_dates, of_schedule, is_shift_at, new_shift, create_shift, with_templates,
  is_due, not_ended, business_is_active, active_schedules, expand_active_recurring_schedules,
}

-- The shift of a row and a date is there.
abbrev pub has_shift : Outside → Row → ℕ → Db → Bool
has_shift outside (pk, s, t) date db =
    any_where (is_shift_at pk (outside.make_aware date t.start_time)) db.shifts

abbrev created : Outside → Row → ℕ → Db → Db
created outside (pk, s, t) date db = record db {
  shifts = insert (outside.id pk date) (new_shift outside (pk, s, t) date) db.shifts;
}

create_shift_lem :
    (outside : Outside) (r : Row) (date : ℕ) (db : Db)
    → create_shift outside r date db
      ≡ (if has_shift outside r date db then (false, db) else (true, created outside r date db))
unfolding create_shift
create_shift_lem outside (pk, s, t) date db = refl

has-created :
    (outside : Outside) (r : Row) (date : ℕ) (db : Db)
    → has_shift outside r date (created outside r date db) ≡ true
has-created outside (pk, s, t) date db = ground arith

has-kept :
    (outside : Outside) (r q : Row) (d e : ℕ) (db : Db)
    → has_shift outside r d db ≡ true
    → has_shift outside r d (created outside q e db) ≡ true
has-kept outside (pk, s, t) (j, u, v) d e db h = ground arith

has-IsDone :
    (outside : Outside) (r : Row) (d : ℕ) (db : Db)
    → has_shift outside r d db ≡ true
    → IsDone (create_shift outside) r d db
has-IsDone outside r d db h = rw (create_shift_lem outside r d db, h) refl

missing-created :
    (outside : Outside) (r : Row) (d : ℕ) (db : Db)
    → has_shift outside r d db ≡ false
    → create_shift outside r d db ≡ (true, created outside r d db)
missing-created outside r d db e = rw (create_shift_lem outside r d db, e) refl

done-has :
    (outside : Outside) (r : Row) (d : ℕ) (db : Db)
    → IsDone (create_shift outside) r d db
    → has_shift outside r d db ≡ true
done-has outside r d db h = elim (Bool-cases (has_shift outside r d db)) [
  | inl e ↦ e
  | inr e ↦
      let clash : true ≡ false = ap (λ p. p.0) (sym (missing-created outside r d db e) ∙ h) in
      absurd (ground arith)
]

settles :
    (outside : Outside) (r : Row) (d : ℕ) (db : Db)
    → IsDone (create_shift outside) r d (create_shift outside r d db).1
settles outside r d db = elim (Bool-cases (has_shift outside r d db)) [
  | inl e ↦ rw (has-IsDone outside r d db e) (has-IsDone outside r d db e)
  | inr e ↦
      rw (missing-created outside r d db e)
        (has-IsDone outside r d (created outside r d db) (has-created outside r d db))
]

stays :
    (outside : Outside) (r q : Row) (d e : ℕ) (db : Db)
    → IsDone (create_shift outside) r d db
    → IsDone (create_shift outside) r d (create_shift outside q e db).1
stays outside r q d e db h = elim (Bool-cases (has_shift outside q e db)) [
  | inl f ↦ rw (has-IsDone outside q e db f) h
  | inr f ↦ rw (missing-created outside q e db f) (
      has-IsDone outside r d (created outside q e db)
        (has-kept outside r q d e db (done-has outside r d db h)))
]

create_shift_keeps :
    (outside : Outside) (P : Db → Type 0)
    → ((r : Row) (d : ℕ) (db : Db)
        → has_shift outside r d db ≡ false
        → P db
        → P (created outside r d db))
    → (r : Row) (d : ℕ) (db : Db) → P db
    → P (create_shift outside r d db).1
create_shift_keeps outside P keeps r d db h = elim (Bool-cases (has_shift outside r d db)) [
  | inl e ↦ rw (has-IsDone outside r d db e) h
  | inr e ↦ rw (missing-created outside r d db e) (keeps r d db e h)
]

-- The states that differ from this one in their shifts alone.
abbrev DiffersInShifts : Db → Db → Type 0
DiffersInShifts db d = (t : Table EmployeeShift) × (d ≡ record db { shifts = t })

active_schedules-same :
    (today window_end : ℕ) (db : Db) (t : Table EmployeeShift)
    → active_schedules today window_end (record db { shifts = t })
      ≡ active_schedules today window_end db
unfolding active_schedules
active_schedules-same today window_end db t = refl

expanded-differs :
    (outside : Outside) (dates : Row → List ℕ) (rows : List Row) (db : Db)
    → DiffersInShifts db (expand_rows (create_shift outside) dates rows db).1
expanded-differs outside dates rows db =
    expand_rows_keeps (create_shift outside) (DiffersInShifts db)
      (create_shift_keeps outside (DiffersInShifts db) (λ (pk, s, tm) d d' _ (t, e). (
        insert (outside.id pk d) (new_shift outside (pk, s, tm) d) d'.shifts,
        ap {A = Db} {B = Db}
            (λ x. record x {
              shifts = insert (outside.id pk d) (new_shift outside (pk, s, tm) d) d'.shifts;
            })
            e,
      )))
      dates rows db (db.shifts, refl)

-- The rows that the task goes through are the same after it.
active_schedules-after :
    (outside : Outside) (today window_days : ℕ) (db : Db)
    → active_schedules today
        (today + window_days)
        (expand_active_recurring_schedules outside today window_days db).1
      ≡ active_schedules today (today + window_days) db
unfolding expand_active_recurring_schedules
active_schedules-after outside today window_days db =
    let window_end = today + window_days in
    let (t, e) =
      expanded-differs outside (λ r. schedule_dates r today window_end)
        (active_schedules today window_end db) db in
    ap (active_schedules today window_end) e ∙ active_schedules-same today window_end db t

-- The task that is run twice in a day creates nothing the second time, and leaves every table as it
-- was.
pub expand_active_recurring_schedules-twice :
    (outside : Outside) (today window_days : ℕ) (db : Db)
    → let after = (expand_active_recurring_schedules outside today window_days db).1 in
      expand_active_recurring_schedules outside today window_days after ≡ (0, after)
unfolding expand_active_recurring_schedules
expand_active_recurring_schedules-twice outside today window_days db =
    rw (active_schedules-after outside today window_days db) (
      expand_rows-twice (create_shift outside) (settles outside) (stays outside)
        (λ r. schedule_dates r today (today + window_days))
        (active_schedules today (today + window_days) db) db)

-- Every date of a row has its shift.
abbrev pub HaveShifts : Outside → Row → List ℕ → Db → Type 0
HaveShifts outside r [] db = Unit
HaveShifts outside r (d ∷ ds) db = (has_shift outside r d db ≡ true) × HaveShifts outside r ds db

abbrev pub AllHaveShifts : Outside → (Row → List ℕ) → List Row → Db → Type 0
AllHaveShifts outside dates [] db = Unit
AllHaveShifts outside dates (r ∷ rs) db =
    HaveShifts outside r (dates r) db × AllHaveShifts outside dates rs db

dates_have :
    (outside : Outside) (r : Row) (ds : List ℕ) (db : Db)
    → AreDone (create_shift outside) r ds db
    → HaveShifts outside r ds db
dates_have outside r [] db h = tt
dates_have outside r (d ∷ ds) db (h, hs) =
    (done-has outside r d db h, dates_have outside r ds db hs)

rows_have :
    (outside : Outside) (dates : Row → List ℕ) (rs : List Row) (db : Db)
    → AllDone (create_shift outside) dates rs db
    → AllHaveShifts outside dates rs db
rows_have outside dates [] db h = tt
rows_have outside dates (r ∷ rs) db (h, hs) =
    (dates_have outside r (dates r) db h, rows_have outside dates rs db hs)

all_have :
    (outside : Outside) (today window_days : ℕ) (db : Db)
    → AllHaveShifts outside
        (λ r. schedule_dates r today (today + window_days))
        (active_schedules today (today + window_days) db)
        (expand_active_recurring_schedules outside today window_days db).1
unfolding expand_active_recurring_schedules
all_have outside today window_days db = rows_have outside _ _ _ (
    rows_settle (create_shift outside) (settles outside) (stays outside)
      (λ r. schedule_dates r today (today + window_days))
      (active_schedules today (today + window_days) db) db)

date_has :
    (outside : Outside) (r : Row) (d : ℕ) (ds : List ℕ) (db : Db)
    → HaveShifts outside r ds db
    → has_date d ds ≡ true
    → has_shift outside r d db ≡ true
date_has outside r d [] db h e = absurd (ground arith)
date_has outside r d (c ∷ ds) db (h, hs) e = elim (Bool-cases (c == d)) [
  | inl same ↦ subst (λ x. has_shift outside r x db ≡ true) ((==_iff c d).0 same) h
  | inr other ↦ date_has outside r d ds db hs (ground arith)
]

module _ (outside : Outside) (dates : Row → List ℕ) (templates : Table ShiftTemplate)
    (due : ℕ × RecurringSchedule → Bool) (after : Db) where
  abbrev rows_of : Table RecurringSchedule → List Row
  rows_of t = with_templates templates (rows_where due t)

  abbrev HaveAll : Table RecurringSchedule → Type 0
  HaveAll t = AllHaveShifts outside dates (rows_of t) after

  rows_of-left :
      (x : ℕ × RecurringSchedule) (t : Table RecurringSchedule)
      → due x ≡ false
      → rows_of (x ∷ t) ≡ rows_of t
  rows_of-left x t h = rw (rows_where-cons due x t, h) refl

  kept :
      (x : ℕ × RecurringSchedule) (t : Table RecurringSchedule)
      → due x ≡ true
      → rows_where due (x ∷ t) ≡ x ∷ rows_where due t
  kept x t h = rows_where-cons due x t ∙ rw h refl

  rows_of-unjoined :
      (k : ℕ) (r : RecurringSchedule) (t : Table RecurringSchedule)
      → due (k, r) ≡ true
      → lookup r.shift_template templates ≡ none
      → rows_of ((k, r) ∷ t) ≡ rows_of t
  rows_of-unjoined k r t h e = ap (with_templates templates) (kept (k, r) t h) ∙ unjoined
    where
      unjoined : with_templates templates ((k, r) ∷ rows_where due t) ≡ rows_of t
      unjoined = ground arith

  rows_of-joined :
      (k : ℕ) (r : RecurringSchedule) (u : ShiftTemplate) (t : Table RecurringSchedule)
      → due (k, r) ≡ true
      → lookup r.shift_template templates ≡ some u
      → rows_of ((k, r) ∷ t) ≡ (k, r, u) ∷ rows_of t
  rows_of-joined k r u t h e = ap (with_templates templates) (kept (k, r) t h) ∙ joined
    where
      joined : with_templates templates ((k, r) ∷ rows_where due t) ≡ (k, r, u) ∷ rows_of t
      joined = ground arith

  -- What all rows have, all but the first have.
  have_rest :
      (x : ℕ × RecurringSchedule) (t : Table RecurringSchedule) → HaveAll (x ∷ t) → HaveAll t
  have_rest (k, r) t h = elim (Bool-cases (due (k, r))) [
    | inr out ↦ subst shifts (rows_of-left (k, r) t out) h
    | inl is_due ↦ elim (Option-cases (lookup r.shift_template templates)) [
      | inl e ↦ subst shifts (rows_of-unjoined k r t is_due e) h
      | inr (u, e) ↦ (subst shifts (rows_of-joined k r u t is_due e) h).1
    ]
  ]
    where
      shifts : List Row → Type 0
      shifts rows = AllHaveShifts outside dates rows after

  have_row :
      (pk : ℕ) (s : RecurringSchedule) (tm : ShiftTemplate)
      → due (pk, s) ≡ true
      → lookup s.shift_template templates ≡ some tm
      → (t : Table RecurringSchedule) → lookup pk t ≡ some s
      → HaveAll t
      → HaveShifts outside (pk, s, tm) (dates (pk, s, tm)) after
  have_row pk s tm d e [] row h = absurd (ground arith)
  have_row pk s tm d e ((k, r) ∷ t) row h = elim (Bool-cases (k == pk)) [
    | inl same ↦
        let is_r = pair k r ((==_iff k pk).0 same) (ground arith) in
        (subst shifts (rows_of-joined pk s tm t d e) (subst (λ x. HaveAll (x ∷ t)) is_r h)).0
    | inr other ↦ have_row pk s tm d e t (ground arith) (have_rest (k, r) t h)
  ]
    where
      shifts : List Row → Type 0
      shifts rows = AllHaveShifts outside dates rows after

      pair :
          (k : ℕ) (r : RecurringSchedule)
          → k ≡ pk
          → r ≡ s
          → ◌≡◌ {A = ℕ × RecurringSchedule} (k, r) (pk, s)
      pair k r e f = ground arith

-- After the task, a schedule that is active, of a membership of an active business, with its template,
-- has a shift at the template's time on each date of the window that is within the schedule's own
-- bounds and a whole number of its steps after its first date on the template's weekday.
pub expand_active_recurring_schedules_complete :
    (outside : Outside) (today window_days pk d : ℕ) (s : RecurringSchedule) (tm : ShiftTemplate)
    (m : BusinessMembership) (b : Business) (db : Db)
    → lookup pk db.recurring_schedules ≡ some s
    → s.is_active ≡ true
    → lookup s.membership db.memberships ≡ some m
    → lookup m.business db.businesses ≡ some b
    → b.is_active ≡ true
    → lookup s.shift_template db.shift_templates ≡ some tm
    → today ≤ d
    → d ≤ today + window_days
    → s.start_date ≤ d
    → within_end s.end_date d ≡ true
    → in_phase s.recurrence_rule (next_weekday_on_or_after s.start_date tm.day_of_week) d ≡ true
    → any_where
        (λ (_, x). x.recurring_schedule ==? pk && x.start_at == outside.make_aware d tm.start_time)
        (expand_active_recurring_schedules outside today window_days db).1.shifts
      ≡ true
unfolding active_schedules schedule_dates
expand_active_recurring_schedules_complete outside today window_days pk d s tm m b db row active
      of_member of_business in_business with_template from upto starts ends phase =
    let after = (expand_active_recurring_schedules outside today window_days db).1 in
    let due = business_lem s m b db of_member of_business in_business in
    let rows =
      have_row outside (λ r. schedule_dates r today (today + window_days)) db.shift_templates
        (is_due today (today + window_days) db) after pk s tm (due_lem s.end_date ends due)
        with_template db.recurring_schedules row (all_have outside today window_days db) in
    let dates =
      occurrence_dates_lem s.recurrence_rule s.start_date s.end_date tm.day_of_week today
        (today + window_days) d in
    date_has outside (pk, s, tm) d (schedule_dates (pk, s, tm) today (today + window_days)) after
      rows (dates ∙ rw (ends, phase) (ground arith))
  where
    business_lem :
        (s : RecurringSchedule) (m : BusinessMembership) (b : Business) (db : Db)
        → lookup s.membership db.memberships ≡ some m
        → lookup m.business db.businesses ≡ some b
        → b.is_active ≡ true
        → business_is_active s.membership db ≡ true
    business_lem s m b db e f g = ground arith

    due_lem :
        (end : Option ℕ)
        → within_end end d ≡ true
        → business_is_active s.membership db ≡ true
        → (s.is_active
            && business_is_active s.membership db
            && leb s.start_date (today + window_days)
            && not_ended end today)
          ≡ true
    due_lem none e f = rw (active, f) (ground arith)
    due_lem (some x) e f = rw (active, f) (ground arith)

-- One shift of a schedule at a time: the constraint `unique_shift_per_recurring_schedule_occurrence`.
abbrev pub IsOneShift : Db → Type 0
IsOneShift db = (schedule : ℕ) → IsUnique (of_schedule schedule) (λ s. s.start_at) db.shifts

-- The expansion never makes a second shift of a schedule at one time.
pub expand_active_recurring_schedules-IsOneShift :
    (outside : Outside) (today window_days : ℕ) (db : Db)
    → IsOneShift db
    → IsOneShift (expand_active_recurring_schedules outside today window_days db).1
unfolding expand_active_recurring_schedules
expand_active_recurring_schedules-IsOneShift outside today window_days db h =
    expand_rows_keeps (create_shift outside) IsOneShift
      (create_shift_keeps outside IsOneShift new_one)
      (λ r. schedule_dates r today (today + window_days))
      (active_schedules today (today + window_days) db) db h
  where
    new_one :
        (r : Row) (d : ℕ) (db : Db)
        → has_shift outside r d db ≡ false
        → IsOneShift db
        → IsOneShift (created outside r d db)
    new_one (pk, s, t) d db free h schedule = (one (pk == schedule) refl, h schedule)
      where
        one :
            (b : Bool)
            → (pk == schedule) ≡ b
            → (b && any_where (is_shift_at schedule (outside.make_aware d t.start_time)) db.shifts)
              ≡ false
        one false e = refl
        one true e =
            let same : pk ≡ schedule = ground arith in
            subst
              (λ j. any_where (is_shift_at j (outside.make_aware d t.start_time)) db.shifts ≡ false)
              same free
