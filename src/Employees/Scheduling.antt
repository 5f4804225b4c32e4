-- ===== src/Employees/Scheduling.antt =====
-- employees/scheduling.py: recurring schedules become shifts.
pub mod Expansion
use food_tech_crm_backend.Prelude.{
  ℕ, ◌+◌, Option, none, some, List, [], ◌∷◌, Bool, true, false, not, ◌&&◌, ◌==◌, ◌==?◌, leb,
  any_where, rows_where, is_some, if◌then◌else◌, map,
}
use food_tech_crm_backend.Prelude.Table.{Table, lookup, insert}
use food_tech_crm_backend.Core.Recurrence.{occurrence_dates}
use food_tech_crm_backend.Core.Recurrence.Expansion.{expand_dates, expand_rows}
use food_tech_crm_backend.Employees.Db.{
  ShiftTemplate, RecurringSchedule, EmployeeShift, scheduled, Db,
}

-- A schedule with its key and its template.
abbrev pub Row : Type 0
Row = ℕ × RecurringSchedule × ShiftTemplate

-- What an expansion is given from outside: `make_aware` of a date and a time of day, and the key of
-- the shift that is created for a schedule and a date.
pub record Outside : Type 0 where
  pub make_aware : ℕ → ℕ → ℕ
  pub id : ℕ → ℕ → ℕ

unfoldable pub schedule_dates : Row → ℕ → ℕ → List ℕ
schedule_dates (pk, s, t) window_start window_end =
    occurrence_dates s.recurrence_rule s.start_date s.end_date t.day_of_week window_start window_end

abbrev pub of_schedule : ℕ → EmployeeShift → Bool
of_schedule schedule s = s.recurring_schedule ==? schedule

abbrev pub is_shift_at : ℕ → ℕ → ℕ × EmployeeShift → Bool
is_shift_at schedule start (_, s) = of_schedule schedule s && s.start_at == start

abbrev pub new_shift : Outside → Row → ℕ → EmployeeShift
new_shift outside (pk, s, t) date =
    let end_date = if leb t.end_time t.start_time then date + 1 else date in
    record {
      membership = s.membership;
      position = t.position;
      recurring_schedule = some pk;
      start_at = outside.make_aware date t.start_time;
      end_at = outside.make_aware end_date t.end_time;
      status = scheduled;
    }

-- `get_or_create`, and whether it created
unfoldable pub create_shift : Outside → Row → ℕ → Db → Bool × Db
create_shift outside (pk, s, t) date db =
    if any_where (is_shift_at pk (outside.make_aware date t.start_time)) db.shifts
    then (false, db)
    else (
      true,
      record db {
        shifts = insert (outside.id pk date) (new_shift outside (pk, s, t) date) db.shifts;
      },
    )

unfoldable pub expand_recurring_schedule : Outside → Row → ℕ → ℕ → Db → ℕ × Db
expand_recurring_schedule outside row window_start window_end =
    expand_dates (create_shift outside) row (schedule_dates row window_start window_end)

-- `membership__business__is_active`
abbrev pub business_is_active : ℕ → Db → Bool
business_is_active membership db = elim (lookup membership db.memberships) [
  | none ↦ false
  | some m ↦ elim (lookup m.business db.businesses) [ none ↦ false | some b ↦ b.is_active ]
]

abbrev pub not_ended : Option ℕ → ℕ → Bool
not_ended none today = true
not_ended (some end) today = leb today end

abbrev pub is_due : ℕ → ℕ → Db → ℕ × RecurringSchedule → Bool
is_due today window_end db (_, s) =
    s.is_active
    && business_is_active s.membership db
    && leb s.start_date window_end
    && not_ended s.end_date today

-- The join with the templates that `select_related` makes.
abbrev pub with_templates : Table ShiftTemplate → Table RecurringSchedule → List Row
with_templates templates [] = []
with_templates templates ((pk, s) ∷ rest) =
    let others = with_templates templates rest in
    elim (lookup s.shift_template templates) [ none ↦ others | some t ↦ (pk, s, t) ∷ others ]

unfoldable pub active_schedules : ℕ → ℕ → Db → List Row
active_schedules today window_end db =
    with_templates db.shift_templates
      (rows_where (is_due today window_end db) db.recurring_schedules)

unfoldable pub expand_active_recurring_schedules : Outside → ℕ → ℕ → Db → ℕ × Db
expand_active_recurring_schedules outside today window_days db =
    let window_end = today + window_days in
    expand_rows (create_shift outside) (λ r. schedule_dates r today window_end)
      (active_schedules today window_end db) db
