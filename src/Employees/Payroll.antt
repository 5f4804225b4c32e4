-- ===== src/Employees/Payroll.antt =====
-- employees/payroll.py: a pay stub from the hours worked. Hours are in hundredths, rates and amounts in
-- cents; seconds are summed exactly before they are rounded to hundredths of an hour.
pub mod Hours
pub mod Pay
use food_tech_crm_backend.Prelude.{
  ℕ, suc, ◌+◌, ◌*◌, ◌/◌, ◌%◌, Option, none, some, List, [], ◌∷◌, Bool, true, false, not, ◌&&◌, ◌==◌,
  ltb, leb, any_where, rows_where, if◌then◌else◌,
}
use food_tech_crm_backend.Prelude.Int.{ℤ, pos, negsuc, neg, sub_ℕ, ◌+ℤ◌, ◌-ℤ◌, ◌*ℤ◌, max_ℤ, min_ℤ}
use food_tech_crm_backend.Prelude.Table.{Table, insert}
use food_tech_crm_backend.Prelude.Exec.{
  Exec, Result, ok, err, pure, raise, gets, or_raise, atomic, raise_if, modify, ◌>>=◌, ◌>>◌,
}
use food_tech_crm_backend.Employees.Db.{
  TimeEntry, TimeEntryBreak, Position, WeekBreakdown, PayStub, Db, Error, pay_stub_already_exists,
  type_error, Service,
}
use food_tech_crm_backend.Employees.TimeTracking.{is_clocked_in}

-- Python's `quantize` with the context's ROUND_HALF_EVEN, of a value with 2 * `half` units to the
-- last place that is kept.
abbrev pub half_even : ℕ → ℕ → ℕ
half_even half n =
    let q = n / (2 * half) in
    let r = n % (2 * half) in if ltb r half then q else if ltb half r then suc q else q + q % 2

unfoldable pub quantize : ℕ → ℤ → ℤ
quantize half (pos n) = pos (half_even half n)
quantize half (negsuc n) = neg (pos (half_even half (suc n)))

-- The length of a break that was ended, in seconds; an open one does not count.
abbrev pub break_seconds : ℕ × TimeEntryBreak → ℤ
break_seconds (_, b) = elim b.break_end_at [ none ↦ pos 0 | some e ↦ sub_ℕ e b.break_start_at ]

-- `sum(...)` over the entry's breaks
abbrev pub break_total : ℕ → Table TimeEntryBreak → ℤ
break_total entry [] = pos 0
break_total entry ((k, b) ∷ t) =
    let rest = break_total entry t in
    if b.time_entry == entry then break_seconds (k, b) +ℤ rest else rest

-- `worked - break_total`, which fails where the entry has no end
abbrev pub net_seconds : Table TimeEntryBreak → ℕ × TimeEntry → Option ℤ
net_seconds breaks (id, e) = elim e.clock_out_at [
  | none ↦ none
  | some out ↦ some (sub_ℕ out e.clock_in_at -ℤ break_total id breaks)
]

-- The completed entries of the period, by the date on which they began; `date_of` gives the date of a
-- time where the server is.
abbrev pub in_period : (ℕ → ℕ) → ℕ → ℕ → ℕ → ℕ × TimeEntry → Bool
in_period date_of membership start end (_, e) =
    e.membership == membership
    && not (is_clocked_in e)
    && leb start (date_of e.clock_in_at)
    && leb (date_of e.clock_in_at) end

-- The ISO week of a time, as the number of its Monday-to-Sunday week: it stands for `(iso_year,
-- iso_week)`, whose order it has. The time 0 is the midnight that begins the ordinal 0.
abbrev pub week_of : ℕ → ℕ
week_of time = (time / 86400 + 6) / 7

-- `hours_by_week[week] += ...`, in seconds; the dictionary is kept in the order of `sorted`.
abbrev pub add_to_week : ℕ → ℤ → List (ℕ × ℤ) → List (ℕ × ℤ)
add_to_week week x [] = (week, x) ∷ []
add_to_week week x ((w, y) ∷ rest) =
    let later = add_to_week week x rest in
    if week == w
    then (w, y +ℤ x) ∷ rest
    else if ltb week w
    then (week, x) ∷ (w, y) ∷ rest
    else (w, y) ∷ later

abbrev pub add_entry : ℕ → Option ℤ → Option (List (ℕ × ℤ)) → Option (List (ℕ × ℤ))
add_entry week none weeks = none
add_entry week (some x) none = none
add_entry week (some x) (some weeks) = some (add_to_week week x weeks)

-- `none` where an entry has no end.
abbrev pub seconds_by_week : Table TimeEntryBreak → Table TimeEntry → Option (List (ℕ × ℤ))
seconds_by_week breaks [] = some []
seconds_by_week breaks ((id, e) ∷ t) =
    add_entry (week_of e.clock_in_at) (net_seconds breaks (id, e)) (seconds_by_week breaks t)

unfoldable pub worked_seconds_by_iso_week : (ℕ → ℕ) → ℕ → ℕ → ℕ → Db → Option (List (ℕ × ℤ))
worked_seconds_by_iso_week date_of membership start end db =
    seconds_by_week db.breaks (rows_where (in_period date_of membership start end) db.time_entries)

-- A week's seconds as hours, split at the threshold; 36 seconds are a hundredth of an hour.
unfoldable pub split_week : ℤ → ℕ × ℤ → WeekBreakdown
split_week threshold (week, seconds) =
    let worked = quantize 18 seconds in
    record {
      iso_week = week;
      worked_hours = worked;
      regular_hours = min_ℤ worked threshold;
      overtime_hours = max_ℤ (pos 0) (worked -ℤ threshold);
    }

abbrev pub split_weeks : ℤ → List (ℕ × ℤ) → List WeekBreakdown
split_weeks threshold [] = []
split_weeks threshold (w ∷ ws) = split_week threshold w ∷ split_weeks threshold ws

abbrev pub total_of : (WeekBreakdown → ℤ) → List WeekBreakdown → ℤ
total_of f [] = pos 0
total_of f (w ∷ ws) = f w +ℤ total_of f ws

-- The rate of an hour of overtime: 1.5 times the regular rate.
unfoldable pub overtime_rate_of : ℤ → ℤ
overtime_rate_of rate = quantize 1 (rate *ℤ pos 3)

unfoldable pub gross_pay_of : ℤ → ℤ → ℤ → ℤ
gross_pay_of rate regular overtime =
    quantize 50 (regular *ℤ rate +ℤ overtime *ℤ overtime_rate_of rate)

-- PLACEHOLDER_FLAT_TAX_RATE = 0.15
unfoldable pub tax_of : ℤ → ℤ
tax_of gross = quantize 50 (gross *ℤ pos 15)

abbrev pub is_stub_of : ℕ → ℕ → ℕ → ℕ × PayStub → Bool
is_stub_of membership start end (_, s) =
    s.membership == membership && s.pay_period_start == start && s.pay_period_end == end

unfoldable pub new_stub : ℕ → ℕ × Position → ℕ → ℕ → List WeekBreakdown → PayStub
new_stub membership (position, p) start end weeks =
    let regular = total_of (λ w. w.regular_hours) weeks in
    let overtime = total_of (λ w. w.overtime_hours) weeks in
    let gross = gross_pay_of p.hourly_rate regular overtime in
    let tax = tax_of gross in
    record {
      membership = membership;
      position = position;
      pay_period_start = start;
      pay_period_end = end;
      regular_hours = regular;
      overtime_hours = overtime;
      gross_pay = gross;
      net_pay = gross -ℤ tax;
      overtime_rate = overtime_rate_of p.hourly_rate;
      tax_amount = tax;
      weekly_breakdown = weeks;
    }

-- `extra_settings.get("overtime_threshold_hours", 40)`
abbrev pub threshold_or_default : Option ℤ → ℤ
threshold_or_default none = pos 4000
threshold_or_default (some t) = t

abbrev pub store_stub : ℕ → PayStub → Db → Db
store_stub id s db = record db { pay_stubs = insert id s db.pay_stubs }

unfoldable pub generate_pay_stub :
    ℕ → (ℕ → ℕ) → Option ℤ → ℕ → ℕ × Position → ℕ → ℕ → Service PayStub
generate_pay_stub id date_of setting membership position start end = atomic (do
  raise_if (← gets (λ db. any_where (is_stub_of membership start end) db.pay_stubs))
      pay_stub_already_exists
  weeks ← or_raise (← gets (worked_seconds_by_iso_week date_of membership start end)) type_error
  let stub =
      new_stub membership position start end (split_weeks (threshold_or_default setting) weeks)
  modify (store_stub id stub)
  pure stub)
