-- ===== src/Core/Recurrence.antt =====
-- core/recurrence.py: the dates of a weekly or biweekly rule. A date is its proleptic ordinal, so that
-- a weekday is a remainder; the monthly rule, which steps through the calendar, is left out.
pub mod Dates
pub mod Expansion
use food_tech_crm_backend.Prelude.{
  ℕ, zero, suc, ◌+◌, ◌-◌, ◌%◌, Option, none, some, List, [], ◌∷◌, Bool, true, false, ltb, leb, ◌==◌,
  min, max, if◌then◌else◌,
}

-- `date.weekday()`: the ordinal 1 is a Monday, and Monday is 0
abbrev pub weekday : ℕ → ℕ
weekday date = (date + 6) % 7

-- the remainder of Python's `%` of a difference of weekdays, which is not negative
unfoldable pub next_weekday_on_or_after : ℕ → ℕ → ℕ
next_weekday_on_or_after start_date target = start_date + (target + 7 - weekday start_date) % 7

pub data Rule : Type 0 where
  weekly biweekly : Rule

abbrev pub step_days : Rule → ℕ
step_days weekly = 7
step_days biweekly = 14

-- The first date of the rule from `effective_start` on.
unfoldable pub first_occurrence : Rule → ℕ → ℕ → ℕ
first_occurrence rule anchor effective_start =
    if leb effective_start anchor
    then anchor
    else let remainder = (effective_start - anchor) % step_days rule in
      if remainder == 0 then effective_start else effective_start + (step_days rule - remainder)

-- `while current <= effective_end`; the loop ends within as many rounds as there are days left.
unfoldable pub dates_from : ℕ → ℕ → ℕ → ℕ → List ℕ
dates_from zero step current effective_end = []
dates_from (suc fuel) step current effective_end =
    let rest = dates_from fuel step (current + step) effective_end in
    if leb current effective_end then current ∷ rest else []

abbrev pub effective_end_of : Option ℕ → ℕ → ℕ
effective_end_of none window_end = window_end
effective_end_of (some rule_end) window_end =
    if ltb window_end rule_end then window_end else rule_end

unfoldable pub occurrence_dates : Rule → ℕ → Option ℕ → ℕ → ℕ → ℕ → List ℕ
occurrence_dates rule anchor_start_date rule_end_date weekday_target window_start window_end =
    let effective_start =
      if ltb anchor_start_date window_start then window_start else anchor_start_date in
    let effective_end = effective_end_of rule_end_date window_end in
    let anchor = next_weekday_on_or_after anchor_start_date weekday_target in
    let first = first_occurrence rule anchor effective_start in
    if ltb effective_end effective_start
    then []
    else dates_from (suc effective_end - first) (step_days rule) first effective_end
