-- ===== src/Core/Recurrence/Dates.antt =====
-- The dates of a weekly or biweekly rule: which they are, whatever the window.
use food_tech_crm_backend.Prelude.{
  ℕ, zero, suc, ◌+◌, ◌-◌, ◌%◌, ◌≤◌, ◌<◌, Option, none, some, List, [], ◌∷◌, ◌≡◌, arith, Bool, true,
  false, ◌&&◌, ◌||◌, ltb, leb, ◌==◌, Bool-cases, inl, inr, if◌then◌else◌,
}
use food_tech_crm_backend.Core.Recurrence.{
  Rule, weekly, biweekly, step_days, weekday, next_weekday_on_or_after, first_occurrence,
  dates_from, effective_end_of, occurrence_dates,
}

abbrev pub has_date : ℕ → List ℕ → Bool
has_date d [] = false
has_date d (x ∷ xs) = (x == d) || has_date d xs

-- Enough rounds reach every date of the step up to the end.
dates_from_has :
    (fuel : ℕ) (rule : Rule) (current end d : ℕ)
    → suc end ≤ fuel + current
    → has_date d (dates_from fuel (step_days rule) current end)
      ≡ (leb current d && leb d end && (d - current) % step_days rule == 0)
unfolding dates_from
dates_from_has zero rule current end d enough = ground arith
dates_from_has (suc fuel) weekly current end d enough =
    let rest = dates_from_has fuel weekly (current + 7) end d (omega arith) in
    elim (Bool-cases (leb current end)) [
      | inl e ↦ rw (e, rest) (ground arith)
      | inr e ↦ rw e (ground arith)
    ]
dates_from_has (suc fuel) biweekly current end d enough =
    let rest = dates_from_has fuel biweekly (current + 14) end d (omega arith) in
    elim (Bool-cases (leb current end)) [
      | inl e ↦ rw (e, rest) (ground arith)
      | inr e ↦ rw e (ground arith)
    ]

-- Whether a date is one of the rule that has its first date at `anchor`.
abbrev pub in_phase : Rule → ℕ → ℕ → Bool
in_phase rule anchor d = leb anchor d && (d - anchor) % step_days rule == 0

first_occurrence_lem :
    (rule : Rule) (anchor effective_start d : ℕ)
    → (leb (first_occurrence rule anchor effective_start) d
        && (d - first_occurrence rule anchor effective_start) % step_days rule == 0)
      ≡ (leb effective_start d && in_phase rule anchor d)
unfolding first_occurrence
first_occurrence_lem weekly anchor effective_start d = ground arith
first_occurrence_lem biweekly anchor effective_start d = ground arith

-- Asked for a weekday from 0 to 6, it gives a date of that weekday, not before the start and less than
-- a week after it.
pub next_weekday_lands :
    (start target : ℕ)
    → target < 7
    → (weekday (next_weekday_on_or_after start target) ≡ target)
      × (start ≤ next_weekday_on_or_after start target)
      × (next_weekday_on_or_after start target < start + 7)
unfolding next_weekday_on_or_after
next_weekday_lands start target h = omega arith

-- Whether a date is not past the end of the rule.
abbrev pub within_end : Option ℕ → ℕ → Bool
within_end none d = true
within_end (some rule_end) d = leb d rule_end

effective_end_lem :
    (rule_end : Option ℕ) (window_end d : ℕ)
    → leb d (effective_end_of rule_end window_end) ≡ (leb d window_end && within_end rule_end d)
effective_end_lem none window_end d = ground arith
effective_end_lem (some rule_end) window_end d = ground arith

window_dates :
    (rule : Rule) (anchor effective_start effective_end d : ℕ)
    → let first = first_occurrence rule anchor effective_start in
      has_date d (
        if ltb effective_end effective_start
        then []
        else dates_from (suc effective_end - first) (step_days rule) first effective_end)
      ≡ (leb effective_start d && leb d effective_end && in_phase rule anchor d)
window_dates rule anchor effective_start effective_end d =
    let first = first_occurrence rule anchor effective_start in
    let dates =
      dates_from_has (suc effective_end - first) rule first effective_end d (omega arith) in
    let phase = first_occurrence_lem rule anchor effective_start d in
    elim (Bool-cases (ltb effective_end effective_start)) [
      | inl e ↦ rw e (ground arith)
      | inr e ↦ rw (e, dates) (ground (arith, phase))
    ]

-- The dates of a rule in a window are those, and only those, that lie in the window and within the
-- rule's own bounds and a whole number of steps after the rule's first date; so the phase of a
-- biweekly rule does not depend on the window, and the loop reaches every one of them.
pub occurrence_dates_lem :
    (rule : Rule) (start : ℕ) (rule_end : Option ℕ) (target window_start window_end d : ℕ)
    → has_date d (occurrence_dates rule start rule_end target window_start window_end) ≡ (
        leb window_start d
        && leb start d
        && leb d window_end
        && within_end rule_end d
        && in_phase rule (next_weekday_on_or_after start target) d)
unfolding occurrence_dates
occurrence_dates_lem rule start rule_end target window_start window_end d =
    let effective_start = if ltb start window_start then window_start else start in
    let dates =
      window_dates rule (next_weekday_on_or_after start target) effective_start
        (effective_end_of rule_end window_end) d in
    let ends = effective_end_lem rule_end window_end d in rw dates (rw ends (ground arith))
