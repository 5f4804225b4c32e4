-- ===== src/Employees/Payroll/Hours.antt =====
-- Where the hours of a pay stub come from.
use food_tech_crm_backend.Prelude.{
  ℕ, Option, none, some, List, [], ◌∷◌, ◌≡◌, arith, refl, ap, ◌∙◌, Bool, true, false, ◌==◌, ltb,
  rows_where, is_some, if◌then◌else◌,
}
use food_tech_crm_backend.Prelude.Int.{ℤ, pos, ◌+ℤ◌, ◌-ℤ◌, max_ℤ, min_ℤ, ◌≤ℤ◌, int_laws, +ℤ-zero}
use food_tech_crm_backend.Prelude.Queries.{rows_where-cons}
use food_tech_crm_backend.Prelude.Table.{Table}
use food_tech_crm_backend.Employees.Db.{TimeEntry, TimeEntryBreak, Db}
use food_tech_crm_backend.Employees.Payroll.{
  quantize, net_seconds, in_period, week_of, add_to_week, add_entry, seconds_by_week,
  worked_seconds_by_iso_week, split_week, split_weeks, total_of,
}
use food_tech_crm_backend.Employees.OpenRows.{AreSound}

split_at :
    (a t : ℤ)
    → (min_ℤ a t +ℤ max_ℤ (pos 0) (a -ℤ t) ≡ a)
      × (min_ℤ a t ≤ℤ t)
      × (pos 0 ≤ℤ max_ℤ (pos 0) (a -ℤ t))
unfolding ◌+ℤ◌ ◌-ℤ◌
split_at a t = (ground arith, ground arith, ground arith)

-- A week's hours are divided exactly: the regular and the overtime hours add up to the hours worked,
-- the regular ones are at most the threshold, and the overtime is not negative.
pub split_week_lem :
    (threshold : ℤ) (w : ℕ × ℤ)
    → let s = split_week threshold w in
      (s.regular_hours +ℤ s.overtime_hours ≡ s.worked_hours)
      × (s.regular_hours ≤ℤ threshold)
      × (pos 0 ≤ℤ s.overtime_hours)
unfolding split_week
split_week_lem threshold (week, seconds) = split_at (quantize 18 seconds) threshold

interchange : (a b c d : ℤ) → a +ℤ b +ℤ (c +ℤ d) ≡ (a +ℤ c) +ℤ (b +ℤ d)
interchange a b c d = omega int_laws

-- So over all weeks.
pub split_weeks_total :
    (threshold : ℤ) (ws : List (ℕ × ℤ))
    → let weeks = split_weeks threshold ws in
      total_of (λ w. w.regular_hours) weeks +ℤ total_of (λ w. w.overtime_hours) weeks
      ≡ total_of (λ w. w.worked_hours) weeks
split_weeks_total threshold [] = +ℤ-zero (pos 0)
split_weeks_total threshold (w ∷ ws) =
    interchange _ _ _ _
    ∙ (rw (split_weeks_total threshold ws) (
        ap (λ x. x +ℤ total_of (λ w. w.worked_hours) (split_weeks threshold ws))
          (split_week_lem threshold w).0))

-- The sum of all weeks.
abbrev pub sum_weeks : List (ℕ × ℤ) → ℤ
sum_weeks [] = pos 0
sum_weeks ((_, x) ∷ ws) = x +ℤ sum_weeks ws

abbrev pub sum_seconds : Table TimeEntryBreak → Table TimeEntry → ℤ
sum_seconds breaks [] = pos 0
sum_seconds breaks ((id, e) ∷ t) = elim (net_seconds breaks (id, e)) [
  | none ↦ sum_seconds breaks t
  | some x ↦ x +ℤ sum_seconds breaks t
]

add_to_week_sum :
    (week : ℕ) (x : ℤ) (ws : List (ℕ × ℤ)) → sum_weeks (add_to_week week x ws) ≡ x +ℤ sum_weeks ws
add_to_week_sum week x [] = refl
add_to_week_sum week x ((w, y) ∷ ws) = cases (week == w) (ltb week w) (add_to_week_sum week x ws)
  where
    cases :
        (b c : Bool)
        → sum_weeks (add_to_week week x ws) ≡ x +ℤ sum_weeks ws
        → sum_weeks (
            if b
            then (w, y +ℤ x) ∷ ws
            else if c
            then (week, x) ∷ (w, y) ∷ ws
            else (w, y) ∷ add_to_week week x ws)
          ≡ x +ℤ (y +ℤ sum_weeks ws)
    cases true c h = omega int_laws
    cases false true h = refl
    cases false false h = rw h (omega int_laws)

abbrev HasEnds : Table TimeEntry → Type 0
HasEnds [] = Unit
HasEnds ((_, e) ∷ t) = (is_some e.clock_out_at ≡ true) × HasEnds t

-- The weeks of some entries, and what they sum to.
abbrev pub SumsTo : ℤ → Option (List (ℕ × ℤ)) → Type 0
SumsTo x none = ⊥
SumsTo x (some ws) = sum_weeks ws ≡ x

seconds_by_week-SumsTo :
    (breaks : Table TimeEntryBreak) (t : Table TimeEntry)
    → HasEnds t
    → SumsTo (sum_seconds breaks t) (seconds_by_week breaks t)
seconds_by_week-SumsTo breaks [] h = refl
seconds_by_week-SumsTo breaks ((id, e) ∷ t) (ends, h) =
    cases (net_seconds breaks (id, e)) (has_net ends) (seconds_by_week breaks t)
      (seconds_by_week-SumsTo breaks t h)
  where
    has_net : is_some e.clock_out_at ≡ true → is_some (net_seconds breaks (id, e)) ≡ true
    has_net h = ground arith

    cases :
        (o : Option ℤ)
        → is_some o ≡ true
        → (weeks : Option (List (ℕ × ℤ))) → SumsTo (sum_seconds breaks t) weeks
        → SumsTo
            (elim o [ none ↦ sum_seconds breaks t | some x ↦ x +ℤ sum_seconds breaks t ])
            (add_entry (week_of e.clock_in_at) o weeks)
    cases (some x) i (some ws) k = add_to_week_sum (week_of e.clock_in_at) x ws ∙ ap (λ y. x +ℤ y) k
    cases (some x) i none k = k
    cases none i weeks k = absurd (ground arith)

completed-HasEnds :
    (date_of : ℕ → ℕ) (membership start end : ℕ) (t : Table TimeEntry)
    → AreSound t
    → HasEnds (rows_where (in_period date_of membership start end) t)
completed-HasEnds date_of membership start end [] h = tt
completed-HasEnds date_of membership start end ((id, e) ∷ t) (s, h) =
    rw (rows_where-cons (in_period date_of membership start end) (id, e) t) (
      row (in_period date_of membership start end (id, e)) refl
        (completed-HasEnds date_of membership start end t h))
  where
    row :
        (b : Bool)
        → in_period date_of membership start end (id, e) ≡ b
        → HasEnds (rows_where (in_period date_of membership start end) t)
        → HasEnds (
            if b
            then (id, e) ∷ rows_where (in_period date_of membership start end) t
            else rows_where (in_period date_of membership start end) t)
    row true q k = (ground arith, k)
    row false q k = k

-- The seconds of a pay stub's weeks are those of the entries: where every entry has an end exactly
-- when it is clocked out, the weeks are found, and together they have the time from clock-in to
-- clock-out, less the breaks that were ended, of every completed entry that began in the period.
pub worked_seconds_total :
    (date_of : ℕ → ℕ) (membership start end : ℕ) (db : Db)
    → AreSound db.time_entries
    → SumsTo
        (sum_seconds db.breaks
          (rows_where (in_period date_of membership start end) db.time_entries))
        (worked_seconds_by_iso_week date_of membership start end db)
unfolding worked_seconds_by_iso_week
worked_seconds_total date_of membership start end db h =
    seconds_by_week-SumsTo db.breaks _
      (completed-HasEnds date_of membership start end db.time_entries h)
