-- ===== src/Finance/Reports/Aging.antt =====
-- What an aging report adds up to, and which rows it has.
use food_tech_crm_backend.Prelude.{
  ℕ, ◌+◌, Option, none, some, List, [], ◌∷◌, ◌≡◌, arith, refl, ◌∙◌, sym, Bool, true, false, not,
  ◌&&◌, leb, if◌then◌else◌, is_some, Bool-cases, Option-cases, inl, inr,
}
use food_tech_crm_backend.Prelude.Int.{ℤ, pos, ◌+ℤ◌, ◌-ℤ◌, leb_ℤ, sum_where, int_laws}
use food_tech_crm_backend.Finance.Reports.{
  Bucket, current, days_1_30, days_31_60, days_61_90, days_90_plus, bucket_for, Row, AgingReport,
  put_in, empty_report, add_row, aging_report, grand_total,
}

abbrev pub balance_of : Row → ℤ
balance_of row = row.total -ℤ row.paid_total

-- What the report counts: a row with a due date and something left to pay.
abbrev pub is_counted : Row → Bool
is_counted row = is_some row.due_date && not (leb_ℤ (balance_of row) (pos 0))

put_total :
    (b : Bucket) (row : Row) (x : ℤ) (r : AgingReport)
    → grand_total (put_in b row x r) ≡ x +ℤ grand_total r
unfolding grand_total
put_total current row x r = omega int_laws
put_total days_1_30 row x r = omega int_laws
put_total days_31_60 row x r = omega int_laws
put_total days_61_90 row x r = omega int_laws
put_total days_90_plus row x r = omega int_laws

add_row_lem :
    (as_of due : ℕ) (row : Row) (r : AgingReport)
    → row.due_date ≡ some due
    → add_row as_of row r ≡ (
        if leb_ℤ (balance_of row) (pos 0)
        then r
        else put_in (bucket_for as_of due) row (balance_of row) r)
unfolding add_row
add_row_lem as_of due row r e = rw e refl

add_row_undated :
    (as_of : ℕ) (row : Row) (r : AgingReport) → row.due_date ≡ none → add_row as_of row r ≡ r
unfolding add_row
add_row_undated as_of row r e = rw e refl

sum_where-cons :
    (row : Row) (rows : List Row)
    → sum_where is_counted balance_of (row ∷ rows) ≡ (
        if is_counted row
        then balance_of row +ℤ sum_where is_counted balance_of rows
        else sum_where is_counted balance_of rows)
sum_where-cons row rows = ground arith

counted_dated :
    (due : ℕ) (row : Row)
    → row.due_date ≡ some due
    → is_counted row ≡ not (leb_ℤ (balance_of row) (pos 0))
counted_dated due row e = rw e refl

counted_undated : (row : Row) → row.due_date ≡ none → is_counted row ≡ false
counted_undated row e = rw e refl

add_row_total :
    (as_of : ℕ) (row : Row) (r : AgingReport)
    → grand_total (add_row as_of row r)
      ≡ (if is_counted row then balance_of row +ℤ grand_total r else grand_total r)
add_row_total as_of row r = elim (Option-cases row.due_date) [
  | inl e ↦ rw (add_row_undated as_of row r e, counted_undated row e) refl
  | inr (due, e) ↦ elim (Bool-cases (leb_ℤ (balance_of row) (pos 0))) [
    | inl f ↦ rw (add_row_lem as_of due row r e, counted_dated due row e, f) refl
    | inr f ↦
        rw (add_row_lem as_of due row r e, counted_dated due row e, f)
          (put_total (bucket_for as_of due) row (balance_of row) r)
  ]
]

empty_total : grand_total empty_report ≡ pos 0
unfolding grand_total ◌+ℤ◌
empty_total = refl

-- The buckets of a report add up to what is left to pay of its rows that have a due date and a
-- balance above zero: each such row is counted once.
pub aging_report_total :
    (as_of : ℕ) (rows : List Row)
    → grand_total (aging_report as_of rows) ≡ sum_where is_counted balance_of rows
unfolding aging_report
aging_report_total as_of [] = empty_total
aging_report_total as_of (row ∷ rows) =
    add_row_total as_of row (aging_report as_of rows)
    ∙ rw (aging_report_total as_of rows) (sym (sum_where-cons row rows))

-- Every row of a bucket is overdue by a number of days from `least` to `most`.
abbrev is_overdue_by : ℕ → ℕ → Option ℕ → Row → Bool
is_overdue_by as_of least most row = elim row.due_date [
  | none ↦ false
  | some due ↦
      leb (due + least) as_of && elim most [ none ↦ true | some days ↦ leb as_of (due + days) ]
]

abbrev is_not_due : ℕ → Row → Bool
is_not_due as_of row = elim row.due_date [ none ↦ false | some due ↦ leb as_of due ]

abbrev pub AllRows : (Row → Bool) → List Row → Type 0
AllRows p [] = Unit
AllRows p (row ∷ rows) = (p row ≡ true) × AllRows p rows

abbrev pub IsAged : ℕ → AgingReport → Type 0
IsAged as_of r =
    AllRows (is_not_due as_of) r.current.rows
    × AllRows (is_overdue_by as_of 1 (some 30)) r.days_1_30.rows
    × AllRows (is_overdue_by as_of 31 (some 60)) r.days_31_60.rows
    × AllRows (is_overdue_by as_of 61 (some 90)) r.days_61_90.rows
    × AllRows (is_overdue_by as_of 91 none) r.days_90_plus.rows

abbrev bounds : ℕ → Bucket → Row → Bool
bounds as_of current = is_not_due as_of
bounds as_of days_1_30 = is_overdue_by as_of 1 (some 30)
bounds as_of days_31_60 = is_overdue_by as_of 31 (some 60)
bounds as_of days_61_90 = is_overdue_by as_of 61 (some 90)
bounds as_of days_90_plus = is_overdue_by as_of 91 none

in_bounds :
    (as_of due : ℕ) (row : Row) (k : Bucket)
    → row.due_date ≡ some due
    → bucket_for as_of due ≡ k
    → bounds as_of k row ≡ true
unfolding bucket_for
in_bounds as_of due row current e q = rw e (ground arith)
in_bounds as_of due row days_1_30 e q = rw e (ground arith)
in_bounds as_of due row days_31_60 e q = rw e (ground arith)
in_bounds as_of due row days_61_90 e q = rw e (ground arith)
in_bounds as_of due row days_90_plus e q = rw e (ground arith)

put_in-IsAged :
    (as_of : ℕ) (row : Row) (x : ℤ) (r : AgingReport) (k : Bucket)
    → bounds as_of k row ≡ true
    → IsAged as_of r
    → IsAged as_of (put_in k row x r)
put_in-IsAged as_of row x r current q (a, b, c, d, f) = ((q, a), b, c, d, f)
put_in-IsAged as_of row x r days_1_30 q (a, b, c, d, f) = (a, (q, b), c, d, f)
put_in-IsAged as_of row x r days_31_60 q (a, b, c, d, f) = (a, b, (q, c), d, f)
put_in-IsAged as_of row x r days_61_90 q (a, b, c, d, f) = (a, b, c, (q, d), f)
put_in-IsAged as_of row x r days_90_plus q (a, b, c, d, f) = (a, b, c, d, (q, f))

add_row-IsAged :
    (as_of : ℕ) (row : Row) (r : AgingReport) → IsAged as_of r → IsAged as_of (add_row as_of row r)
add_row-IsAged as_of row r h = elim (Option-cases row.due_date) [
  | inl e ↦ rw (add_row_undated as_of row r e) h
  | inr (due, e) ↦ elim (Bool-cases (leb_ℤ (balance_of row) (pos 0))) [
    | inl f ↦ rw (add_row_lem as_of due row r e, f) h
    | inr f ↦
        rw (add_row_lem as_of due row r e, f)
          (put_in-IsAged as_of row (balance_of row) r (bucket_for as_of due)
            (in_bounds as_of due row (bucket_for as_of due) e refl) h)
  ]
]

-- Every row of a report stands in the bucket of the days that it is overdue by: none or not yet, 1 to
-- 30, 31 to 60, 61 to 90, or more.
pub aging_report-IsAged : (as_of : ℕ) (rows : List Row) → IsAged as_of (aging_report as_of rows)
unfolding aging_report
aging_report-IsAged as_of [] = (tt, tt, tt, tt, tt)
aging_report-IsAged as_of (row ∷ rows) =
    add_row-IsAged as_of row (aging_report as_of rows) (aging_report-IsAged as_of rows)
