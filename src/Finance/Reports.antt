-- ===== src/Finance/Reports.antt =====
-- finance/reports.py: the aging of what is owed. A bucket's count is the length of its rows.
pub mod Aging
use food_tech_crm_backend.Prelude.{
  ℕ, suc, ◌+◌, ◌-◌, Option, none, some, List, [], ◌∷◌, Bool, true, false, not, ◌&&◌, ◌||◌, ◌==◌,
  leb, ltb, rows_where, if◌then◌else◌,
}
use food_tech_crm_backend.Prelude.Int.{ℤ, pos, ◌+ℤ◌, ◌-ℤ◌, leb_ℤ}
use food_tech_crm_backend.Prelude.Table.{Table, lookup, update}
use food_tech_crm_backend.Prelude.Exec.{Result, ok, err}
use food_tech_crm_backend.Finance.Db.{
  InvoiceStatus, BillStatus, Invoice, Bill, Db, paid_total, bill_paid_total,
}
use food_tech_crm_backend.Finance.Invoices as Invoices
use food_tech_crm_backend.Finance.Bills as Bills

pub data Bucket : Type 0 where
  current days_1_30 days_31_60 days_61_90 days_90_plus : Bucket

-- `_bucket_for_days_overdue`, of the days from the due date to `as_of`
unfoldable pub bucket_for : ℕ → ℕ → Bucket
bucket_for as_of due =
    let days = as_of - due in
    if leb as_of due
    then current
    else if leb days 30
    then days_1_30
    else if leb days 60
    then days_31_60
    else if leb days 90
    then days_61_90
    else days_90_plus

-- What the report reads of a document.
pub record Row : Type 0 where
  pub pk : ℕ
  pub due_date : Option ℕ
  pub total : ℤ
  pub paid_total : ℤ

pub record BucketOf : Type 0 where
  pub total : ℤ
  pub rows : List Row

pub record AgingReport : Type 0 where
  pub current : BucketOf
  pub days_1_30 : BucketOf
  pub days_31_60 : BucketOf
  pub days_61_90 : BucketOf
  pub days_90_plus : BucketOf

abbrev pub empty_bucket : BucketOf
empty_bucket = record { total = pos 0; rows = [] }

abbrev pub empty_report : AgingReport
empty_report = record {
  current = empty_bucket;
  days_1_30 = empty_bucket;
  days_31_60 = empty_bucket;
  days_61_90 = empty_bucket;
  days_90_plus = empty_bucket;
}

abbrev pub put : Row → ℤ → BucketOf → BucketOf
put row balance b = record { total = balance +ℤ b.total; rows = row ∷ b.rows }

abbrev pub put_in : Bucket → Row → ℤ → AgingReport → AgingReport
put_in current row balance r = record r { current = put row balance r.current }
put_in days_1_30 row balance r = record r { days_1_30 = put row balance r.days_1_30 }
put_in days_31_60 row balance r = record r { days_31_60 = put row balance r.days_31_60 }
put_in days_61_90 row balance r = record r { days_61_90 = put row balance r.days_61_90 }
put_in days_90_plus row balance r = record r { days_90_plus = put row balance r.days_90_plus }

-- One round of the loop: a row without a due date is excluded, and one with no balance is skipped.
unfoldable pub add_row : ℕ → Row → AgingReport → AgingReport
add_row as_of row report = elim row.due_date [
  | none ↦ report
  | some due ↦
      let balance = row.total -ℤ row.paid_total in
      if leb_ℤ balance (pos 0) then report else put_in (bucket_for as_of due) row balance report
]

-- The rows stand in the order of the query set, and so do those of a bucket.
unfoldable pub aging_report : ℕ → List Row → AgingReport
aging_report as_of [] = empty_report
aging_report as_of (row ∷ rows) = add_row as_of row (aging_report as_of rows)

abbrev pub is_owed : InvoiceStatus → Bool
is_owed InvoiceStatus.sent = true
is_owed InvoiceStatus.overdue = true
is_owed _ = false

abbrev pub owed_invoices : ℕ → Db → Table Invoice → List Row
owed_invoices business db [] = []
owed_invoices business db ((pk, v) ∷ t) =
    let rest = owed_invoices business db t in
    if v.business == business && is_owed v.status
    then record { pk = pk; due_date = v.due_date; total = v.total; paid_total = paid_total pk db }
      ∷ rest
    else rest

unfoldable pub ar_aging_report : ℕ → ℕ → Db → AgingReport
ar_aging_report business as_of db = aging_report as_of (owed_invoices business db db.invoices)

abbrev pub is_payable : BillStatus → Bool
is_payable BillStatus.received = true
is_payable BillStatus.overdue = true
is_payable _ = false

abbrev pub payable_bills : ℕ → Db → Table Bill → List Row
payable_bills business db [] = []
payable_bills business db ((pk, b) ∷ t) =
    let rest = payable_bills business db t in
    if b.business == business && is_payable b.status
    then record {
      pk = pk;
      due_date = b.due_date;
      total = b.total;
      paid_total = bill_paid_total pk db;
    }
      ∷ rest
    else rest

unfoldable pub ap_aging_report : ℕ → ℕ → Db → AgingReport
ap_aging_report business as_of db = aging_report as_of (payable_bills business db db.bills)

-- `AgingReport.grand_total`
unfoldable pub grand_total : AgingReport → ℤ
grand_total r =
    r.current.total +ℤ r.days_1_30.total +ℤ r.days_31_60.total +ℤ r.days_61_90.total
    +ℤ r.days_90_plus.total
