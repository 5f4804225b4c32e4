-- ===== src/Finance/Db.antt =====
-- finance/models.py: the rows of the finance tables, and the state that the services change.
-- Primary keys and foreign keys are numbers; a date is a day number, a time is a number of seconds.
-- The audit columns created_at and updated_at, which no service reads, are left out.
use food_tech_crm_backend.Prelude.{ℕ, String, Option, none, some, List, Bool, false, ◌==?◌, map}
use food_tech_crm_backend.Prelude.Int.{ℤ, ◌-ℤ◌, sum_where}
use food_tech_crm_backend.Prelude.Table.{Table, lookup}
use food_tech_crm_backend.Prelude.Exec.{Exec}
use food_tech_crm_backend.Finance.Tax.{TaxType, DiscountType, TaxLineItem, calculate_totals}

-- The tax and discount inputs of a document, and the totals computed from them.
pub record Amounts : Type 0 where
  pub discount_type : DiscountType
  pub discount_value : ℤ
  pub tax_type : TaxType
  pub subtotal : ℤ
  pub discount_amount : ℤ
  pub taxable_amount : ℤ
  pub tax_amount : ℤ
  pub total : ℤ

pub data InvoiceStatus : Type 0 where
  draft sent paid overdue cancelled refunded : InvoiceStatus

pub data BillStatus : Type 0 where
  draft received paid overdue cancelled : BillStatus

pub data EstimateStatus : Type 0 where
  draft sent accepted declined converted : EstimateStatus

pub data Method : Type 0 where
  cash card bank_transfer stripe check other : Method

pub record Invoice : Type 0 where
  pub business : ℕ
  pub customer : ℕ
  pub revenue_account : Option ℕ
  pub recurring_transaction : Option ℕ
  pub recurring_occurrence_date : Option ℕ
  pub invoice_number : List ℕ
  pub amounts : Amounts
  pub open amounts use *
  pub status : InvoiceStatus
  pub due_date : Option ℕ
  pub sent_at : Option ℕ
  pub notes : String

-- A row of InvoiceLineItem, BillLineItem or EstimateLineItem: quantity and price in hundredths.
pub record LineItem : Type 0 where
  pub document : ℕ
  pub description : String
  pub quantity : ℤ
  pub unit_price : ℤ
  pub sort_order : ℕ

pub record Payment : Type 0 where
  pub business : ℕ
  pub invoice : Option ℕ
  pub deposit_account : Option ℕ
  pub amount : ℤ
  pub method : Method
  pub stripe_payment_intent_id : String
  pub notes : String
  pub created_by : Option ℕ

pub record Refund : Type 0 where
  pub business : ℕ
  pub payment : ℕ
  pub amount : ℤ
  pub reason : String
  pub created_by : Option ℕ

pub record Bill : Type 0 where
  pub business : ℕ
  pub vendor : ℕ
  pub expense_account : Option ℕ
  pub recurring_transaction : Option ℕ
  pub recurring_occurrence_date : Option ℕ
  pub bill_number : List ℕ
  pub amounts : Amounts
  pub open amounts use *
  pub status : BillStatus
  pub due_date : Option ℕ
  pub received_at : Option ℕ
  pub notes : String

pub record BillPayment : Type 0 where
  pub business : ℕ
  pub bill : ℕ
  pub payment_account : Option ℕ
  pub amount : ℤ
  pub method : Method
  pub notes : String
  pub created_by : Option ℕ

pub record Estimate : Type 0 where
  pub business : ℕ
  pub customer : ℕ
  pub estimate_number : List ℕ
  pub amounts : Amounts
  pub open amounts use *
  pub status : EstimateStatus
  pub expires_at : Option ℕ
  pub notes : String
  pub converted_invoice : Option ℕ

-- The tables. Those with a primary key hold the newest row first; a document's line items stand in
-- the order of `bulk_create`, which is that of `sort_order`.
pub record Db : Type 0 where
  pub invoices : Table Invoice
  pub invoice_line_items : List LineItem
  pub payments : Table Payment
  pub refunds : Table Refund
  pub bills : Table Bill
  pub bill_line_items : List LineItem
  pub bill_payments : Table BillPayment
  pub estimates : Table Estimate
  pub estimate_line_items : List LineItem
  pub invoice_numbers : Table ℕ
  pub bill_numbers : Table ℕ
  pub estimate_numbers : Table ℕ

-- FinanceError and its subclasses, and the database's own exceptions.
pub data Error : Type 0 where
  invalid_invoice_state invalid_bill_state invalid_estimate_state refund_error : Error
  overpayment : ℤ → ℤ → ℤ → Error
  over_refund : ℤ → ℤ → ℤ → Error
  does_not_exist integrity_error database_error : Error

abbrev pub Service : Type 0 → Type 0
Service = Exec Db Error

-- An entry of `line_items_data`.
pub record LineItemData : Type 0 where
  pub description : String
  pub quantity : ℤ
  pub unit_price : ℤ

abbrev pub line_item_for_tax : LineItemData → TaxLineItem
line_item_for_tax d = record { quantity = d.quantity; rate = d.unit_price }

abbrev pub line_items_for_tax : List LineItemData → List TaxLineItem
line_items_for_tax = map line_item_for_tax

unfoldable pub apply_totals : Amounts → List LineItemData → Amounts
apply_totals document line_items_data =
    let result =
      calculate_totals (line_items_for_tax line_items_data) document.discount_type
        document.discount_value document.tax_type in
    record document {
      subtotal = result.subtotal;
      discount_amount = result.discount;
      taxable_amount = result.taxable_amount;
      tax_amount = result.tax;
      total = result.total;
    }

abbrev pub of_invoice : ℕ → ℕ × Payment → Bool
of_invoice invoice (_, p) = p.invoice ==? invoice

abbrev pub payment_amount : ℕ × Payment → ℤ
payment_amount (_, p) = p.amount

abbrev pub refund_amount : ℕ × Refund → ℤ
refund_amount (_, r) = r.amount

-- `Invoice.paid_total`
unfoldable pub paid_total : ℕ → Db → ℤ
paid_total invoice db = sum_where (of_invoice invoice) payment_amount db.payments

-- `Refund.objects.filter(payment__invoice_id=...)`
abbrev pub refunds_invoice : Table Payment → ℕ → ℕ × Refund → Bool
refunds_invoice payments invoice (_, r) = elim (lookup r.payment payments) [
  | none ↦ false
  | some p ↦ p.invoice ==? invoice
]

-- `Invoice.refunded_total`
unfoldable pub refunded_total : ℕ → Db → ℤ
refunded_total invoice db = sum_where (refunds_invoice db.payments invoice) refund_amount db.refunds

-- `Invoice.net_paid_total`
unfoldable pub net_paid_total : ℕ → Db → ℤ
net_paid_total invoice db = paid_total invoice db -ℤ refunded_total invoice db

abbrev pub of_bill : ℕ → ℕ × BillPayment → Bool
of_bill bill (_, p) = some p.bill ==? bill

abbrev pub bill_payment_amount : ℕ × BillPayment → ℤ
bill_payment_amount (_, p) = p.amount

-- `Bill.paid_total`
unfoldable pub bill_paid_total : ℕ → Db → ℤ
bill_paid_total bill db = sum_where (of_bill bill) bill_payment_amount db.bill_payments
