-- ===== src/Finance/Tests/Samples.antt =====
-- Small states for the tests of finance/services.py: an invoice for $10.00 in any status, paid or not.
use food_tech_crm_backend.Prelude.{none, [], ◌∷◌}
use food_tech_crm_backend.Prelude.Int.{pos}
use food_tech_crm_backend.Finance.Tax.{TaxType, DiscountType}
use food_tech_crm_backend.Finance.Db.{Amounts, InvoiceStatus, Method, Invoice, Db, LineItemData}
use food_tech_crm_backend.Finance.Invoices.{InvoiceInput, new_invoice}
use food_tech_crm_backend.Finance.Invoices.Receipts.{PaymentDetails, new_payment}

abbrev pub line : LineItemData
line = record { description = "Catering"; quantity = pos 200; unit_price = pos 500 }

abbrev pub input : InvoiceInput
input = record {
  business = 1;
  customer = 2;
  line_items_data = line ∷ [];
  tax_type = TaxType.zero;
  discount_type = DiscountType.none;
  discount_value = pos 0;
  due_date = none;
  notes = "";
  revenue_account = none;
  recurring_transaction = none;
  recurring_occurrence_date = none;
}

abbrev pub empty_db : Db
empty_db = record {
  invoices = [];
  invoice_line_items = [];
  payments = [];
  refunds = [];
  bills = [];
  bill_line_items = [];
  bill_payments = [];
  estimates = [];
  estimate_line_items = [];
  invoice_numbers = [];
  bill_numbers = [];
  estimate_numbers = [];
}

abbrev pub details : PaymentDetails
details = record {
  method = Method.card;
  membership = none;
  stripe_payment_intent_id = "";
  deposit_account = none;
  notes = "";
}

abbrev pub ten_dollars : Amounts
ten_dollars = record {
  discount_type = DiscountType.none;
  discount_value = pos 0;
  tax_type = TaxType.zero;
  subtotal = pos 1000;
  discount_amount = pos 0;
  taxable_amount = pos 1000;
  tax_amount = pos 0;
  total = pos 1000;
}

-- A $10.00 invoice in a status.
abbrev pub invoice_in : InvoiceStatus → Invoice
invoice_in status = record {
  business = 1;
  customer = 2;
  revenue_account = none;
  recurring_transaction = none;
  recurring_occurrence_date = none;
  invoice_number = b'7' ∷ [];
  amounts = ten_dollars;
  status = status;
  due_date = none;
  sent_at = none;
  notes = "";
}

abbrev pub the_invoice : Invoice
the_invoice = new_invoice input (b'I' ∷ b'N' ∷ b'V' ∷ b'-' ∷ b'0' ∷ b'0' ∷ b'0' ∷ b'0' ∷ b'1' ∷ [])

-- An invoice of $10.00 in a status, with a payment of $10.00 on it.
abbrev pub settled_in : InvoiceStatus → Db
settled_in status = record empty_db {
  invoices = (1, invoice_in status) ∷ [];
  payments = (5, new_payment 1 (invoice_in status) (pos 1000) details) ∷ [];
}

abbrev pub unpaid : Db
unpaid = record empty_db { invoices = (1, invoice_in InvoiceStatus.sent) ∷ [] }
