-- ===== src/Finance/Recurring/Expansion.antt =====
-- What the expansion of recurring transactions comes to: every date has one document, or none that can
-- be made.
use food_tech_crm_backend.Prelude.{
  ℕ, ◌+◌, Option, none, some, Option-cases, ◌++◌, ◌≡◌, arith, refl, sym, subst, ap, ◌∙◌, Bool, true,
  false, ◌||◌, ◌==◌, Bool-cases, inl, inr, ◌⊎◌, any_where, rows_where, if◌then◌else◌,
}
use food_tech_crm_backend.Prelude.Queries.{any_where-later}
use food_tech_crm_backend.Prelude.Table.{Table, lookup, insert, lookup-update}
use food_tech_crm_backend.Core.Recurrence.Expansion.{expand_rows-twice, IsDone}
use food_tech_crm_backend.Finance.Numbering.{number_text, next_of, advance}
use food_tech_crm_backend.Finance.Db.{Db}
use food_tech_crm_backend.Finance.Invoices.{
  InvoiceInput, create_invoice, new_invoice, inv, line_items, violates_unique,
  generate_invoice_number,
}
use food_tech_crm_backend.Finance.Invoices as Invoices
use food_tech_crm_backend.Finance.Bills.{
  BillInput, create_bill, new_bill, generate_bill_number, bill_prefix,
}
use food_tech_crm_backend.Finance.Bills as Bills
use food_tech_crm_backend.Finance.Recurring.{
  Kind, invoice, bill, RecurringTransaction, Row, invoice_input, bill_input, already_exists,
  returned, create_document, create_occurrence, transaction_dates, is_due,
  expand_active_recurring_transactions,
}

-- The next invoice number of a business is one that its invoices have already.
abbrev pub invoice_number_taken : ℕ → Db → Bool
invoice_number_taken business db =
    any_where (Invoices.has_number business (number_text inv (next_of business db.invoice_numbers)))
      db.invoices

abbrev pub bill_number_taken : ℕ → Db → Bool
bill_number_taken business db =
    any_where
      (Bills.has_number business (number_text bill_prefix (next_of business db.bill_numbers)))
      db.bills

abbrev stored_invoice : ℕ → InvoiceInput → Db → Db
stored_invoice id input db = record db {
  invoices =
      insert id (new_invoice input (number_text inv (next_of input.business db.invoice_numbers)))
        db.invoices;
  invoice_line_items = db.invoice_line_items ++ line_items id 0 input.line_items_data;
  invoice_numbers = advance input.business db.invoice_numbers;
}

abbrev stored_bill : ℕ → BillInput → Db → Db
stored_bill id input db = record db {
  bills =
      insert id (new_bill input (number_text bill_prefix (next_of input.business db.bill_numbers)))
        db.bills;
  bill_line_items = db.bill_line_items ++ line_items id 0 input.line_items_data;
  bill_numbers = advance input.business db.bill_numbers;
}

created_invoice :
    (id : ℕ) (row : Row) (customer date : ℕ) (db : Db)
    → any_where (Invoices.is_occurrence row.0 date) db.invoices ≡ false
    → returned (create_invoice id (invoice_input row customer date) db) ≡ (
        if invoice_number_taken row.1.business db
        then (false, db)
        else (true, stored_invoice id (invoice_input row customer date) db))
unfolding create_invoice generate_invoice_number violates_unique new_invoice
created_invoice id (pk, r) customer date db free = ground arith

created_bill :
    (id : ℕ) (row : Row) (vendor date : ℕ) (db : Db)
    → any_where (Bills.is_occurrence row.0 date) db.bills ≡ false
    → returned (create_bill id (bill_input row vendor date) db) ≡ (
        if bill_number_taken row.1.business db
        then (false, db)
        else (true, stored_bill id (bill_input row vendor date) db))
unfolding create_bill generate_bill_number Bills.violates_unique new_bill
created_bill id (pk, r) vendor date db free = ground arith

-- Why no document can be made for a row: it has no customer or no vendor, or the number is taken.
abbrev pub is_stuck : Row → Db → Bool
is_stuck (pk, r) db = elim r.kind [
  | invoice ↦ elim r.customer [ none ↦ true | some _ ↦ invoice_number_taken r.business db ]
  | bill ↦ elim r.vendor [ none ↦ true | some _ ↦ bill_number_taken r.business db ]
]

abbrev stored : (ℕ → ℕ → ℕ) → Row → ℕ → Db → Db
stored id (pk, r) date db = elim r.kind [
  | invoice ↦ elim r.customer [
    | none ↦ db
    | some c ↦ stored_invoice (id pk date) (invoice_input (pk, r) c date) db
  ]
  | bill ↦ elim r.vendor [
    | none ↦ db
    | some v ↦ stored_bill (id pk date) (bill_input (pk, r) v date) db
  ]
]

-- There is nothing to do for a row and a date.
abbrev pub is_handled : Row → ℕ → Db → Bool
is_handled row date db = already_exists row date db || is_stuck row db

create_occurrence_lem :
    (id : ℕ → ℕ → ℕ) (row : Row) (date : ℕ) (db : Db)
    → create_occurrence id row date db
      ≡ (if is_handled row date db then (false, db) else (true, stored id row date db))
unfolding create_occurrence create_document already_exists
create_occurrence_lem id (pk, r) date db = cases r.kind r.customer r.vendor
  where
    cases :
        (k : Kind) (c v : Option ℕ)
        → let row : Row = (pk, record r { kind = k; customer = c; vendor = v }) in
          create_occurrence id row date db
          ≡ (if is_handled row date db then (false, db) else (true, stored id row date db))
    cases invoice none v = ground arith
    cases invoice (some c) v =
        let row : Row = (pk, record r { kind = invoice; customer = some c; vendor = v }) in
        elim (Bool-cases (any_where (Invoices.is_occurrence pk date) db.invoices)) [
          | inl e ↦ rw e refl
          | inr e ↦ rw (e, created_invoice (id pk date) row c date db e) refl
        ]
    cases bill c none = ground arith
    cases bill c (some v) =
        let row : Row = (pk, record r { kind = bill; customer = c; vendor = some v }) in
        elim (Bool-cases (any_where (Bills.is_occurrence pk date) db.bills)) [
          | inl e ↦ rw e refl
          | inr e ↦ rw (e, created_bill (id pk date) row v date db e) refl
        ]

next_of-advance : (b q : ℕ) (t : Table ℕ) → (b == q) ≡ false → next_of b (advance q t) ≡ next_of b t
next_of-advance b q t h = elim (Option-cases (lookup q t)) [
  | inl e ↦ ground arith
  | inr (n, e) ↦ ground (arith, lookup-update q b (λ _. n + 1) t)
]

-- What a row's document leaves of the other rows' state.
exists_stored :
    (id : ℕ → ℕ → ℕ) (row : Row) (date : ℕ) (db : Db)
    → is_stuck row db ≡ false
    → already_exists row date (stored id row date db) ≡ true
unfolding already_exists new_invoice new_bill
exists_stored id (pk, r) date db h = cases r.kind r.customer r.vendor h
  where
    cases :
        (k : Kind) (c v : Option ℕ)
        → let row : Row = (pk, record r { kind = k; customer = c; vendor = v }) in
          is_stuck row db ≡ false → already_exists row date (stored id row date db) ≡ true
    cases invoice none v h = absurd (ground arith)
    cases invoice (some c) v h = ground arith
    cases bill c none h = absurd (ground arith)
    cases bill c (some v) h = ground arith

exists_kept :
    (id : ℕ → ℕ → ℕ) (row other : Row) (date day : ℕ) (db : Db)
    → already_exists row date db ≡ true
    → already_exists row date (stored id other day db) ≡ true
unfolding already_exists
exists_kept id (pk, r) (j, q) date day db h = cases r.kind q.kind q.customer q.vendor h
  where
    cases :
        (k l : Kind) (c v : Option ℕ)
        → let row : Row = (pk, record r { kind = k }) in
          let other : Row = (j, record q { kind = l; customer = c; vendor = v }) in
          already_exists row date db ≡ true
          → already_exists row date (stored id other day db) ≡ true
    cases k invoice none v h = h
    cases k bill c none h = h
    cases bill invoice (some c) v h = h
    cases invoice bill c (some v) h = h
    cases invoice invoice (some c) v h = ground arith
    cases bill bill c (some v) h = ground arith

invoice_taken_kept :
    (b id : ℕ) (input : InvoiceInput) (db : Db)
    → invoice_number_taken b db ≡ true
    → invoice_number_taken input.business db ≡ false
    → invoice_number_taken b (stored_invoice id input db) ≡ true
invoice_taken_kept b id input db h free = elim (Bool-cases (b == input.business)) [
  | inl e ↦
      let same : b ≡ input.business = ground arith in
      let taken : invoice_number_taken input.business db ≡ true =
        subst (λ x. invoice_number_taken x db ≡ true) same h in
      absurd (ground arith)
  | inr e ↦
      let after : Db = stored_invoice id input db in
      subst (λ n. any_where (Invoices.has_number b (number_text inv n)) after.invoices ≡ true)
        (sym (next_of-advance b input.business db.invoice_numbers e))
        (any_where-later (Invoices.has_number b (number_text inv (next_of b db.invoice_numbers)))
          (id, new_invoice input (number_text inv (next_of input.business db.invoice_numbers)))
          db.invoices h)
]

bill_taken_kept :
    (b id : ℕ) (input : BillInput) (db : Db)
    → bill_number_taken b db ≡ true
    → bill_number_taken input.business db ≡ false
    → bill_number_taken b (stored_bill id input db) ≡ true
bill_taken_kept b id input db h free = elim (Bool-cases (b == input.business)) [
  | inl e ↦
      let same : b ≡ input.business = ground arith in
      let taken : bill_number_taken input.business db ≡ true =
        subst (λ x. bill_number_taken x db ≡ true) same h in
      absurd (ground arith)
  | inr e ↦
      let after : Db = stored_bill id input db in
      subst (λ n. any_where (Bills.has_number b (number_text bill_prefix n)) after.bills ≡ true)
        (sym (next_of-advance b input.business db.bill_numbers e))
        (any_where-later (Bills.has_number b (number_text bill_prefix (next_of b db.bill_numbers)))
          (id, new_bill input (number_text bill_prefix (next_of input.business db.bill_numbers)))
          db.bills h)
]

stuck_kept :
    (id : ℕ → ℕ → ℕ) (row other : Row) (day : ℕ) (db : Db)
    → is_stuck row db ≡ true
    → is_stuck other db ≡ false
    → is_stuck row (stored id other day db) ≡ true
stuck_kept id (pk, r) (j, q) day db h free =
    cases r.kind r.customer r.vendor q.kind q.customer q.vendor h free
  where
    cases :
        (k : Kind) (a b : Option ℕ) (l : Kind) (c v : Option ℕ)
        → let row : Row = (pk, record r { kind = k; customer = a; vendor = b }) in
          let other : Row = (j, record q { kind = l; customer = c; vendor = v }) in
          is_stuck row db ≡ true
          → is_stuck other db ≡ false
          → is_stuck row (stored id other day db) ≡ true
    cases invoice none b l c v h free = refl
    cases bill a none l c v h free = refl
    cases invoice (some a) b invoice none v h free = h
    cases invoice (some a) b bill c none h free = h
    cases invoice (some a) b bill c (some v) h free = h
    cases bill a (some b) invoice none v h free = h
    cases bill a (some b) bill c none h free = h
    cases bill a (some b) invoice (some c) v h free = h
    cases invoice (some a) b invoice (some c) v h free =
        invoice_taken_kept r.business (id j day)
          (invoice_input (j, record q { kind = invoice; customer = some c; vendor = v }) c day) db h
          free
    cases bill a (some b) bill c (some v) h free =
        bill_taken_kept r.business (id j day)
          (bill_input (j, record q { kind = bill; customer = c; vendor = some v }) v day) db h free

handled-IsDone :
    (id : ℕ → ℕ → ℕ) (row : Row) (date : ℕ) (db : Db)
    → is_handled row date db ≡ true
    → IsDone (create_occurrence id) row date db
handled-IsDone id row date db h = rw (create_occurrence_lem id row date db, h) refl

open-stored :
    (id : ℕ → ℕ → ℕ) (row : Row) (date : ℕ) (db : Db)
    → is_handled row date db ≡ false
    → create_occurrence id row date db ≡ (true, stored id row date db)
open-stored id row date db h = rw (create_occurrence_lem id row date db, h) refl

done-handled :
    (id : ℕ → ℕ → ℕ) (row : Row) (date : ℕ) (db : Db)
    → IsDone (create_occurrence id) row date db
    → is_handled row date db ≡ true
done-handled id row date db h = elim (Bool-cases (is_handled row date db)) [
  | inl e ↦ e
  | inr e ↦
      let clash : true ≡ false = ap (λ p. p.0) (sym (open-stored id row date db e) ∙ h) in
      absurd (ground arith)
]

settles :
    (id : ℕ → ℕ → ℕ) (row : Row) (date : ℕ) (db : Db)
    → IsDone (create_occurrence id) row date (create_occurrence id row date db).1
settles id row date db = elim (Bool-cases (is_handled row date db)) [
  | inl e ↦ rw (handled-IsDone id row date db e) (handled-IsDone id row date db e)
  | inr e ↦ rw (open-stored id row date db e) (
      handled-IsDone id row date (stored id row date db)
        (rw (exists_stored id row date db (right_false (already_exists row date db) _ e)) refl))
]
  where
    right_false : (a b : Bool) → (a || b) ≡ false → b ≡ false
    right_false a b h = ground arith

stays :
    (id : ℕ → ℕ → ℕ) (row other : Row) (date day : ℕ) (db : Db)
    → IsDone (create_occurrence id) row date db
    → IsDone (create_occurrence id) row date (create_occurrence id other day db).1
stays id row other date day db h = elim (Bool-cases (is_handled other day db)) [
  | inl e ↦ rw (handled-IsDone id other day db e) h
  | inr e ↦ rw (open-stored id other day db e) (
      handled-IsDone id row date (stored id other day db) (
        kept (Bool-cases (already_exists row date db)) (done-handled id row date db h)
          (right_false (already_exists other day db) _ e)))
]
  where
    right_false : (a b : Bool) → (a || b) ≡ false → b ≡ false
    right_false a b h = ground arith

    or_right : (a b : Bool) → b ≡ true → (a || b) ≡ true
    or_right a b h = ground arith

    kept :
        (already_exists row date db ≡ true) ⊎ (already_exists row date db ≡ false)
        → is_handled row date db ≡ true
        → is_stuck other db ≡ false
        → is_handled row date (stored id other day db) ≡ true
    kept (inl e) h free = rw (exists_kept id row other date day db e) refl
    kept (inr e) h free =
        or_right (already_exists row date (stored id other day db)) _
          (stuck_kept id row other day db (subst (λ b. (b || is_stuck row db) ≡ true) e h) free)

-- The task that is run twice in a day makes no document the second time, and leaves every table as it
-- was: also where documents could not be made, because a customer or a vendor is missing or a number
-- is taken.
pub expand_active_recurring_transactions-twice :
    (id : ℕ → ℕ → ℕ) (active : ℕ → Bool) (rows : Table RecurringTransaction) (today window_days : ℕ)
    (db : Db)
    → let after = (expand_active_recurring_transactions id active rows today window_days db).1 in
      expand_active_recurring_transactions id active rows today window_days after ≡ (0, after)
unfolding expand_active_recurring_transactions
expand_active_recurring_transactions-twice id active rows today window_days db =
    expand_rows-twice (create_occurrence id) (settles id) (stays id)
      (λ r. transaction_dates r today (today + window_days))
      (rows_where (is_due active today (today + window_days)) rows) db
