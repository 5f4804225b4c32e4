-- ===== src/Lib.antt =====
-- food-tech-crm-backend: a back office for food businesses, as Django apps. Each app keeps its rows in
-- the database (models.py) and changes them in services (services.py), which the views and the
-- scheduled tasks call. This library models the services that hold the money, the points,
-- the stock, the tables and the working hours.
--
-- State and operations. A table is an association list from primary keys to rows, the newest first
-- (Prelude/Table); an app's tables are a record. A service is a function from the tables to a result or
-- an exception together with the tables after it (Prelude/Exec); `transaction.atomic()` drops the
-- changes of a block that raises. The key of a new row (`uuid.uuid4`) and the clock are arguments. An
-- operation on an instance takes its key and, where the code reads the instance's columns before it
-- locks the row, the instance too, which may be older than the row. A call runs to its end before the
-- next begins: what `select_for_update` serialises is one step.
--
-- Numbers. Money is in cents, quantities on documents are in hundredths, stock is in thousandths, a tax
-- rate is in units of 10^-5: integers of any size (Prelude/Int). The arithmetic of `Decimal` is exact in
-- the model: its 28 digits and the columns' `max_digits` are not modelled. A time is in minutes in
-- Reservations and in seconds elsewhere, a date is a day number.
--
-- Files and the code they model:
--   Core/Db, Core/Permissions (Access): the businesses and memberships of core/models.py, and the
--     permission classes of core/permissions.py.
--   Core/Trials (Status): core/tasks.py, `check_expired_trials`.
--   Core/Recurrence (Dates): core/recurrence.py, weekly and biweekly rules; and in Expansion the loop that
--     the two expansions of recurring rules have, with the laws of its step and what follows from them.
--   Employees/Db: the rows of employees/models.py.
--   Employees/TimeTracking (Geofence, Outcomes, Sessions): the time clock of employees/services.py.
--   Employees/Requests (Outcomes): shift swaps and time off.
--   Employees/Deactivation (Outcomes): `handle_membership_deactivation`, and the signals of
--     employees/signals.py that call it when a membership is saved (`save_membership`).
--   Employees/OpenRows (Keeps, Requests), Employees/History (Decided): one open row at a time, and what
--     holds after any sequence of calls (`Step`, `Reach`).
--   Employees/Payroll (Hours, Pay): employees/payroll.py.
--   Employees/Scheduling (Expansion): employees/scheduling.py.
--   Finance/Tax (Rounding, Totals, Order): finance/tax.py, `calculate_totals`.
--   Finance/Numbering: `_generate_number` of finance/services.py.
--   Finance/Db: the rows of finance/models.py, `paid_total`, `refunded_total`, `net_paid_total`,
--     and `_apply_totals`, the one place where a document calls the tax calculation.
--   Finance/Invoices (Receipts; Payments, Refunds, Ledger, History, Balance): the invoice services of
--     finance/services.py, and in Receipts those of payments and refunds; `mark_overdue_invoices` of
--     finance/tasks.py. `Step` in History is one call, `Reach` a sequence of calls.
--   Finance/Bills (Payments): the bill services, and `mark_overdue_bills`.
--   Finance/Estimates (Conversion): the estimate services, with the conversion that calls
--     `create_invoice` of Finance/Invoices.
--   Finance/Recurring (Expansion): finance/recurring.py, which calls `create_invoice` and `create_bill`.
--   Finance/Reports (Aging): finance/reports.py.
--   Finance/Webhooks (Delivery): finance/webhooks.py.
--   Inventory: inventory/services.py, `adjust_stock`.
--   Loyalty/Db: the rows of loyalty/models.py, with the finance tables for the orders that become
--     invoices.
--   Loyalty/Points (Tiers, Outcomes, Ledger, Expiry): points and tiers of loyalty/services.py.
--   Loyalty/Orders (Outcomes, Ledger): orders; a conversion calls `create_invoice` of Finance/Invoices.
--   Loyalty/GiftCards (Balance, History): gift cards.
--   Loyalty/History: a call on points or orders (`Step`), and sequences of calls (`Reach`).
--   Reservations/Db: the rows of reservations/models.py that booking uses.
--   Reservations/Slots (Day, Loop, Bookable): reservations/services.py, `get_available_slots`. Its loop adds
--     the interval to the start, and runs on fuel here: one more than the minutes of the day is enough, if
--     the interval is above 0, as the column's validator asks.
--   Reservations/Transitions (Final): reservations/views.py, the actions `seat`, `cancel`, `no_show` and
--     `complete` on a reservation's status, each as one step.
--   Reservations/Booking (Overlap, Outcomes, History): reservations/services.py, `book_reservation`,
--     `join_waitlist` and `convert_waitlist_entry`, with `save` of the Reservation model.
--   The modules called Tests: runs of the services on small states.
--
-- Loops and fuel. The one unbounded loop is the slot search's, which would not
-- end with an interval of 0; every other recursion is on a list. The (at most eight)
-- attempts at a confirmation code are a recursion on the list of codes drawn. The digits of a
-- document number are computed with the number plus one as fuel, which is never used up; the dates of a rule with one
-- round for each day left, which reaches every date up to the end.
--
-- Not modelled: the other views, serializers, routing and settings (framework glue), the object store, e-mail,
-- Stripe's own checks, authentication and encryption (I/O and libraries), and the apps customers, documents,
-- marketing and settings; the great-circle distance (floating point), which is a parameter; of core, the
-- monthly recurrence, and with it the recurring schedules and transactions of a monthly rule; the JSON of a
-- recurring transaction's line items, which are numbers here; of finance, bank reconciliation and the chart of accounts; of reservations, the
-- serializers' own edits and the guest's lookup by code.
mod Prelude
pub mod Core
pub mod Employees
pub mod Finance
pub mod Inventory
pub mod Loyalty
pub mod Reservations
