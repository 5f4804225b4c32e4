-- ===== src/Finance.antt =====
-- finance/: invoices, payments, refunds, bills, estimates and the tax calculation they share.
pub mod Tax
pub mod Numbering
pub mod Db
pub mod Invoices
pub mod Bills
pub mod Estimates
pub mod Recurring
pub mod Reports
pub mod Webhooks
pub mod Tests
