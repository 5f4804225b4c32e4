-- ===== src/Finance/Tests.antt =====
-- Tests of finance/.
pub mod Samples
mod Invoices
mod Totals
mod Operations
mod Documents
