-- ===== src/Employees.antt =====
-- employees/: time tracking, shift swaps and time off, recurring shifts and pay stubs.
pub mod Db
pub mod TimeTracking
pub mod Requests
pub mod Deactivation
pub mod OpenRows
pub mod History
pub mod Payroll
pub mod Scheduling
mod Tests
