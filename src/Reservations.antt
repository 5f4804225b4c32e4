-- ===== src/Reservations.antt =====
-- reservations/: tables, bookings, the waitlist and the slots that are offered.
pub mod Db
pub mod Booking
pub mod Slots
pub mod Transitions
mod Tests
