-- ===== src/Loyalty.antt =====
-- loyalty/: points, orders and gift cards.
pub mod Db
pub mod Points
pub mod GiftCards
pub mod Orders
pub mod History
mod Tests
