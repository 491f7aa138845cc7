-- ===== src/Payments.antt =====
-- app/modules/payments: orders and the payments made for them.
pub mod Rows
pub mod Service
pub mod Owners
mod Tests
