-- ===== src/Examples.antt =====
-- The theorems at concrete rows.
pub mod Shop
pub mod Money
mod Stock
mod Payment
mod Orders
mod Refunds
mod Payouts
mod Notices
mod Accounts
