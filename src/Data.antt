-- ===== src/Data.antt =====
-- The package data: its records, the tables, and the repository's operations on them.
pub mod Types
pub mod Db
pub mod Stock
pub mod Orders
pub mod Outbox
pub mod Breads
pub mod Baking
pub mod Invoices
pub mod Accounts
pub mod Dashboard
