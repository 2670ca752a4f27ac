-- ===== src/Tests.antt =====
-- The theorems at concrete inputs, and runs of the code.
mod Breaker
mod Retry
mod Stock
mod Matching
mod Service
mod Access
mod Settlement
mod Outbox
mod Limiter
mod Makers
mod Orders
mod Shop
mod Invoices
mod Accounts
mod Bakehouse
mod Admin
mod Buyers
mod Portal
mod Client
mod Forms
mod Purchase
