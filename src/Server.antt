-- ===== src/Server.antt =====
-- The server's handlers.
pub mod BrokerService
pub mod Rbac
pub mod Settlement
pub mod Restock
pub mod Shop
pub mod Lookup
pub mod Invoices
pub mod Auth
pub mod Bakehouse
pub mod Admin
pub mod Listing
