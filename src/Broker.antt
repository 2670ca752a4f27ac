-- ===== src/Broker.antt =====
-- The broker: its matching engine, and what it does to the stock.
pub mod Matching
pub mod Stock
pub mod Orders
pub mod Purchase
pub mod Client
