-- ===== src/Frontend.antt =====
-- The web pages in front of the server.
pub mod Sessions
pub mod Portal
pub mod Administration
