-- ===== src/Crm.antt =====
-- Requests of clients (crm): who has sent one.
pub mod Types
pub mod Matching
pub mod Companies
pub mod Saving
pub mod Duplicates
pub mod Deals
