-- ===== src/Examples.antt =====
-- Concrete rows on which the theorems are applied.
mod Requests
mod Mailings
mod People
mod Money
mod Lockouts
mod Staff
mod Clients
mod Memos
mod Reminders
mod Duplicates
mod Desk
mod Office
mod Deals
