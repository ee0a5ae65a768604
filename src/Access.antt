-- ===== src/Access.antt =====
-- The access requests of resource_management: numbering, saving, the approval links, and the
-- repairs that follow a request.
pub mod Types
pub mod Ticket
pub mod Save
pub mod Links
pub mod Team
pub mod Admin
pub mod Reach
