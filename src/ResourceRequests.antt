-- ===== src/ResourceRequests.antt =====
-- Requests for staff (resource_requests): their delivery requests, and the approval of them by the
-- link that the PMO gets by mail.
pub mod Types
pub mod Created
pub mod Approval
