-- ===== src/Membership.antt =====
-- app/services/event/membership_service.py: joining an event, and the admin's decisions on the
-- pending members. The service is wired with an outbox (app/dependencies/services.py).
pub mod Service
pub mod Checks
pub mod Approve
pub mod Capacity
pub mod Reject
pub mod Join
pub mod Bulk
pub mod BulkService
