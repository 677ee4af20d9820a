-- ===== src/Outbox.antt =====
-- The outbox: app/workers/ and app/services/event/stream_service.py.
pub mod Handlers
pub mod Worker
mod Kept
pub mod Lifecycle
pub mod Processing
pub mod Attempts
pub mod Claims
pub mod Stream
mod Order
pub mod Paging
