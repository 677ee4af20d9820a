-- ===== src/Creation.antt =====
-- The creation of events: app/services/event/creation_service.py.
pub mod Service
pub mod Codes
pub mod Event
