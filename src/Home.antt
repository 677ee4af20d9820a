-- ===== src/Home.antt =====
-- app/services/event/home_service.py: the events of a user.
pub mod Service
mod Dictionaries
pub mod Page
