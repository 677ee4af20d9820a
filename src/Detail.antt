-- ===== src/Detail.antt =====
-- app/services/event/detail_service.py: the page of an event.
pub mod Groups
pub mod Service
mod Grouping
mod Times
mod Voted
mod Conclusions
pub mod Reading
mod Shown
pub mod Page
