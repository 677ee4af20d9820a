-- ===== src/Comment.antt =====
-- Comments on criteria: app/services/event/comment_service.py.
pub mod Service
pub mod Owner
pub mod Counts
