-- ===== src/Vote.antt =====
-- Final votes: app/services/event/vote_service.py.
pub mod Service
mod Priorities
pub mod Replace
pub mod Checks
pub mod Guards
pub mod OneVote
pub mod Outcomes
pub mod Tally
pub mod Results
pub mod RoundTrip
