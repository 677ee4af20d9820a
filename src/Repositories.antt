-- ===== src/Repositories.antt =====
-- The queries and flushed writes of app/repositories/.
pub mod Events
pub mod Memberships
pub mod Outbox
pub mod Effects
pub mod Contents
pub mod Proposals
pub mod ProposalLists
pub mod EventLists
pub mod ProposalVotes
pub mod Votes
pub mod Comments
pub mod OutboxQueue
pub mod OutboxStream
