-- ===== src/Proposal.antt =====
-- app/services/event/proposal/: proposals on assumptions, criteria and conclusions, the votes on
-- them, and their approval.
pub mod Percent
pub mod AutoApproval
pub mod VoteUseCase
pub mod ApprovalUseCase
pub mod Responses
pub mod Assumptions
pub mod Criteria
pub mod Conclusions
pub mod Atomicity
pub mod AssumptionEffects
pub mod CriteriaEffects
pub mod Settled
pub mod AssumptionsSettled
pub mod AssumptionGuards
pub mod AssumptionLeaves
pub mod AssumptionVotes
pub mod ConclusionEffects
pub mod AssumptionDecision
pub mod Requests
