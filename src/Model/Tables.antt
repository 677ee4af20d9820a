-- ===== src/Model/Tables.antt =====
-- The database: one list of rows for each table, newest first, and the supply of fresh UUIDs.
use madcamp_w2_decision_make.Prelude.{ℕ, List}
use madcamp_w2_decision_make.Model.Rows.{
  Event, EventMembership, OptionRow, Assumption, Criterion, OptionVote, CriterionPriority, Comment,
  OutboxEvent, IdempotencyRecord,
}
use madcamp_w2_decision_make.Model.Proposals.{
  AssumptionProposal, CriteriaProposal, ConclusionProposal, ProposalVote,
}

pub record Database : Type 0 where
  pub events : List Event
  pub memberships : List EventMembership
  pub options : List OptionRow
  pub assumptions : List Assumption
  pub criteria : List Criterion
  pub assumption_proposals : List AssumptionProposal
  pub criteria_proposals : List CriteriaProposal
  pub conclusion_proposals : List ConclusionProposal
  pub assumption_proposal_votes : List ProposalVote
  pub criterion_proposal_votes : List ProposalVote
  pub conclusion_proposal_votes : List ProposalVote
  pub option_votes : List OptionVote
  pub criterion_priorities : List CriterionPriority
  pub comments : List Comment
  pub outbox_events : List OutboxEvent
  pub idempotency_records : List IdempotencyRecord
  pub next_id : ℕ
