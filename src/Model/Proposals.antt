-- ===== src/Model/Proposals.antt =====
-- Rows of the three proposal tables and of the votes on proposals (app/models/proposal.py,
-- app/models/vote.py). `Proposal C` has the columns of the mixin ProposalBase, and `C` holds
-- those that the class adds.
use madcamp_w2_decision_make.Prelude.{ℕ, String, Option}
use madcamp_w2_decision_make.Model.Enums.{ProposalStatusType, ProposalCategoryType}

pub record Proposal (C : Type 0) : Type 0 where
  pub id : ℕ
  pub proposal_status : ProposalStatusType
  pub proposal_content : Option String
  pub created_at : ℕ
  pub created_by : ℕ
  pub accepted_at : Option ℕ
  pub applied_at : Option ℕ
  pub columns : C

pub record AssumptionColumns : Type 0 where
  pub event_id : ℕ
  pub assumption_id : Option ℕ
  pub proposal_category : ProposalCategoryType
  pub reason : Option String
  pub applied_target_id : Option ℕ

pub record CriteriaColumns : Type 0 where
  pub event_id : ℕ
  pub criteria_id : Option ℕ
  pub proposal_category : ProposalCategoryType
  pub reason : Option String
  pub applied_target_id : Option ℕ

pub record ConclusionColumns : Type 0 where
  pub criterion_id : ℕ

abbrev pub AssumptionProposal : Type 0
AssumptionProposal = Proposal AssumptionColumns

abbrev pub CriteriaProposal : Type 0
CriteriaProposal = Proposal CriteriaColumns

abbrev pub ConclusionProposal : Type 0
ConclusionProposal = Proposal ConclusionColumns

-- AssumptionProposalVote, CriterionProposalVote and ConclusionProposalVote have the same columns;
-- `proposal_id` is the foreign key to the table that was voted on.
pub record ProposalVote : Type 0 where
  pub id : ℕ
  pub proposal_id : ℕ
  pub created_at : ℕ
  pub created_by : ℕ
