-- ===== src/Proposal/Requests.antt =====
-- Requests on proposals that raise, and the session that they leave.
use madcamp_w2_decision_make.Prelude.{ℕ}
use madcamp_w2_decision_make.Model.{ProposalStatusType}
use madcamp_w2_decision_make.Session.Atomic.{Atomic}
use madcamp_w2_decision_make.Proposal.Assumptions.{
  create_assumption_proposal_vote, delete_assumption_proposal_vote,
  execute_update_assumption_proposal_status,
}
use madcamp_w2_decision_make.Proposal.AssumptionEffects.{
  create_assumption_proposal_vote-Atomic, delete_assumption_proposal_vote-Atomic,
  execute_update_assumption_proposal_status-Atomic,
}
use madcamp_w2_decision_make.Proposal.Criteria.{
  create_criteria_proposal_vote, delete_criteria_proposal_vote,
  execute_update_criteria_proposal_status,
}
use madcamp_w2_decision_make.Proposal.CriteriaEffects.{
  create_criteria_proposal_vote-Atomic, delete_criteria_proposal_vote-Atomic,
  execute_update_criteria_proposal_status-Atomic,
}
use madcamp_w2_decision_make.Proposal.Conclusions.{
  create_conclusion_proposal_vote, delete_conclusion_proposal_vote,
  execute_update_conclusion_proposal_status,
}
use madcamp_w2_decision_make.Proposal.ConclusionEffects.{
  create_conclusion_proposal_vote-Atomic, delete_conclusion_proposal_vote-Atomic,
  execute_update_conclusion_proposal_status-Atomic,
}

module _ (event_id proposal_id user_id : ℕ) (status : ProposalStatusType) where
  -- A vote on a proposal of an assumption, its withdrawal and a decision of the proposal that raise, for
  -- whatever reason, leave the committed database as it was.
  pub assumption_requests-Atomic :
      Atomic (create_assumption_proposal_vote event_id proposal_id user_id)
      × Atomic (delete_assumption_proposal_vote event_id proposal_id user_id)
      × Atomic (execute_update_assumption_proposal_status event_id proposal_id status user_id)
  assumption_requests-Atomic = (
    create_assumption_proposal_vote-Atomic event_id proposal_id user_id,
    delete_assumption_proposal_vote-Atomic event_id proposal_id user_id,
    execute_update_assumption_proposal_status-Atomic event_id proposal_id status user_id,
  )

  -- A vote on a proposal of a criterion, its withdrawal and a decision of the proposal that raise, for
  -- whatever reason, leave the committed database as it was.
  pub criteria_requests-Atomic :
      Atomic (create_criteria_proposal_vote event_id proposal_id user_id)
      × Atomic (delete_criteria_proposal_vote event_id proposal_id user_id)
      × Atomic (execute_update_criteria_proposal_status event_id proposal_id status user_id)
  criteria_requests-Atomic = (
    create_criteria_proposal_vote-Atomic event_id proposal_id user_id,
    delete_criteria_proposal_vote-Atomic event_id proposal_id user_id,
    execute_update_criteria_proposal_status-Atomic event_id proposal_id status user_id,
  )

  -- A vote on a proposal of a conclusion, its withdrawal and a decision of the proposal that raise, for
  -- whatever reason, leave the committed database as it was.
  pub conclusion_requests-Atomic :
      Atomic (create_conclusion_proposal_vote event_id proposal_id user_id)
      × Atomic (delete_conclusion_proposal_vote event_id proposal_id user_id)
      × Atomic (execute_update_conclusion_proposal_status event_id proposal_id status user_id)
  conclusion_requests-Atomic = (
    create_conclusion_proposal_vote-Atomic event_id proposal_id user_id,
    delete_conclusion_proposal_vote-Atomic event_id proposal_id user_id,
    execute_update_conclusion_proposal_status-Atomic event_id proposal_id status user_id,
  )
