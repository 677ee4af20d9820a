-- ===== src/Tests/Proposals.antt =====
-- Runs of the proposal methods.
use madcamp_w2_decision_make.Proposal.Criteria.{
  create_criteria_proposal_vote, delete_criteria_proposal_vote,
  execute_update_criteria_proposal_status,
}
use madcamp_w2_decision_make.Proposal.Assumptions.{
  auto_approve_assumption, build_response, check_duplicate_vote, create_assumption_proposal_vote,
  create_assumption_vote, decision_outbox, delete_assumption_proposal_vote,
  execute_update_assumption_proposal_status, get_assumption_proposal_by_id,
  validate_proposal_belongs_to_event, validate_proposal_pending, vote_outbox,
}
use madcamp_w2_decision_make.Proposal.ApprovalUseCase.{
  is_decision, update_status, decide_block, decide,
}
use madcamp_w2_decision_make.Session.Keeps.{Both}
use madcamp_w2_decision_make.Repositories.Proposals.{
  proposal_of, assumption_table, get_proposal_by_id_generic, reject_proposal_if_pending_generic,
  update_if_pending,
}
use madcamp_w2_decision_make.Session.Atomic.{Atomic}
use madcamp_w2_decision_make.Model.{Event, AssumptionProposal, ProposalStatusType, EventStatusType}
use madcamp_w2_decision_make.Prelude.{
  ◌+◌, ◌∷◌, [], find_by_id, ◌≡◌, true, some, refl, update_by_id, false,
}
use madcamp_w2_decision_make.Proposal.VoteUseCase.{create_vote}
use madcamp_w2_decision_make.Proposal.Settled.{HasStatus}
use madcamp_w2_decision_make.BaseService.{
  verify_admin, validate_event_in_progress, get_event_with_all_relations,
}
use madcamp_w2_decision_make.Repositories.Events.{event_of, scalar_one_or_none}
use madcamp_w2_decision_make.Tests.{database, event, proposal, start}
use madcamp_w2_decision_make.Repositories.Events
use madcamp_w2_decision_make.Proposal.AssumptionsSettled.{serve_all, Request, serve_all-HasStatus}
use madcamp_w2_decision_make.Proposal.AssumptionGuards.{
  Open, execute_update_assumption_proposal_status-inv, create_assumption_proposal_vote-inv,
}
use madcamp_w2_decision_make.Repositories.ProposalVotes.{
  votes_by, get_user_vote, assumption_votes, create_proposal_vote, count_votes, vote_count_of,
}
use madcamp_w2_decision_make.Session.Runs.{result-run}
use madcamp_w2_decision_make.Repositories.Outbox.{create_outbox_event}
use madcamp_w2_decision_make.Proposal.AutoApproval.{check_and_auto_approve, is_reached}
use madcamp_w2_decision_make.Session.{transaction, ◌>>=◌, ok}
use madcamp_w2_decision_make.Proposal.Responses.{assumption_response}
use madcamp_w2_decision_make.Proposal.Conclusions.{
  create_conclusion_proposal_vote, delete_conclusion_proposal_vote,
  execute_update_conclusion_proposal_status,
}
use madcamp_w2_decision_make.Proposal.AssumptionVotes.{create_assumption_proposal_vote-votes}
use madcamp_w2_decision_make.Proposal.AssumptionDecision.{
  status_of_proposal, execute_update_assumption_proposal_status-status,
}
use madcamp_w2_decision_make.Proposal.Requests.{
  assumption_requests-Atomic, criteria_requests-Atomic, conclusion_requests-Atomic,
}

voted :
    (create_assumption_proposal_vote 1 30 11 start).0
    ≡ ok (record {
      message = "Vote created successfully";
      vote_id = 100;
      proposal_id = 30;
      vote_count = 1;
    })
unfolding create_assumption_proposal_vote create_vote validate_event_in_progress
    get_event_with_all_relations Events.get_by_id event_of get_assumption_proposal_by_id
    get_proposal_by_id_generic proposal_of validate_proposal_pending check_duplicate_vote
    get_user_vote scalar_one_or_none create_assumption_vote create_proposal_vote vote_outbox
    create_outbox_event auto_approve_assumption check_and_auto_approve is_reached count_votes
    find_by_id transaction ◌>>=◌
voted = refl

create_assumption_proposal_vote-inv_example :
    (e : Event) × (p : AssumptionProposal) × (event_of 1 (database event []) ≡ some e)
    × (e.event_status ≡ EventStatusType.in_progress)
    × Open 1 30 p (database event [])
    × (votes_by assumption_votes 30 11 (database event []) ≡ 0)
create_assumption_proposal_vote-inv_example =
    create_assumption_proposal_vote-inv 1 30 11 start
      (result-run (create_assumption_proposal_vote 1 30 11) start voted)

rejected :
    (execute_update_assumption_proposal_status 1 30 ProposalStatusType.rejected 10 start).0
    ≡ ok (assumption_response (proposal 30 ProposalStatusType.rejected) 0 false)
unfolding execute_update_assumption_proposal_status update_status verify_admin Events.get_by_id
    event_of get_assumption_proposal_by_id get_proposal_by_id_generic proposal_of
    validate_proposal_belongs_to_event decide_block decide reject_proposal_if_pending_generic
    update_if_pending decision_outbox create_outbox_event build_response count_votes find_by_id
    update_by_id transaction ◌>>=◌
rejected = refl

execute_update_assumption_proposal_status-inv_example :
    (is_decision ProposalStatusType.rejected ≡ true)
    × (e : Event) × (p : AssumptionProposal) × (event_of 1 (database event []) ≡ some e)
    × (e.admin_id ≡ 10)
    × Open 1 30 p (database event [])
    × ((execute_update_assumption_proposal_status 1 30 ProposalStatusType.rejected 10
          start).1.committed
        ≡ (execute_update_assumption_proposal_status 1 30 ProposalStatusType.rejected 10
            start).1.working)
execute_update_assumption_proposal_status-inv_example =
    execute_update_assumption_proposal_status-inv 1 30 ProposalStatusType.rejected 10 start (
      result-run (execute_update_assumption_proposal_status 1 30 ProposalStatusType.rejected 10)
        start rejected)

accepted_found : HasStatus assumption_table 31 ProposalStatusType.accepted (database event [])
unfolding proposal_of find_by_id
accepted_found = (proposal 31 ProposalStatusType.accepted, refl, refl)

serve_all-HasStatus_example : Both (HasStatus assumption_table 31 ProposalStatusType.accepted) (
    serve_all
      (Request.vote 1 31 11
        ∷ Request.decide_status 1 31 ProposalStatusType.rejected 10
        ∷ Request.decide_status 1 30 ProposalStatusType.rejected 10
        ∷ [])
      start)
serve_all-HasStatus_example =
    serve_all-HasStatus 31 ProposalStatusType.accepted refl
      (Request.vote 1 31 11
        ∷ Request.decide_status 1 31 ProposalStatusType.rejected 10
        ∷ Request.decide_status 1 30 ProposalStatusType.rejected 10
        ∷ [])
      start (accepted_found, accepted_found)

create_assumption_proposal_vote-votes_example :
    (votes_by assumption_votes 30 11 (create_assumption_proposal_vote 1 30 11 start).1.committed
      ≡ 1)
    × (vote_count_of assumption_votes 30 (create_assumption_proposal_vote 1 30 11 start).1.committed
        ≡ vote_count_of assumption_votes 30 (database event []) + 1)
    × (1
        ≡ vote_count_of assumption_votes 30
            (create_assumption_proposal_vote 1 30 11 start).1.committed)
create_assumption_proposal_vote-votes_example =
    create_assumption_proposal_vote-votes 1 30 11 start
      (result-run (create_assumption_proposal_vote 1 30 11) start voted)

execute_update_assumption_proposal_status-status_example :
    status_of_proposal 30
      (execute_update_assumption_proposal_status 1 30 ProposalStatusType.rejected 10
        start).1.committed
    ≡ some ProposalStatusType.rejected
execute_update_assumption_proposal_status-status_example =
    execute_update_assumption_proposal_status-status 1 30 ProposalStatusType.rejected 10 start (
      result-run (execute_update_assumption_proposal_status 1 30 ProposalStatusType.rejected 10)
        start rejected)

assumption_requests-Atomic_example :
    Atomic (create_assumption_proposal_vote 1 31 11)
    × Atomic (delete_assumption_proposal_vote 1 31 11)
    × Atomic (execute_update_assumption_proposal_status 1 31 ProposalStatusType.rejected 11)
assumption_requests-Atomic_example = assumption_requests-Atomic 1 31 11 ProposalStatusType.rejected

criteria_requests-Atomic_example :
    Atomic (create_criteria_proposal_vote 1 30 11)
    × Atomic (delete_criteria_proposal_vote 1 30 11)
    × Atomic (execute_update_criteria_proposal_status 1 30 ProposalStatusType.accepted 11)
criteria_requests-Atomic_example = criteria_requests-Atomic 1 30 11 ProposalStatusType.accepted

conclusion_requests-Atomic_example :
    Atomic (create_conclusion_proposal_vote 1 30 11)
    × Atomic (delete_conclusion_proposal_vote 1 30 11)
    × Atomic (execute_update_conclusion_proposal_status 1 30 ProposalStatusType.accepted 11)
conclusion_requests-Atomic_example = conclusion_requests-Atomic 1 30 11 ProposalStatusType.accepted
