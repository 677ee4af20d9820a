-- ===== src/Proposal/Conclusions.antt =====
-- The methods of ProposalService on proposals of conclusions. Such a proposal is tied to its event
-- through its criterion.
use madcamp_w2_decision_make.Prelude.{
  ℕ, String, Option, some, Bool, ◌==◌, none, ◌&&◌, where_rows, is_some, not, false,
}
use madcamp_w2_decision_make.Model.{
  ProposalVote, ConclusionProposal, Event, ProposalStatusType, Criterion, is_proposal_pending,
}
use madcamp_w2_decision_make.Session.{
  Action, raise, pure, ◌>>=◌, not_found, query, or_raise, ◌>>◌, raise_if, utc_now, integrity,
  validation, conflict, transaction,
}
use madcamp_w2_decision_make.Proposal.Responses.{
  decision_event, Body, decision_key, brief_payload, conclusion_response, decision_payload,
}
use madcamp_w2_decision_make.Repositories.Proposals.{
  get_proposal_by_id_generic, create_proposal_generic, conclusion_table,
  approve_proposal_if_pending_generic, reject_proposal_if_pending_generic, update_proposal_generic,
}
use madcamp_w2_decision_make.Proposal.VoteUseCase.{VoteResponse, delete_vote, create_vote}
use madcamp_w2_decision_make.Repositories.ProposalVotes.{
  create_proposal_vote, get_user_vote, count_votes, conclusion_votes, delete_proposal_vote,
  has_voted,
}
use madcamp_w2_decision_make.Repositories.Contents.{update_criterion, criterion_of}
use madcamp_w2_decision_make.Proposal.ApprovalUseCase.{update_status}
use madcamp_w2_decision_make.Repositories.Outbox.{create_outbox_event}
use madcamp_w2_decision_make.BaseService.{
  verify_admin, validate_event_in_progress, validate_membership_accepted,
}
use madcamp_w2_decision_make.Repositories.Events.{accepted_count, scalar_one_or_none}
use madcamp_w2_decision_make.Proposal.AutoApproval.{check_and_auto_approve}

-- Criterion.event_id of the criterion of a proposal.
unfoldable pub event_of_criterion : Option Criterion → Option ℕ
event_of_criterion none = none
event_of_criterion (some c) = some c.event_id

-- `if not criterion or criterion.event_id != event_id: raise …`
unfoldable pub validate_criterion_in_event : String → Option Criterion → ℕ → Action (Unit {0})
validate_criterion_in_event message none event_id = raise (not_found message)
validate_criterion_in_event message (some c) event_id =
    raise_if (not (c.event_id == event_id)) (not_found message)

abbrev pub is_pending_by : ℕ → ℕ → ConclusionProposal → Bool
is_pending_by criterion_id user_id p =
    p.columns.criterion_id == criterion_id
    && p.created_by == user_id
    && is_proposal_pending p.proposal_status

unfoldable pub get_pending_conclusion_proposal_by_user : ℕ → ℕ → Action (Option ConclusionProposal)
get_pending_conclusion_proposal_by_user criterion_id user_id = do
  rows ← query (λ d. where_rows (is_pending_by criterion_id user_id) d.conclusion_proposals)
  scalar_one_or_none rows

-- The transaction of `_execute_create`; `content` is `request.proposal_content`.
unfoldable pub create_block : ℕ → ℕ → String → ℕ → Action ConclusionProposal
create_block event_id criterion_id content user_id = do
  created_proposal ←
      create_proposal_generic conclusion_table (some content) user_id
        (record { criterion_id = criterion_id })
  create_outbox_event "proposal.created.v1" (brief_payload created_proposal.id "conclusion")
      event_id
  pure created_proposal

-- `_execute_create` of create_conclusion_proposal.
unfoldable pub execute_create_conclusion_proposal : ℕ → ℕ → String → ℕ → Action Body
execute_create_conclusion_proposal event_id criterion_id content user_id = do
  validate_event_in_progress event_id
  validate_membership_accepted user_id event_id
  criterion ← query (criterion_of criterion_id)
  validate_criterion_in_event "Criterion not found" criterion event_id
  existing_proposal ← get_pending_conclusion_proposal_by_user criterion_id user_id
  raise_if (is_some existing_proposal) (conflict "Duplicate proposal")
  created_proposal ← transaction (create_block event_id criterion_id content user_id)
  vote_count ← count_votes conclusion_votes created_proposal.id
  pure (conclusion_response created_proposal vote_count false)

unfoldable pub get_conclusion_proposal_by_id : ℕ → Action (Option ConclusionProposal)
get_conclusion_proposal_by_id = get_proposal_by_id_generic conclusion_table

-- `validate_proposal_pending` of the vote methods.
unfoldable pub validate_proposal_pending : Option ConclusionProposal → ℕ → Action ConclusionProposal
validate_proposal_pending found event_id = do
  proposal ← or_raise found (not_found "Proposal not found")
  criterion ← query (criterion_of proposal.columns.criterion_id)
  validate_criterion_in_event "Proposal not found" criterion event_id
  raise_if (not (is_proposal_pending proposal.proposal_status)) (validation "Proposal not pending")
  pure proposal

unfoldable pub check_duplicate_vote : ℕ → ℕ → Action (Unit {0})
check_duplicate_vote proposal_id user_id = do
  existing_vote ← get_user_vote conclusion_votes proposal_id user_id
  raise_if (is_some existing_vote) (conflict "Already voted")

-- `if criterion:` around the outbox event of a vote.
unfoldable pub event_outbox : String → ℕ → Option ℕ → Action (Unit {0})
event_outbox event_type proposal_id none = pure tt
event_outbox event_type proposal_id (some event_id) =
    create_outbox_event event_type (brief_payload proposal_id "conclusion") event_id >> pure tt

-- `if proposal:` around that.
unfoldable pub vote_outbox : String → ℕ → Option ConclusionProposal → Action (Unit {0})
vote_outbox event_type proposal_id none = pure tt
vote_outbox event_type proposal_id (some p) = do
  criterion ← query (criterion_of p.columns.criterion_id)
  event_outbox event_type proposal_id (event_of_criterion criterion)

unfoldable pub create_conclusion_vote : ℕ → ℕ → Action ProposalVote
create_conclusion_vote pid uid = do
  created_vote ← create_proposal_vote conclusion_votes pid uid
  proposal ← get_conclusion_proposal_by_id pid
  vote_outbox "proposal.vote.created.v1" pid proposal
  pure created_vote

unfoldable pub get_conclusion_vote : ℕ → ℕ → Action ProposalVote
get_conclusion_vote pid uid = do
  vote ← get_user_vote conclusion_votes pid uid
  or_raise vote (not_found "Vote not found")

unfoldable pub delete_conclusion_vote : ProposalVote → Action (Unit {0})
delete_conclusion_vote vote = do
  proposal ← get_conclusion_proposal_by_id vote.proposal_id
  delete_proposal_vote conclusion_votes vote
  vote_outbox "proposal.vote.deleted.v1" vote.proposal_id proposal

-- `if criterion:` of `_apply_conclusion_proposal`.
unfoldable pub conclude : Option Criterion → Option String → ℕ → Action (Unit {0})
conclude none content user_id = pure tt
conclude (some c) content user_id =
    update_criterion (λ r. record r { conclusion = content }) c user_id

abbrev pub mark_applied : ℕ → ConclusionProposal → ConclusionProposal
mark_applied at p = record p { applied_at = some at }

unfoldable pub apply_conclusion_proposal : ConclusionProposal → Event → Action (Unit {0})
apply_conclusion_proposal proposal event = do
  criterion ← query (criterion_of proposal.columns.criterion_id)
  conclude criterion proposal.proposal_content proposal.created_by
  applied_at ← utc_now
  update_proposal_generic conclusion_table (mark_applied applied_at) proposal

-- The outbox event of a decision, by the admin `user_id` or by the votes. The column
-- `target_event_id` may not be NULL.
unfoldable pub conclusion_outbox :
    String → String → Option ℕ → ConclusionProposal → Action (Unit {0})
conclusion_outbox event_type key user_id p = do
  criterion ← query (criterion_of p.columns.criterion_id)
  event_id ← or_raise (event_of_criterion criterion) (integrity "outbox_events.target_event_id")
  create_outbox_event event_type (decision_payload p.id "conclusion" (some event_id) key user_id)
      event_id
  pure tt

unfoldable pub auto_approved_outbox : ConclusionProposal → Event → Action (Unit {0})
auto_approved_outbox p event = conclusion_outbox "proposal.approved.v1" "approved_by" none p

-- `auto_approve` of the vote methods.
unfoldable pub auto_approve_conclusion : ConclusionProposal → Event → Action (Unit {0})
auto_approve_conclusion proposal event = do
  vote_count ← count_votes conclusion_votes proposal.id
  total_members ← query (accepted_count event.id)
  check_and_auto_approve proposal event vote_count
      (approve_proposal_if_pending_generic conclusion_table) apply_conclusion_proposal
      auto_approved_outbox none event.conclusion_approval_threshold_percent (some total_members)
      event.conclusion_is_auto_approved_by_votes

unfoldable pub create_conclusion_proposal_vote : ℕ → ℕ → ℕ → Action VoteResponse
create_conclusion_proposal_vote event_id proposal_id user_id =
    create_vote event_id proposal_id user_id validate_event_in_progress
      get_conclusion_proposal_by_id validate_proposal_pending check_duplicate_vote
      create_conclusion_vote auto_approve_conclusion (count_votes conclusion_votes)

unfoldable pub delete_conclusion_proposal_vote : ℕ → ℕ → ℕ → Action VoteResponse
delete_conclusion_proposal_vote event_id proposal_id user_id =
    delete_vote event_id proposal_id user_id validate_event_in_progress
      get_conclusion_proposal_by_id validate_proposal_pending get_conclusion_vote
      delete_conclusion_vote auto_approve_conclusion (count_votes conclusion_votes)

unfoldable pub validate_proposal_belongs_to_event : ConclusionProposal → ℕ → Action (Unit {0})
validate_proposal_belongs_to_event p event_id = do
  criterion ← query (criterion_of p.columns.criterion_id)
  validate_criterion_in_event "Proposal not found" criterion event_id

unfoldable pub decision_outbox :
    ℕ → ConclusionProposal → Event → ProposalStatusType → Action (Unit {0})
decision_outbox user_id p event status =
    conclusion_outbox (decision_event status) (decision_key status) (some user_id) p

unfoldable pub build_response : ConclusionProposal → ℕ → Action Body
build_response p user_id = do
  vote_count ← count_votes conclusion_votes p.id
  has_voted ← query (has_voted conclusion_votes p.id user_id)
  pure (conclusion_response p vote_count has_voted)

-- `_execute_update` of update_conclusion_proposal_status.
unfoldable pub execute_update_conclusion_proposal_status :
    ℕ → ℕ → ProposalStatusType → ℕ → Action Body
execute_update_conclusion_proposal_status event_id proposal_id status user_id =
    update_status event_id proposal_id status user_id verify_admin get_conclusion_proposal_by_id
      validate_proposal_belongs_to_event (approve_proposal_if_pending_generic conclusion_table)
      (reject_proposal_if_pending_generic conclusion_table) apply_conclusion_proposal
      (decision_outbox user_id) build_response
