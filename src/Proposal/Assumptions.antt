-- ===== src/Proposal/Assumptions.antt =====
-- The methods of ProposalService on proposals of assumptions.
use madcamp_w2_decision_make.Model.{
  ProposalVote, AssumptionProposal, Assumption, ProposalCategoryType, ProposalStatusType, Event,
  is_proposal_pending,
}
use madcamp_w2_decision_make.Prelude.{
  Option, String, ℕ, Bool, some, none, true, ◌==◌, ◌&&◌, is_some, false, not, opt_eq, where_rows,
}
use madcamp_w2_decision_make.Session.{
  Action, ◌>>◌, pure, raise_if, ◌>>=◌, utc_now, query, or_raise, integrity, validation, not_found,
  raise, conflict, transaction,
}
use madcamp_w2_decision_make.Repositories.Proposals.{
  get_proposal_by_id_generic, create_proposal_generic, assumption_table, update_proposal_generic,
  approve_proposal_if_pending_generic, reject_proposal_if_pending_generic,
}
use madcamp_w2_decision_make.Proposal.VoteUseCase.{VoteResponse, create_vote, delete_vote}
use madcamp_w2_decision_make.Repositories.Outbox.{create_outbox_event}
use madcamp_w2_decision_make.Proposal.Responses.{
  Body, brief_payload, decision_event, decision_payload, decision_key, assumption_response,
}
use madcamp_w2_decision_make.Proposal.ApprovalUseCase.{update_status}
use madcamp_w2_decision_make.Repositories.ProposalVotes.{
  count_votes, create_proposal_vote, get_user_vote, delete_proposal_vote, assumption_votes,
  has_voted,
}
use madcamp_w2_decision_make.BaseService.{
  validate_event_in_progress, validate_membership_accepted, verify_admin,
}
use madcamp_w2_decision_make.Repositories.Contents.{
  create_assumption, update_assumption, maybe_of, assumption_of,
}
use madcamp_w2_decision_make.Repositories.Events.{scalar_one_or_none}
use madcamp_w2_decision_make.Proposal.AutoApproval.{check_and_auto_approve}

-- AssumptionProposalCreateRequest.
pub record CreateRequest : Type 0 where
  pub assumption_id : Option ℕ
  pub proposal_category : ProposalCategoryType
  pub proposal_content : Option String
  pub reason : Option String

unfoldable pub validate_assumption_for_proposal : ℕ → ℕ → Action Assumption
validate_assumption_for_proposal assumption_id event_id = do
  found ← query (assumption_of assumption_id)
  assumption ← or_raise found (not_found "Assumption not found")
  raise_if (not (assumption.event_id == event_id)) (not_found "Assumption not found")
  raise_if assumption.is_deleted (validation "Assumption is deleted")
  pure assumption

abbrev validate_target : ProposalCategoryType → Option ℕ → ℕ → Action (Unit {0})
validate_target ProposalCategoryType.creation target event_id =
    raise_if (is_some target) (validation "Invalid assumption_id")
validate_target _ none event_id = raise (validation "Missing assumption_id")
validate_target _ (some assumption_id) event_id =
    validate_assumption_for_proposal assumption_id event_id >> pure tt

abbrev pub validate_content : ProposalCategoryType → Option String → Action (Unit {0})
validate_content ProposalCategoryType.deletion content =
    raise_if (is_some content) (validation "Invalid proposal_content")
validate_content _ content =
    raise_if (not (is_some content)) (validation "Missing proposal_content")

unfoldable pub validate_proposal_category_fields : CreateRequest → ℕ → Action (Unit {0})
validate_proposal_category_fields request event_id = do
  validate_content request.proposal_category request.proposal_content
  validate_target request.proposal_category request.assumption_id event_id

abbrev pub is_pending_by : ℕ → Option ℕ → ℕ → AssumptionProposal → Bool
is_pending_by event_id assumption_id user_id p =
    p.columns.event_id == event_id
    && opt_eq p.columns.assumption_id assumption_id
    && p.created_by == user_id
    && is_proposal_pending p.proposal_status

unfoldable pub get_pending_assumption_proposal_by_user :
    ℕ → Option ℕ → ℕ → Action (Option AssumptionProposal)
get_pending_assumption_proposal_by_user event_id assumption_id user_id = do
  rows ←
      query (λ d. where_rows (is_pending_by event_id assumption_id user_id) d.assumption_proposals)
  scalar_one_or_none rows

-- The transaction of `_execute_create`.
unfoldable pub create_block : ℕ → CreateRequest → ℕ → Action AssumptionProposal
create_block event_id request user_id = do
  created_proposal ←
      create_proposal_generic assumption_table request.proposal_content user_id (record {
        event_id = event_id;
        assumption_id = request.assumption_id;
        proposal_category = request.proposal_category;
        reason = request.reason;
        applied_target_id = none;
      })
  create_outbox_event "proposal.created.v1" (brief_payload created_proposal.id "assumption")
      event_id
  pure created_proposal

-- `_execute_create` of create_assumption_proposal.
unfoldable pub execute_create_assumption_proposal : ℕ → CreateRequest → ℕ → Action Body
execute_create_assumption_proposal event_id request user_id = do
  validate_event_in_progress event_id
  validate_membership_accepted user_id event_id
  validate_proposal_category_fields request event_id
  existing_proposal ← get_pending_assumption_proposal_by_user event_id request.assumption_id user_id
  raise_if (is_some existing_proposal) (conflict "Duplicate proposal")
  created_proposal ← transaction (create_block event_id request user_id)
  vote_count ← count_votes assumption_votes created_proposal.id
  pure (assumption_response created_proposal vote_count false)

unfoldable pub get_assumption_proposal_by_id : ℕ → Action (Option AssumptionProposal)
get_assumption_proposal_by_id = get_proposal_by_id_generic assumption_table

-- `validate_proposal_pending` of the vote methods.
unfoldable pub validate_proposal_pending : Option AssumptionProposal → ℕ → Action AssumptionProposal
validate_proposal_pending found event_id = do
  proposal ← or_raise found (not_found "Proposal not found")
  raise_if (not (proposal.columns.event_id == event_id)) (not_found "Proposal not found")
  raise_if (not (is_proposal_pending proposal.proposal_status)) (validation "Proposal not pending")
  pure proposal

unfoldable pub check_duplicate_vote : ℕ → ℕ → Action (Unit {0})
check_duplicate_vote proposal_id user_id = do
  existing_vote ← get_user_vote assumption_votes proposal_id user_id
  raise_if (is_some existing_vote) (conflict "Already voted")

-- `if proposal:` around the outbox event of a vote.
unfoldable pub vote_outbox : String → ℕ → Option AssumptionProposal → Action (Unit {0})
vote_outbox event_type proposal_id none = pure tt
vote_outbox event_type proposal_id (some p) =
    create_outbox_event event_type (brief_payload proposal_id "assumption") p.columns.event_id
    >> pure tt

unfoldable pub create_assumption_vote : ℕ → ℕ → Action ProposalVote
create_assumption_vote pid uid = do
  created_vote ← create_proposal_vote assumption_votes pid uid
  proposal ← get_assumption_proposal_by_id pid
  vote_outbox "proposal.vote.created.v1" pid proposal
  pure created_vote

unfoldable pub get_assumption_vote : ℕ → ℕ → Action ProposalVote
get_assumption_vote pid uid = do
  vote ← get_user_vote assumption_votes pid uid
  or_raise vote (not_found "Vote not found")

unfoldable pub delete_assumption_vote : ProposalVote → Action (Unit {0})
delete_assumption_vote vote = do
  proposal ← get_assumption_proposal_by_id vote.proposal_id
  delete_proposal_vote assumption_votes vote
  vote_outbox "proposal.vote.deleted.v1" vote.proposal_id proposal

-- The target of a modification or deletion, changed by `f` if it is there; its id is recorded.
unfoldable pub change_target : (Assumption → Assumption) → Option Assumption → ℕ → Action (Option ℕ)
change_target f none user_id = pure none
change_target f (some a) user_id = update_assumption f a user_id >> pure (some a.id)

abbrev pub modify : String → Assumption → Assumption
modify content a = record a {
  original_content = some a.content;
  content = content;
  is_modified = true;
}

-- A None in the content of a modification violates NOT NULL at the flush.
unfoldable pub modify_target : Option Assumption → Option String → ℕ → Action (Option ℕ)
modify_target none content user_id = pure none
modify_target (some a) content user_id = do
  text ← or_raise content (integrity "assumptions.content")
  change_target (modify text) (some a) user_id

unfoldable pub apply_category : ProposalCategoryType → AssumptionProposal → Action (Option ℕ)
apply_category ProposalCategoryType.creation p = do
  assumption ← create_assumption p.columns.event_id p.proposal_content p.created_by
  pure (some assumption.id)
apply_category ProposalCategoryType.modification p = do
  found ← query (maybe_of assumption_of p.columns.assumption_id)
  modify_target found p.proposal_content p.created_by
apply_category ProposalCategoryType.deletion p = do
  found ← query (maybe_of assumption_of p.columns.assumption_id)
  change_target (λ a. record a { is_deleted = true }) found p.created_by

-- An `applied_target_id` that was not assigned keeps its value.
abbrev pub or_else : Option ℕ → Option ℕ → Option ℕ
or_else none old = old
or_else (some id) old = some id

abbrev pub mark_applied : Option ℕ → ℕ → AssumptionProposal → AssumptionProposal
mark_applied target at p = record p {
  applied_at = some at;
  columns = record p.columns { applied_target_id = or_else target p.columns.applied_target_id };
}

unfoldable pub apply_assumption_proposal : AssumptionProposal → Event → Action (Unit {0})
apply_assumption_proposal proposal event = do
  target ← apply_category proposal.columns.proposal_category proposal
  applied_at ← utc_now
  update_proposal_generic assumption_table (mark_applied target applied_at) proposal

-- The outbox event of an automatic approval.
unfoldable pub auto_approved_outbox : AssumptionProposal → Event → Action (Unit {0})
auto_approved_outbox p event =
    create_outbox_event "proposal.approved.v1"
      (decision_payload p.id "assumption" (some p.columns.event_id) "approved_by" none)
      p.columns.event_id
    >> pure tt

-- `auto_approve` of the vote methods.
unfoldable pub auto_approve_assumption : AssumptionProposal → Event → Action (Unit {0})
auto_approve_assumption proposal event = do
  vote_count ← count_votes assumption_votes proposal.id
  check_and_auto_approve proposal event vote_count
      (approve_proposal_if_pending_generic assumption_table) apply_assumption_proposal
      auto_approved_outbox event.assumption_min_votes_required none none
      event.assumption_is_auto_approved_by_votes

unfoldable pub create_assumption_proposal_vote : ℕ → ℕ → ℕ → Action VoteResponse
create_assumption_proposal_vote event_id proposal_id user_id =
    create_vote event_id proposal_id user_id validate_event_in_progress
      get_assumption_proposal_by_id validate_proposal_pending check_duplicate_vote
      create_assumption_vote auto_approve_assumption (count_votes assumption_votes)

unfoldable pub delete_assumption_proposal_vote : ℕ → ℕ → ℕ → Action VoteResponse
delete_assumption_proposal_vote event_id proposal_id user_id =
    delete_vote event_id proposal_id user_id validate_event_in_progress
      get_assumption_proposal_by_id validate_proposal_pending get_assumption_vote
      delete_assumption_vote auto_approve_assumption (count_votes assumption_votes)

unfoldable pub validate_proposal_belongs_to_event : AssumptionProposal → ℕ → Action (Unit {0})
validate_proposal_belongs_to_event p event_id =
    raise_if (not (p.columns.event_id == event_id)) (not_found "Proposal not found")

unfoldable pub decision_outbox :
    ℕ → AssumptionProposal → Event → ProposalStatusType → Action (Unit {0})
decision_outbox user_id p event status =
    create_outbox_event (decision_event status)
      (decision_payload p.id "assumption" (some p.columns.event_id) (decision_key status)
        (some user_id))
      p.columns.event_id
    >> pure tt

unfoldable pub build_response : AssumptionProposal → ℕ → Action Body
build_response p user_id = do
  vote_count ← count_votes assumption_votes p.id
  has_voted ← query (has_voted assumption_votes p.id user_id)
  pure (assumption_response p vote_count has_voted)

-- `_execute_update` of update_assumption_proposal_status.
unfoldable pub execute_update_assumption_proposal_status :
    ℕ → ℕ → ProposalStatusType → ℕ → Action Body
execute_update_assumption_proposal_status event_id proposal_id status user_id =
    update_status event_id proposal_id status user_id verify_admin get_assumption_proposal_by_id
      validate_proposal_belongs_to_event (approve_proposal_if_pending_generic assumption_table)
      (reject_proposal_if_pending_generic assumption_table) apply_assumption_proposal
      (decision_outbox user_id) build_response
