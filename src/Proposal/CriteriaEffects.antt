-- ===== src/Proposal/CriteriaEffects.antt =====
-- The callbacks and use cases for proposals of criteria against the commit of the session.
use madcamp_w2_decision_make.Proposal.Criteria.{
  apply_category, validate_proposal_pending, check_duplicate_vote, vote_outbox, change_target,
  modify_target, auto_approved_outbox, validate_proposal_belongs_to_event, decision_outbox,
  build_response, get_criteria_vote, get_criteria_proposal_by_id, delete_criteria_vote,
  apply_criteria_proposal, execute_update_criteria_proposal_status, create_criteria_proposal_vote,
  auto_approve_criteria, delete_criteria_proposal_vote, create_criteria_vote,
}
use madcamp_w2_decision_make.Prelude.{ℕ, Option, String, some, not, none}
use madcamp_w2_decision_make.Repositories.Contents.{create_criterion, update_criterion}
use madcamp_w2_decision_make.Model.{
  CriteriaProposal, ProposalCategoryType, Event, ProposalStatusType, Criterion, ProposalVote,
  is_proposal_pending,
}
use madcamp_w2_decision_make.Proposal.AutoApproval.{
  apply_approved, check_and_auto_approve, approve_and_apply, is_reached,
}
use madcamp_w2_decision_make.Repositories.ProposalVotes.{
  count_votes, delete_proposal_vote, create_proposal_vote, criterion_votes,
}
use madcamp_w2_decision_make.Session.Atomic.{
  Atomic, Uncommitting, Total, Uncommitting-query, Uncommitting-raise_if, Total-bind,
  Uncommitting-bind, uncommitting_rules, Total-query, Uncommitting-if, Total-pure,
  Uncommitting-or_raise, Uncommitting-pure, Uncommitting-utc_now,
}
use madcamp_w2_decision_make.Repositories.Proposals.{
  update_proposal_generic, get_proposal_by_id_generic, approve_proposal_if_pending_generic,
  criteria_table,
}
use madcamp_w2_decision_make.Repositories.Effects.{
  effect_rules, get_user_vote-Uncommitting, approve_if_pending-Uncommitting,
  reject_if_pending-Uncommitting,
}
use madcamp_w2_decision_make.Proposal.Atomicity.{
  create_vote-Atomic, update_status-Atomic, delete_vote-Atomic, decide_block-Uncommitting,
}
use madcamp_w2_decision_make.BaseService.Inversion.{
  verify_admin-Uncommitting, validate_event_in_progress-Uncommitting,
}

change_target-Uncommitting :
    (f : Criterion → Criterion) (o : Option Criterion) (u : ℕ) → Uncommitting (change_target f o u)
unfolding change_target update_criterion
change_target-Uncommitting f none u = search effect_rules
change_target-Uncommitting f (some a) u = search effect_rules

modify_target-Uncommitting :
    (o : Option Criterion) (content : Option String) (u : ℕ)
    → Uncommitting (modify_target o content u)
unfolding modify_target
modify_target-Uncommitting none content u = search effect_rules
modify_target-Uncommitting (some a) content u = search (effect_rules, change_target-Uncommitting)

apply_category-Uncommitting :
    (c : ProposalCategoryType) (p : CriteriaProposal) → Uncommitting (apply_category c p)
unfolding apply_category create_criterion
apply_category-Uncommitting ProposalCategoryType.creation p = search effect_rules depth 9
apply_category-Uncommitting ProposalCategoryType.modification p =
    search (effect_rules, modify_target-Uncommitting)
apply_category-Uncommitting ProposalCategoryType.deletion p =
    search (effect_rules, change_target-Uncommitting)

apply_criteria_proposal-Uncommitting :
    (p : CriteriaProposal) (e : Event) → Uncommitting (apply_criteria_proposal p e)
unfolding apply_criteria_proposal update_proposal_generic
apply_criteria_proposal-Uncommitting p e = search (effect_rules, apply_category-Uncommitting)

vote_outbox-Uncommitting :
    (t : String) (i : ℕ) (o : Option CriteriaProposal) → Uncommitting (vote_outbox t i o)
unfolding vote_outbox
vote_outbox-Uncommitting t i none = search effect_rules
vote_outbox-Uncommitting t i (some p) = search effect_rules

create_criteria_vote-Uncommitting : (i j : ℕ) → Uncommitting (create_criteria_vote i j)
unfolding create_criteria_vote create_proposal_vote get_criteria_proposal_by_id
    get_proposal_by_id_generic
create_criteria_vote-Uncommitting i j = search (effect_rules, vote_outbox-Uncommitting) depth 12

delete_criteria_vote-Uncommitting : (v : ProposalVote) → Uncommitting (delete_criteria_vote v)
unfolding delete_criteria_vote delete_proposal_vote get_criteria_proposal_by_id
    get_proposal_by_id_generic
delete_criteria_vote-Uncommitting v = search (effect_rules, vote_outbox-Uncommitting) depth 8

apply_approved-Uncommitting :
    (p : CriteriaProposal) (e : Event) (n : ℕ) (o : Option CriteriaProposal)
    → Uncommitting (
        apply_approved p e n
          (approve_proposal_if_pending_generic criteria_table)
          apply_criteria_proposal
          auto_approved_outbox
          o)
unfolding apply_approved auto_approved_outbox
apply_approved-Uncommitting p e n none = search effect_rules
apply_approved-Uncommitting p e n (some q) =
    search (effect_rules, apply_criteria_proposal-Uncommitting) depth 8

auto_approve_criteria-Uncommitting :
    (p : CriteriaProposal) (e : Event) → Uncommitting (auto_approve_criteria p e)
unfolding auto_approve_criteria check_and_auto_approve approve_and_apply count_votes
auto_approve_criteria-Uncommitting p e = Uncommitting-bind _ _ (Uncommitting-query _) λ n.
    Uncommitting-if (not (is_proposal_pending p.proposal_status)) _ _ (Uncommitting-pure tt) (
      Uncommitting-if (not e.criteria_is_auto_approved_by_votes) _ _ (Uncommitting-pure tt) (
        Uncommitting-if (is_reached n e.criteria_min_votes_required none none) _ _
          (Uncommitting-bind _ _ Uncommitting-utc_now λ now.
            Uncommitting-bind _ _ (approve_if_pending-Uncommitting criteria_table p.id now)
              (apply_approved-Uncommitting p e n))
          (Uncommitting-pure tt)))

validate_proposal_pending-Uncommitting :
    (o : Option CriteriaProposal) (i : ℕ) → Uncommitting (validate_proposal_pending o i)
unfolding validate_proposal_pending
validate_proposal_pending-Uncommitting o i = search uncommitting_rules depth 9

check_duplicate_vote-Uncommitting : (i j : ℕ) → Uncommitting (check_duplicate_vote i j)
unfolding check_duplicate_vote
check_duplicate_vote-Uncommitting i j =
    Uncommitting-bind _ _ (get_user_vote-Uncommitting criterion_votes i j)
      λ o. Uncommitting-raise_if _ _

get_criteria_vote-Uncommitting : (i j : ℕ) → Uncommitting (get_criteria_vote i j)
unfolding get_criteria_vote
get_criteria_vote-Uncommitting i j =
    Uncommitting-bind _ _ (get_user_vote-Uncommitting criterion_votes i j)
      λ o. Uncommitting-or_raise _ _

get_proposal-Uncommitting : (i : ℕ) → Uncommitting (get_criteria_proposal_by_id i)
unfolding get_criteria_proposal_by_id get_proposal_by_id_generic
get_proposal-Uncommitting i = Uncommitting-query _

-- A vote on a proposal of a criterion that raises leaves the committed database as it was, the
-- vote, the automatic approval, its application and the outbox events included.
pub create_criteria_proposal_vote-Atomic :
    (event_id proposal_id user_id : ℕ)
    → Atomic (create_criteria_proposal_vote event_id proposal_id user_id)
unfolding create_criteria_proposal_vote count_votes
create_criteria_proposal_vote-Atomic event_id proposal_id user_id =
    create_vote-Atomic event_id proposal_id user_id _ _ _ _ _
      validate_event_in_progress-Uncommitting get_proposal-Uncommitting
      validate_proposal_pending-Uncommitting auto_approve_criteria-Uncommitting (λ i. Total-query _)
      _ _ check_duplicate_vote-Uncommitting create_criteria_vote-Uncommitting

-- A withdrawal of a vote on a proposal of a criterion that raises leaves the committed database
-- as it was.
pub delete_criteria_proposal_vote-Atomic :
    (event_id proposal_id user_id : ℕ)
    → Atomic (delete_criteria_proposal_vote event_id proposal_id user_id)
unfolding delete_criteria_proposal_vote count_votes
delete_criteria_proposal_vote-Atomic event_id proposal_id user_id =
    delete_vote-Atomic event_id proposal_id user_id _ _ _ _ _
      validate_event_in_progress-Uncommitting get_proposal-Uncommitting
      validate_proposal_pending-Uncommitting auto_approve_criteria-Uncommitting (λ i. Total-query _)
      _ _ get_criteria_vote-Uncommitting delete_criteria_vote-Uncommitting

decision_outbox-Uncommitting :
    (u : ℕ) (st : ProposalStatusType) (p : CriteriaProposal) (e : Event)
    → Uncommitting (decision_outbox u p e st)
unfolding decision_outbox
decision_outbox-Uncommitting u st p e = search effect_rules

belongs-Uncommitting :
    (p : CriteriaProposal) (i : ℕ) → Uncommitting (validate_proposal_belongs_to_event p i)
unfolding validate_proposal_belongs_to_event
belongs-Uncommitting p i = Uncommitting-raise_if _ _

build_response-Total : (p : CriteriaProposal) (i : ℕ) → Total (build_response p i)
unfolding build_response count_votes
build_response-Total p i =
    Total-bind _ _ (Total-query _) λ n. Total-bind _ _ (Total-query _) λ b. Total-pure _

-- A decision of the admin on a proposal of a criterion that raises leaves the committed database
-- as it was.
pub execute_update_criteria_proposal_status-Atomic :
    (event_id proposal_id : ℕ) (status : ProposalStatusType) (user_id : ℕ)
    → Atomic (execute_update_criteria_proposal_status event_id proposal_id status user_id)
unfolding execute_update_criteria_proposal_status
execute_update_criteria_proposal_status-Atomic event_id proposal_id status user_id =
    update_status-Atomic event_id proposal_id status user_id _ _ _ _ _ _ _ _
      verify_admin-Uncommitting get_proposal-Uncommitting belongs-Uncommitting
      (decide_block-Uncommitting event_id proposal_id status user_id _ _ _ _ _ _ _ _
        (approve_if_pending-Uncommitting criteria_table)
        (reject_if_pending-Uncommitting criteria_table) apply_criteria_proposal-Uncommitting
        (decision_outbox-Uncommitting user_id status))
      build_response-Total
