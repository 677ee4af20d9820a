-- ===== src/Proposal/ConclusionEffects.antt =====
-- The callbacks and use cases for proposals of conclusions against the commit of the session.
use madcamp_w2_decision_make.Proposal.Conclusions.{
  apply_conclusion_proposal, validate_proposal_pending, check_duplicate_vote, vote_outbox,
  auto_approved_outbox, validate_proposal_belongs_to_event, decision_outbox, build_response,
  create_conclusion_vote, auto_approve_conclusion, create_conclusion_proposal_vote,
  conclusion_outbox, conclude, execute_update_conclusion_proposal_status, delete_conclusion_vote,
  get_conclusion_proposal_by_id, get_conclusion_vote, event_outbox, validate_criterion_in_event,
  delete_conclusion_proposal_vote,
}
use madcamp_w2_decision_make.Repositories.Proposals.{
  update_proposal_generic, get_proposal_by_id_generic, approve_proposal_if_pending_generic,
  conclusion_table,
}
use madcamp_w2_decision_make.Repositories.ProposalVotes.{
  count_votes, create_proposal_vote, delete_proposal_vote, conclusion_votes,
}
use madcamp_w2_decision_make.Model.{
  ConclusionProposal, Event, ProposalStatusType, Criterion, ProposalVote, is_proposal_pending,
}
use madcamp_w2_decision_make.Prelude.{ℕ, String, Option, some, not, none}
use madcamp_w2_decision_make.Proposal.AutoApproval.{
  apply_approved, check_and_auto_approve, approve_and_apply, is_reached,
}
use madcamp_w2_decision_make.Repositories.Contents.{update_criterion}
use madcamp_w2_decision_make.Session.Atomic.{
  Uncommitting, Atomic, Total, Total-bind, Uncommitting-bind, Uncommitting-query, Uncommitting-if,
  Total-query, Uncommitting-or_raise, Total-pure, Uncommitting-raise_if, Uncommitting-pure,
  Uncommitting-utc_now,
}
use madcamp_w2_decision_make.Proposal.Atomicity.{
  delete_vote-Atomic, update_status-Atomic, create_vote-Atomic, decide_block-Uncommitting,
}
use madcamp_w2_decision_make.Repositories.Effects.{
  effect_rules, get_user_vote-Uncommitting, approve_if_pending-Uncommitting,
  reject_if_pending-Uncommitting,
}
use madcamp_w2_decision_make.BaseService.Inversion.{
  validate_event_in_progress-Uncommitting, verify_admin-Uncommitting,
}

event_outbox-Uncommitting : (t : String) (i : ℕ) (o : Option ℕ) → Uncommitting (event_outbox t i o)
unfolding event_outbox
event_outbox-Uncommitting t i none = search effect_rules
event_outbox-Uncommitting t i (some e) = search effect_rules

vote_outbox-Uncommitting :
    (t : String) (i : ℕ) (o : Option ConclusionProposal) → Uncommitting (vote_outbox t i o)
unfolding vote_outbox
vote_outbox-Uncommitting t i none = search effect_rules
vote_outbox-Uncommitting t i (some p) = search (effect_rules, event_outbox-Uncommitting)

conclude-Uncommitting :
    (o : Option Criterion) (content : Option String) (u : ℕ) → Uncommitting (conclude o content u)
unfolding conclude update_criterion
conclude-Uncommitting none content u = search effect_rules
conclude-Uncommitting (some c) content u = search effect_rules

conclusion_outbox-Uncommitting :
    (t key : String) (u : Option ℕ) (p : ConclusionProposal)
    → Uncommitting (conclusion_outbox t key u p)
unfolding conclusion_outbox
conclusion_outbox-Uncommitting t key u p = search effect_rules depth 9

apply_conclusion_proposal-Uncommitting :
    (p : ConclusionProposal) (e : Event) → Uncommitting (apply_conclusion_proposal p e)
unfolding apply_conclusion_proposal update_proposal_generic
apply_conclusion_proposal-Uncommitting p e = search (effect_rules, conclude-Uncommitting) depth 9

validate_criterion-Uncommitting :
    (m : String) (o : Option Criterion) (i : ℕ) → Uncommitting (validate_criterion_in_event m o i)
unfolding validate_criterion_in_event
validate_criterion-Uncommitting m none i = search effect_rules
validate_criterion-Uncommitting m (some c) i = search effect_rules

create_conclusion_vote-Uncommitting : (i j : ℕ) → Uncommitting (create_conclusion_vote i j)
unfolding create_conclusion_vote create_proposal_vote get_conclusion_proposal_by_id
    get_proposal_by_id_generic
create_conclusion_vote-Uncommitting i j = search (effect_rules, vote_outbox-Uncommitting) depth 12

delete_conclusion_vote-Uncommitting : (v : ProposalVote) → Uncommitting (delete_conclusion_vote v)
unfolding delete_conclusion_vote delete_proposal_vote get_conclusion_proposal_by_id
    get_proposal_by_id_generic
delete_conclusion_vote-Uncommitting v = search (effect_rules, vote_outbox-Uncommitting) depth 8

apply_approved-Uncommitting :
    (p : ConclusionProposal) (e : Event) (n : ℕ) (o : Option ConclusionProposal)
    → Uncommitting (
        apply_approved p e n
          (approve_proposal_if_pending_generic conclusion_table)
          apply_conclusion_proposal
          auto_approved_outbox
          o)
unfolding apply_approved auto_approved_outbox
apply_approved-Uncommitting p e n none = search effect_rules
apply_approved-Uncommitting p e n (some q) =
    Uncommitting-bind _ _ (apply_conclusion_proposal-Uncommitting q e)
      λ x. conclusion_outbox-Uncommitting _ _ _ q

auto_approve_conclusion-Uncommitting :
    (p : ConclusionProposal) (e : Event) → Uncommitting (auto_approve_conclusion p e)
unfolding auto_approve_conclusion check_and_auto_approve approve_and_apply count_votes
auto_approve_conclusion-Uncommitting p e = Uncommitting-bind _ _ (Uncommitting-query _) λ n.
    Uncommitting-bind _ _ (Uncommitting-query _) λ m.
      Uncommitting-if (not (is_proposal_pending p.proposal_status)) _ _ (Uncommitting-pure tt) (
        Uncommitting-if (not e.conclusion_is_auto_approved_by_votes) _ _ (Uncommitting-pure tt) (
          Uncommitting-if (is_reached n none e.conclusion_approval_threshold_percent (some m)) _ _
            (Uncommitting-bind _ _ Uncommitting-utc_now λ now.
              Uncommitting-bind _ _ (approve_if_pending-Uncommitting conclusion_table p.id now)
                (apply_approved-Uncommitting p e n))
            (Uncommitting-pure tt)))

validate_proposal_pending-Uncommitting :
    (o : Option ConclusionProposal) (i : ℕ) → Uncommitting (validate_proposal_pending o i)
unfolding validate_proposal_pending
validate_proposal_pending-Uncommitting o i = Uncommitting-bind _ _ (Uncommitting-or_raise _ _) λ p.
    Uncommitting-bind _ _ (Uncommitting-query _) λ c.
      Uncommitting-bind _ _ (validate_criterion-Uncommitting _ c i)
        λ x. Uncommitting-bind _ _ (Uncommitting-raise_if _ _) λ y. Uncommitting-pure p

check_duplicate_vote-Uncommitting : (i j : ℕ) → Uncommitting (check_duplicate_vote i j)
unfolding check_duplicate_vote
check_duplicate_vote-Uncommitting i j =
    Uncommitting-bind _ _ (get_user_vote-Uncommitting conclusion_votes i j)
      λ o. Uncommitting-raise_if _ _

get_conclusion_vote-Uncommitting : (i j : ℕ) → Uncommitting (get_conclusion_vote i j)
unfolding get_conclusion_vote
get_conclusion_vote-Uncommitting i j =
    Uncommitting-bind _ _ (get_user_vote-Uncommitting conclusion_votes i j)
      λ o. Uncommitting-or_raise _ _

get_proposal-Uncommitting : (i : ℕ) → Uncommitting (get_conclusion_proposal_by_id i)
unfolding get_conclusion_proposal_by_id get_proposal_by_id_generic
get_proposal-Uncommitting i = Uncommitting-query _

-- A vote on a proposal of a conclusion that raises leaves the committed database as it was, the
-- vote, the automatic approval, its application and the outbox events included.
pub create_conclusion_proposal_vote-Atomic :
    (event_id proposal_id user_id : ℕ)
    → Atomic (create_conclusion_proposal_vote event_id proposal_id user_id)
unfolding create_conclusion_proposal_vote count_votes
create_conclusion_proposal_vote-Atomic event_id proposal_id user_id =
    create_vote-Atomic event_id proposal_id user_id _ _ _ _ _
      validate_event_in_progress-Uncommitting get_proposal-Uncommitting
      validate_proposal_pending-Uncommitting auto_approve_conclusion-Uncommitting
      (λ i. Total-query _) _ _ check_duplicate_vote-Uncommitting create_conclusion_vote-Uncommitting

-- A withdrawal of a vote on a proposal of a conclusion that raises leaves the committed database
-- as it was.
pub delete_conclusion_proposal_vote-Atomic :
    (event_id proposal_id user_id : ℕ)
    → Atomic (delete_conclusion_proposal_vote event_id proposal_id user_id)
unfolding delete_conclusion_proposal_vote count_votes
delete_conclusion_proposal_vote-Atomic event_id proposal_id user_id =
    delete_vote-Atomic event_id proposal_id user_id _ _ _ _ _
      validate_event_in_progress-Uncommitting get_proposal-Uncommitting
      validate_proposal_pending-Uncommitting auto_approve_conclusion-Uncommitting
      (λ i. Total-query _) _ _ get_conclusion_vote-Uncommitting delete_conclusion_vote-Uncommitting

decision_outbox-Uncommitting :
    (u : ℕ) (st : ProposalStatusType) (p : ConclusionProposal) (e : Event)
    → Uncommitting (decision_outbox u p e st)
unfolding decision_outbox
decision_outbox-Uncommitting u st p e = conclusion_outbox-Uncommitting _ _ _ p

belongs-Uncommitting :
    (p : ConclusionProposal) (i : ℕ) → Uncommitting (validate_proposal_belongs_to_event p i)
unfolding validate_proposal_belongs_to_event
belongs-Uncommitting p i =
    Uncommitting-bind _ _ (Uncommitting-query _) λ c. validate_criterion-Uncommitting _ c i

build_response-Total : (p : ConclusionProposal) (i : ℕ) → Total (build_response p i)
unfolding build_response count_votes
build_response-Total p i =
    Total-bind _ _ (Total-query _) λ n. Total-bind _ _ (Total-query _) λ b. Total-pure _

-- A decision of the admin on a proposal of a conclusion that raises leaves the committed database
-- as it was.
pub execute_update_conclusion_proposal_status-Atomic :
    (event_id proposal_id : ℕ) (status : ProposalStatusType) (user_id : ℕ)
    → Atomic (execute_update_conclusion_proposal_status event_id proposal_id status user_id)
unfolding execute_update_conclusion_proposal_status
execute_update_conclusion_proposal_status-Atomic event_id proposal_id status user_id =
    update_status-Atomic event_id proposal_id status user_id _ _ _ _ _ _ _ _
      verify_admin-Uncommitting get_proposal-Uncommitting belongs-Uncommitting
      (decide_block-Uncommitting event_id proposal_id status user_id _ _ _ _ _ _ _ _
        (approve_if_pending-Uncommitting conclusion_table)
        (reject_if_pending-Uncommitting conclusion_table) apply_conclusion_proposal-Uncommitting
        (decision_outbox-Uncommitting user_id status))
      build_response-Total
