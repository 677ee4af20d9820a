-- ===== src/Proposal/Responses.antt =====
-- The dictionaries that the proposal methods return, `model_dump` of their response schemas, and
-- the payloads of their outbox events.
use madcamp_w2_decision_make.Model.{
  ConclusionProposal, AssumptionProposal, CriteriaProposal, ProposalStatusType,
  ProposalCategoryType, Proposal, Value, uuid, null, is_proposal_accepted, text, number, boolean,
}
use madcamp_w2_decision_make.Prelude.{
  List, Option, ℕ, String, Bool, if◌then◌else◌, ◌∷◌, some, none, [],
}

abbrev pub Body : Type 0
Body = List (String × Value)

abbrev pub optional_id : Option ℕ → Value
optional_id none = null
optional_id (some id) = uuid id

abbrev pub optional_text : Option String → Value
optional_text none = null
optional_text (some content) = text content

abbrev pub status_text : ProposalStatusType → String
status_text ProposalStatusType.pending = "PENDING"
status_text ProposalStatusType.accepted = "ACCEPTED"
status_text ProposalStatusType.rejected = "REJECTED"
status_text ProposalStatusType.deleted = "DELETED"

abbrev pub category_text : ProposalCategoryType → String
category_text ProposalCategoryType.creation = "CREATION"
category_text ProposalCategoryType.modification = "MODIFICATION"
category_text ProposalCategoryType.deletion = "DELETION"

-- The part of a response that all three schemas have.
abbrev pub base_response : {C : Type 0} → Proposal C → ℕ → Bool → Body
base_response p vote_count has_voted =
    ("id", uuid p.id)
    ∷ ("proposal_status", text (status_text p.proposal_status))
    ∷ ("proposal_content", optional_text p.proposal_content)
    ∷ ("created_at", number p.created_at)
    ∷ ("created_by", uuid p.created_by)
    ∷ ("vote_count", number vote_count)
    ∷ ("has_voted", boolean has_voted)
    ∷ []

abbrev pub assumption_response : AssumptionProposal → ℕ → Bool → Body
assumption_response p vote_count has_voted =
    ("event_id", uuid p.columns.event_id)
    ∷ ("assumption_id", optional_id p.columns.assumption_id)
    ∷ ("proposal_category", text (category_text p.columns.proposal_category))
    ∷ ("reason", optional_text p.columns.reason)
    ∷ base_response p vote_count has_voted

abbrev pub criteria_response : CriteriaProposal → ℕ → Bool → Body
criteria_response p vote_count has_voted =
    ("event_id", uuid p.columns.event_id)
    ∷ ("criteria_id", optional_id p.columns.criteria_id)
    ∷ ("proposal_category", text (category_text p.columns.proposal_category))
    ∷ ("reason", optional_text p.columns.reason)
    ∷ base_response p vote_count has_voted

abbrev pub conclusion_response : ConclusionProposal → ℕ → Bool → Body
conclusion_response p vote_count has_voted =
    ("criterion_id", uuid p.columns.criterion_id) ∷ base_response p vote_count has_voted

-- The payload of proposal.created.v1 and of the two vote events.
abbrev pub brief_payload : ℕ → String → Body
brief_payload proposal_id kind =
    ("proposal_id", uuid proposal_id) ∷ ("proposal_type", text kind) ∷ []

-- The payload of proposal.approved.v1 and proposal.rejected.v1; `key` names who decided.
abbrev pub decision_payload : ℕ → String → Option ℕ → String → Option ℕ → Body
decision_payload proposal_id kind event_id key user_id =
    ("proposal_id", uuid proposal_id)
    ∷ ("proposal_type", text kind)
    ∷ ("event_id", optional_id event_id)
    ∷ (key, optional_id user_id)
    ∷ []

abbrev pub decision_event : ProposalStatusType → String
decision_event status =
    if is_proposal_accepted status then "proposal.approved.v1" else "proposal.rejected.v1"

abbrev pub decision_key : ProposalStatusType → String
decision_key status = if is_proposal_accepted status then "approved_by" else "rejected_by"
