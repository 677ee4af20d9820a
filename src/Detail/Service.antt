-- ===== src/Detail/Service.antt =====
-- app/services/event/detail_service.py: get_event_detail. The users are an argument, since no
-- operation of the model writes their table.
use madcamp_w2_decision_make.Prelude.{
  ℕ, String, Bool, Option, some, List, [], ◌∷◌, ◌++◌, ◌==◌, map, where_rows, contains,
}
use madcamp_w2_decision_make.Model.{
  Database, EventStatusType, Assumption, Criterion, ConclusionProposal, Proposal,
  ProposalStatusType,
}
use madcamp_w2_decision_make.Session.{Action, pure, query, ◌>>=◌, ◌>>◌}
use madcamp_w2_decision_make.BaseService.{
  get_event_with_all_relations, validate_membership_accepted,
}
use madcamp_w2_decision_make.Repositories.Events.{count_accepted_members}
use madcamp_w2_decision_make.Repositories.Votes.{count_voted_users, is_option_in, is_criterion_in}
use madcamp_w2_decision_make.Repositories.ProposalVotes.{
  vote_count_of, assumption_votes, criterion_votes, conclusion_votes,
}
use madcamp_w2_decision_make.Repositories.ProposalLists.{
  get_assumption_proposals_by_event_id, get_criteria_proposals_by_event_id,
  get_conclusion_proposals_by_criterion_id, get_user_votes_on_proposals,
}
use madcamp_w2_decision_make.Detail.Groups.{
  User, ProposalVoteInfo, ProposalInfo, on_assumption, on_criterion, name_of, email_of, Applied,
  get_list, get_applied, group_proposals, applied_at_map, proposal_info, empty_groups,
}

pub record AssumptionWithProposals : Type 0 where
  pub id : ℕ
  pub content : String
  pub is_deleted : Bool
  pub is_modified : Bool
  pub original_content : Option String
  pub modified_at : Option ℕ
  pub deleted_at : Option ℕ
  pub proposals : List ProposalInfo

-- The schema wants a text for `proposal_content`, which every conclusion proposal has.
pub record ConclusionProposalInfo : Type 0 where
  pub id : ℕ
  pub criterion_id : ℕ
  pub proposal_status : ProposalStatusType
  pub proposal_content : Option String
  pub created_at : ℕ
  pub created_by : ℕ
  pub creator_name : Option String
  pub creator_email : Option String
  pub vote_info : ProposalVoteInfo

pub record CriterionWithProposals : Type 0 where
  pub id : ℕ
  pub content : String
  pub conclusion : Option String
  pub is_deleted : Bool
  pub is_modified : Bool
  pub original_content : Option String
  pub modified_at : Option ℕ
  pub deleted_at : Option ℕ
  pub proposals : List ProposalInfo
  pub conclusion_proposals : List ConclusionProposalInfo

pub record EventDetailResponse : Type 0 where
  pub id : ℕ
  pub decision_subject : String
  pub event_status : EventStatusType
  pub is_admin : Bool
  pub options : List (ℕ × String)
  pub assumptions : List AssumptionWithProposals
  pub criteria : List CriterionWithProposals
  pub assumption_creation_proposals : List ProposalInfo
  pub criteria_creation_proposals : List ProposalInfo
  pub current_participants_count : ℕ
  pub voted_participants_count : ℕ

abbrev pub conclusion_info :
    (ℕ → Option User) → List ℕ → Database → ConclusionProposal → ConclusionProposalInfo
conclusion_info users user_votes d p = record {
  id = p.id;
  criterion_id = p.columns.criterion_id;
  proposal_status = p.proposal_status;
  proposal_content = p.proposal_content;
  created_at = p.created_at;
  created_by = p.created_by;
  creator_name = name_of (users p.created_by);
  creator_email = email_of (users p.created_by);
  vote_info = record {
    vote_count = vote_count_of conclusion_votes p.id d;
    has_voted = contains p.id user_votes;
  };
}

abbrev pub assumption_with_proposals :
    List (Option ℕ × List ProposalInfo)
    → List (Option ℕ × Applied)
    → Assumption
    → AssumptionWithProposals
assumption_with_proposals by_id applied_at a = record {
  id = a.id;
  content = a.content;
  is_deleted = a.is_deleted;
  is_modified = a.is_modified;
  original_content = a.original_content;
  modified_at = (get_applied (some a.id) applied_at).modified_at;
  deleted_at = (get_applied (some a.id) applied_at).deleted_at;
  proposals = get_list (some a.id) by_id;
}

abbrev pub criterion_with_proposals :
    List (Option ℕ × List ProposalInfo)
    → List (Option ℕ × Applied)
    → (List ConclusionProposal → List ConclusionProposalInfo)
    → List (Option ℕ × List ConclusionProposal)
    → Criterion
    → CriterionWithProposals
criterion_with_proposals by_id applied_at infos conclusions c = record {
  id = c.id;
  content = c.content;
  conclusion = c.conclusion;
  is_deleted = c.is_deleted;
  is_modified = c.is_modified;
  original_content = c.original_content;
  modified_at = (get_applied (some c.id) applied_at).modified_at;
  deleted_at = (get_applied (some c.id) applied_at).deleted_at;
  proposals = get_list (some c.id) by_id;
  conclusion_proposals = infos (get_list (some c.id) conclusions);
}

abbrev pub Conclusions : Type 0
Conclusions = List (Option ℕ × List ConclusionProposal)

-- `for criterion_id in criterion_ids:`, the queries and the dictionary of their rows. An id comes
-- once, since the criteria are rows of one table.
unfoldable pub collect_conclusions : List Criterion → Action Conclusions
collect_conclusions [] = pure []
collect_conclusions (c ∷ cs) = get_conclusion_proposals_by_criterion_id c.id >>= λ ps.
    collect_conclusions cs >>= λ rest. pure ((some c.id, ps) ∷ rest)

-- `all_conclusion_proposals`
unfoldable pub all_conclusions : Conclusions → List ConclusionProposal
all_conclusions [] = []
all_conclusions ((k, ps) ∷ rest) = ps ++ all_conclusions rest

abbrev pub is_assumption_in : ℕ → Assumption → Bool
is_assumption_in event_id a = a.event_id == event_id

abbrev pub ids_of : {C : Type 0} → List (Proposal C) → List ℕ
ids_of ps = map (λ p. p.id) ps

unfoldable pub get_event_detail : (ℕ → Option User) → ℕ → ℕ → Action EventDetailResponse
get_event_detail users event_id user_id = do
  event ← get_event_with_all_relations event_id
  options ← query (λ d. where_rows (is_option_in event_id) d.options)
  event_assumptions ← query (λ d. where_rows (is_assumption_in event_id) d.assumptions)
  event_criteria ← query (λ d. where_rows (is_criterion_in event_id) d.criteria)
  validate_membership_accepted user_id event_id
  assumption_proposals ← get_assumption_proposals_by_event_id event_id
  criteria_proposals ← get_criteria_proposals_by_event_id event_id
  on_assumptions ←
      get_user_votes_on_proposals assumption_votes (ids_of assumption_proposals) user_id
  on_criteria ← get_user_votes_on_proposals criterion_votes (ids_of criteria_proposals) user_id
  conclusions ← collect_conclusions event_criteria
  on_conclusions ←
      get_user_votes_on_proposals conclusion_votes (ids_of (all_conclusions conclusions)) user_id
  d ← query (λ d. d)
  let assumption_info = proposal_info on_assumption users assumption_votes on_assumptions d
  let criteria_info = proposal_info on_criterion users criterion_votes on_criteria d
  let assumption_groups =
      group_proposals on_assumption assumption_info assumption_proposals empty_groups
  let criteria_groups = group_proposals on_criterion criteria_info criteria_proposals empty_groups
  current_participants_count ← count_accepted_members event_id
  voted_participants_count ← count_voted_users event_id
  pure record {
    id = event.id;
    decision_subject = event.decision_subject;
    event_status = event.event_status;
    is_admin = event.admin_id == user_id;
    options = map (λ o. (o.id, o.content)) options;
    assumptions =
        map
          (assumption_with_proposals assumption_groups.by_id
            (applied_at_map on_assumption assumption_proposals []))
          event_assumptions;
    criteria =
        map
          (criterion_with_proposals criteria_groups.by_id
            (applied_at_map on_criterion criteria_proposals [])
            (map (conclusion_info users on_conclusions d)) conclusions)
          event_criteria;
    assumption_creation_proposals = assumption_groups.creation_proposals;
    criteria_creation_proposals = criteria_groups.creation_proposals;
    current_participants_count = current_participants_count;
    voted_participants_count = voted_participants_count;
  }
