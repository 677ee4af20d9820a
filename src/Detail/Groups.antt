-- ===== src/Detail/Groups.antt =====
-- app/services/event/detail_service.py: the dictionaries that get_event_detail builds in memory.
-- A dictionary is a list of its entries in the order of insertion.
use madcamp_w2_decision_make.Prelude.{
  ℕ, String, Bool, true, false, Option, none, some, List, [], ◌∷◌, ◌++◌, ◌==◌, ◌&&◌, contains,
  is_some, if◌then◌else◌,
}
use madcamp_w2_decision_make.Model.{
  Database, Proposal, ProposalStatusType, ProposalCategoryType, AssumptionColumns, CriteriaColumns,
  is_proposal_accepted,
}
use madcamp_w2_decision_make.Repositories.ProposalVotes.{VoteTable, vote_count_of}

-- What the page shows of a user.
pub record User : Type 0 where
  pub name : Option String
  pub email : Option String

pub record ProposalVoteInfo : Type 0 where
  pub vote_count : ℕ
  pub has_voted : Bool

-- AssumptionProposalInfo and CriteriaProposalInfo, with `target_id` for the field `assumption_id`
-- of the one and `criteria_id` of the other.
pub record ProposalInfo : Type 0 where
  pub id : ℕ
  pub target_id : Option ℕ
  pub proposal_status : ProposalStatusType
  pub proposal_category : ProposalCategoryType
  pub proposal_content : Option String
  pub reason : Option String
  pub created_at : ℕ
  pub created_by : ℕ
  pub creator_name : Option String
  pub creator_email : Option String
  pub vote_info : ProposalVoteInfo

-- The columns that proposals on assumptions and proposals on criteria share.
pub record Targeted (C : Type 0) : Type 0 where
  pub target : C → Option ℕ
  pub category : C → ProposalCategoryType
  pub reason : C → Option String

abbrev pub on_assumption : Targeted AssumptionColumns
on_assumption = record {
  target = λ c. c.assumption_id;
  category = λ c. c.proposal_category;
  reason = λ c. c.reason;
}

abbrev pub on_criterion : Targeted CriteriaColumns
on_criterion = record {
  target = λ c. c.criteria_id;
  category = λ c. c.proposal_category;
  reason = λ c. c.reason;
}

-- `proposal.creator.name if proposal.creator else None`, and so for the email.
abbrev pub name_of : Option User → Option String
name_of none = none
name_of (some u) = u.name

abbrev pub email_of : Option User → Option String
email_of none = none
email_of (some u) = u.email

abbrev pub is_creation : ProposalCategoryType → Bool
is_creation ProposalCategoryType.creation = true
is_creation _ = false

abbrev pub same_key : Option ℕ → Option ℕ → Bool
same_key none none = true
same_key (some x) (some y) = x == y
same_key _ _ = false

-- `d.setdefault(key, []).append(x)`, written out in the source.
unfoldable pub append_to {ℓ} :
    {A : Type ℓ} → Option ℕ → A → List (Option ℕ × List A) → List (Option ℕ × List A)
append_to key x [] = (key, x ∷ []) ∷ []
append_to key x ((k, l) ∷ rest) =
    let others = append_to key x rest in
    if same_key k key then (k, l ++ (x ∷ [])) ∷ rest else (k, l) ∷ others

-- `d.get(key, [])`
unfoldable pub get_list {ℓ} : {A : Type ℓ} → Option ℕ → List (Option ℕ × List A) → List A
get_list key [] = []
get_list key ((k, l) ∷ rest) = let other = get_list key rest in if same_key k key then l else other

pub record Grouped : Type 0 where
  pub by_id : List (Option ℕ × List ProposalInfo)
  pub creation_proposals : List ProposalInfo

abbrev pub empty_groups : Grouped
empty_groups = record { by_id = []; creation_proposals = [] }

-- The times in an entry of `assumption_applied_at_map` or `criteria_applied_at_map`.
pub record Applied : Type 0 where
  pub modified_at : Option ℕ
  pub deleted_at : Option ℕ

abbrev pub not_applied : Applied
not_applied = record { modified_at = none; deleted_at = none }

unfoldable pub assign : ProposalCategoryType → Option ℕ → Applied → Applied
assign ProposalCategoryType.deletion at a = record a { deleted_at = at }
assign ProposalCategoryType.modification at a = record a { modified_at = at }
assign ProposalCategoryType.creation at a = a

-- The assignment to the entry of a key, which is made when it is not there.
unfoldable pub set_applied :
    Option ℕ → (Applied → Applied) → List (Option ℕ × Applied) → List (Option ℕ × Applied)
set_applied key f [] = (key, f not_applied) ∷ []
set_applied key f ((k, a) ∷ rest) =
    let others = set_applied key f rest in
    if same_key k key then (k, f a) ∷ rest else (k, a) ∷ others

-- `d.get(key, {})`
unfoldable pub get_applied : Option ℕ → List (Option ℕ × Applied) → Applied
get_applied key [] = not_applied
get_applied key ((k, a) ∷ rest) =
    let other = get_applied key rest in if same_key k key then a else other

module _ {C : Type 0} (kind : Targeted C) where
  -- `user_votes` has the keys of the dictionary of the user's votes.
  unfoldable pub proposal_info :
      (ℕ → Option User) → VoteTable → List ℕ → Database → Proposal C → ProposalInfo
  proposal_info users votes user_votes d p = record {
    id = p.id;
    target_id = kind.target p.columns;
    proposal_status = p.proposal_status;
    proposal_category = kind.category p.columns;
    proposal_content = p.proposal_content;
    reason = kind.reason p.columns;
    created_at = p.created_at;
    created_by = p.created_by;
    creator_name = name_of (users p.created_by);
    creator_email = email_of (users p.created_by);
    vote_info = record {
      vote_count = vote_count_of votes p.id d;
      has_voted = contains p.id user_votes;
    };
  }

  -- The body of the loop that groups the proposals.
  unfoldable pub add_proposal : (Proposal C → ProposalInfo) → Proposal C → Grouped → Grouped
  add_proposal info p g =
      if is_creation (kind.category p.columns)
      then record g { creation_proposals = g.creation_proposals ++ (info p ∷ []) }
      else record g { by_id = append_to (kind.target p.columns) (info p) g.by_id }

  unfoldable pub group_proposals :
      (Proposal C → ProposalInfo) → List (Proposal C) → Grouped → Grouped
  group_proposals info [] g = g
  group_proposals info (p ∷ ps) g = group_proposals info ps (add_proposal info p g)

  -- The condition of the loop over the applied proposals.
  abbrev pub is_applied : Proposal C → Bool
  is_applied p =
      is_some (kind.target p.columns)
      && (is_proposal_accepted p.proposal_status && is_some p.applied_at)

  unfoldable pub applied_at_map :
      List (Proposal C) → List (Option ℕ × Applied) → List (Option ℕ × Applied)
  applied_at_map [] m = m
  applied_at_map (p ∷ ps) m = applied_at_map ps (
      if is_applied p
      then set_applied (kind.target p.columns) (assign (kind.category p.columns) p.applied_at) m
      else m)
