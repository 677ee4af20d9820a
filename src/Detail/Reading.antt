-- ===== src/Detail/Reading.antt =====
-- The page of an event as a direct reading of the tables, for the statements on get_event_detail.
use madcamp_w2_decision_make.Prelude.{ℕ, Bool, none, Option, List, ◌==◌, map, where_rows}
use madcamp_w2_decision_make.Model.{
  Database, Event, Assumption, Criterion, ConclusionProposal, Proposal, ProposalCategoryType,
}
use madcamp_w2_decision_make.Repositories.Events.{accepted_count}
use madcamp_w2_decision_make.Repositories.Votes.{is_option_in, is_criterion_in, voted_users}
use madcamp_w2_decision_make.Repositories.ProposalVotes.{
  VoteTable, vote_count_of, has_voted, assumption_votes, criterion_votes, conclusion_votes,
}
use madcamp_w2_decision_make.Repositories.ProposalLists.{
  assumption_proposals_in, criteria_proposals_in, conclusion_proposals_on,
}
use madcamp_w2_decision_make.Detail.Groups.{
  User, ProposalInfo, Targeted, on_assumption, on_criterion, name_of, email_of,
}
use madcamp_w2_decision_make.Detail.Service.{
  AssumptionWithProposals, CriterionWithProposals, ConclusionProposalInfo, EventDetailResponse,
  is_assumption_in,
}
use madcamp_w2_decision_make.Detail.Grouping.{changes, creates}
use madcamp_w2_decision_make.Detail.Times.{last_or, is_modification, is_deletion, applied_as}

module _ (users : ℕ → Option User) (user_id : ℕ) (d : Database) where
  module _ {C : Type 0} (kind : Targeted C) where
    -- A proposal as the page shows it: its votes, and whether the user's is among them.
    abbrev pub shown : VoteTable → Proposal C → ProposalInfo
    shown votes p = record {
      id = p.id;
      target_id = kind.target p.columns;
      proposal_status = p.proposal_status;
      proposal_category = kind.category p.columns;
      proposal_content = p.proposal_content;
      reason = kind.reason p.columns;
      created_at = p.created_at;
      created_by = p.created_by;
      creator_name = name_of (users p.created_by);
      creator_email = email_of (users p.created_by);
      vote_info = record {
        vote_count = vote_count_of votes p.id d;
        has_voted = has_voted votes p.id user_id d;
      };
    }

    -- When the last in `ps` of the proposals that changed, or deleted, the row `id` was applied. In a
    -- list with the newest first, that is the one that was proposed first.
    abbrev pub applied_time : (ProposalCategoryType → Bool) → ℕ → List (Proposal C) → Option ℕ
    applied_time c id ps =
        last_or none (map (λ p. p.applied_at) (where_rows (applied_as kind c id) ps))

  abbrev pub shown_conclusion : ConclusionProposal → ConclusionProposalInfo
  shown_conclusion p = record {
    id = p.id;
    criterion_id = p.columns.criterion_id;
    proposal_status = p.proposal_status;
    proposal_content = p.proposal_content;
    created_at = p.created_at;
    created_by = p.created_by;
    creator_name = name_of (users p.created_by);
    creator_email = email_of (users p.created_by);
    vote_info = record {
      vote_count = vote_count_of conclusion_votes p.id d;
      has_voted = has_voted conclusion_votes p.id user_id d;
    };
  }

  -- An assumption with the proposals to change or delete it, newest first.
  abbrev pub shown_assumption : ℕ → Assumption → AssumptionWithProposals
  shown_assumption event_id a = record {
    id = a.id;
    content = a.content;
    is_deleted = a.is_deleted;
    is_modified = a.is_modified;
    original_content = a.original_content;
    modified_at =
        applied_time on_assumption is_modification a.id (assumption_proposals_in event_id d);
    deleted_at = applied_time on_assumption is_deletion a.id (assumption_proposals_in event_id d);
    proposals =
        map (shown on_assumption assumption_votes)
          (where_rows (changes on_assumption a.id) (assumption_proposals_in event_id d));
  }

  abbrev pub shown_criterion : ℕ → Criterion → CriterionWithProposals
  shown_criterion event_id c = record {
    id = c.id;
    content = c.content;
    conclusion = c.conclusion;
    is_deleted = c.is_deleted;
    is_modified = c.is_modified;
    original_content = c.original_content;
    modified_at = applied_time on_criterion is_modification c.id (criteria_proposals_in event_id d);
    deleted_at = applied_time on_criterion is_deletion c.id (criteria_proposals_in event_id d);
    proposals =
        map (shown on_criterion criterion_votes)
          (where_rows (changes on_criterion c.id) (criteria_proposals_in event_id d));
    conclusion_proposals = map shown_conclusion (conclusion_proposals_on c.id d);
  }

  abbrev pub page_of : Event → ℕ → EventDetailResponse
  page_of event event_id = record {
    id = event.id;
    decision_subject = event.decision_subject;
    event_status = event.event_status;
    is_admin = event.admin_id == user_id;
    options = map (λ o. (o.id, o.content)) (where_rows (is_option_in event_id) d.options);
    assumptions =
        map (shown_assumption event_id) (where_rows (is_assumption_in event_id) d.assumptions);
    criteria = map (shown_criterion event_id) (where_rows (is_criterion_in event_id) d.criteria);
    assumption_creation_proposals =
        map (shown on_assumption assumption_votes)
          (where_rows (creates on_assumption) (assumption_proposals_in event_id d));
    criteria_creation_proposals =
        map (shown on_criterion criterion_votes)
          (where_rows (creates on_criterion) (criteria_proposals_in event_id d));
    current_participants_count = accepted_count event_id d;
    voted_participants_count = voted_users event_id d;
  }
