-- ===== src/Tests/Pages.antt =====
-- The page of an event.
use madcamp_w2_decision_make.Prelude.{
  ℕ, false, true, some, none, Option, [], ◌∷◌, ◌≡◌, refl, arith, find_by_id, map,
}
use madcamp_w2_decision_make.Model.{
  Assumption, AssumptionProposal, ProposalStatusType, ProposalCategoryType, EventStatusType,
  ConclusionProposal, ProposalVote, Event, Database,
}
use madcamp_w2_decision_make.Session.{ok}
use madcamp_w2_decision_make.Repositories.Events.{event_of}
use madcamp_w2_decision_make.Detail.Groups.{User}
use madcamp_w2_decision_make.Detail.Service.{get_event_detail}
use madcamp_w2_decision_make.Detail.Reading.{page_of}
use madcamp_w2_decision_make.Detail.Page.{get_event_detail-run}
use madcamp_w2_decision_make.Tests.{event, session, proposal}
use madcamp_w2_decision_make.Tests.Votes.{vote_database}
use madcamp_w2_decision_make.Home.Page.{OneMembership, listed, get_events_participated-run}
use madcamp_w2_decision_make.Home.Service.{get_events_participated}
use madcamp_w2_decision_make.Repositories.EventLists.{events_of_user}

abbrev assumption : Assumption
assumption = record {
  id = 45;
  event_id = 1;
  content = "It is dry";
  is_deleted = false;
  is_modified = true;
  original_content = some "It is warm";
  created_by = 10;
  updated_at = none;
  updated_by = none;
}

abbrev change : ℕ → ProposalStatusType → Option ℕ → AssumptionProposal
change id status applied_at = record (proposal id status) {
  applied_at = applied_at;
  columns = record {
    event_id = 1;
    assumption_id = some 45;
    proposal_category = ProposalCategoryType.modification;
    reason = none;
    applied_target_id = none;
  };
}

abbrev conclusion : ConclusionProposal
conclusion = record {
  id = 80;
  proposal_status = ProposalStatusType.pending;
  proposal_content = some "Cheap";
  created_at = 5;
  created_by = 11;
  accepted_at = none;
  applied_at = none;
  columns = record { criterion_id = 50 };
}

abbrev own_vote : ℕ → ℕ → ProposalVote
own_vote id proposal_id = record {
  id = id;
  proposal_id = proposal_id;
  created_at = 6;
  created_by = 11;
}

abbrev page_database : Database
page_database = record (vote_database EventStatusType.in_progress) {
  assumptions = assumption ∷ [];
  assumption_proposals =
      change 32 ProposalStatusType.pending none
      ∷ change 33 ProposalStatusType.accepted (some 5)
      ∷ proposal 30 ProposalStatusType.pending
      ∷ [];
  conclusion_proposals = conclusion ∷ [];
  assumption_proposal_votes = own_vote 90 32 ∷ [];
  conclusion_proposal_votes = own_vote 91 80 ∷ [];
}

abbrev users : ℕ → Option User
users id = some (record { name = none; email = some "member@example.com" })

abbrev page_event : Event
page_event = record event { event_status = EventStatusType.in_progress }

get_event_detail-run_example :
    get_event_detail users 1 11 (session page_database)
    ≡ (ok (page_of users 11 page_database page_event 1), session page_database)
unfolding event_of find_by_id
get_event_detail-run_example =
    get_event_detail-run users 1 11 page_event (session page_database) refl (ground arith) refl

page_database-OneMembership : OneMembership 11 page_database
page_database-OneMembership k = ground arith

get_events_participated-run_example : get_events_participated users 11 (session page_database) ≡ (
  ok (map (listed users 11 page_database) (events_of_user 11 page_database)),
  session page_database,
)
get_events_participated-run_example =
    get_events_participated-run users 11 (session page_database) page_database-OneMembership
