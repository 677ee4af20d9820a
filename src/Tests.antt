-- ===== src/Tests.antt =====
-- An event with three members and two proposals, and runs of the services on it.
mod Members
mod Proposals
mod Requests
mod Votes
mod Queue
mod Contents
mod Pages
use madcamp_w2_decision_make.Model.{
  EventMembership, Database, Event, ProposalStatusType, MembershipStatusType, AssumptionProposal,
  IdempotencyRecord, EventStatusType, ProposalCategoryType,
}
use madcamp_w2_decision_make.Prelude.{ℕ, true, [], List, none, some, ◌∷◌}
use madcamp_w2_decision_make.Session.{Session}

abbrev pub event : Event
event = record {
  id = 1;
  decision_subject = "Where to eat";
  entrance_code = "ABC123";
  assumption_is_auto_approved_by_votes = true;
  criteria_is_auto_approved_by_votes = true;
  membership_is_auto_approved = true;
  conclusion_is_auto_approved_by_votes = true;
  assumption_min_votes_required = some 2;
  criteria_min_votes_required = some 2;
  conclusion_approval_threshold_percent = some 50;
  event_status = EventStatusType.in_progress;
  max_membership = 2;
  updated_at = none;
  admin_id = 10;
}

abbrev pub small_event : Event
small_event = record event { max_membership = 1 }

abbrev pub member : ℕ → ℕ → MembershipStatusType → EventMembership
member id user_id status = record {
  id = id;
  user_id = user_id;
  event_id = 1;
  membership_status = status;
  joined_at = none;
}

abbrev pub waiting_member : EventMembership
waiting_member = member 20 12 MembershipStatusType.pending

abbrev pub proposal : ℕ → ProposalStatusType → AssumptionProposal
proposal id status = record {
  id = id;
  proposal_status = status;
  proposal_content = some "It is raining";
  created_at = 3;
  created_by = 11;
  accepted_at = none;
  applied_at = none;
  columns = record {
    event_id = 1;
    assumption_id = none;
    proposal_category = ProposalCategoryType.creation;
    reason = none;
    applied_target_id = none;
  };
}

abbrev pub database : Event → List IdempotencyRecord → Database
database e records = record {
  events = e ∷ [];
  memberships =
      waiting_member
      ∷ member 21 11 MembershipStatusType.accepted
      ∷ member 22 13 MembershipStatusType.pending
      ∷ [];
  options = [];
  assumptions = [];
  criteria = [];
  assumption_proposals =
      proposal 30 ProposalStatusType.pending ∷ proposal 31 ProposalStatusType.accepted ∷ [];
  criteria_proposals = [];
  conclusion_proposals = [];
  assumption_proposal_votes = [];
  criterion_proposal_votes = [];
  conclusion_proposal_votes = [];
  option_votes = [];
  criterion_priorities = [];
  comments = [];
  outbox_events = [];
  idempotency_records = records;
  next_id = 100;
}

abbrev pub session : Database → Session
session d = record { working = d; committed = d; clock = 7 }

abbrev pub start : Session
start = session (database event [])
