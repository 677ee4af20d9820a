-- ===== src/Model/Enums.antt =====
-- The enumerations of app/models/, with the tests `==` that the services make on them.
use madcamp_w2_decision_make.Prelude.{Bool, true, false}

pub data EventStatusType : Type 0 where
  not_started in_progress paused finished : EventStatusType

pub data MembershipStatusType : Type 0 where
  pending accepted rejected : MembershipStatusType

pub data ProposalStatusType : Type 0 where
  pending accepted rejected deleted : ProposalStatusType

pub data ProposalCategoryType : Type 0 where
  creation modification deletion : ProposalCategoryType

pub data OutboxStatusType : Type 0 where
  pending done failed : OutboxStatusType

pub data IdempotencyStatusType : Type 0 where
  in_progress completed failed : IdempotencyStatusType

abbrev pub is_in_progress : EventStatusType → Bool
is_in_progress EventStatusType.in_progress = true
is_in_progress _ = false

abbrev pub is_not_started : EventStatusType → Bool
is_not_started EventStatusType.not_started = true
is_not_started _ = false

abbrev pub is_finished : EventStatusType → Bool
is_finished EventStatusType.finished = true
is_finished _ = false

abbrev pub is_member_pending : MembershipStatusType → Bool
is_member_pending MembershipStatusType.pending = true
is_member_pending _ = false

abbrev pub is_member_accepted : MembershipStatusType → Bool
is_member_accepted MembershipStatusType.accepted = true
is_member_accepted _ = false

abbrev pub is_proposal_pending : ProposalStatusType → Bool
is_proposal_pending ProposalStatusType.pending = true
is_proposal_pending _ = false

abbrev pub is_proposal_accepted : ProposalStatusType → Bool
is_proposal_accepted ProposalStatusType.accepted = true
is_proposal_accepted _ = false

abbrev pub is_outbox_pending : OutboxStatusType → Bool
is_outbox_pending OutboxStatusType.pending = true
is_outbox_pending _ = false
