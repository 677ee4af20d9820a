-- ===== src/Membership/Checks.antt =====
-- What is known once a check of the membership service has passed, and what its conditional UPDATE
-- did.
use madcamp_w2_decision_make.Prelude.{
  ℕ, ◌≡◌, inl, inr, none, some, List, arith, String, Option-cases, key-find, Option,
}
use madcamp_w2_decision_make.Model.{
  Database, EventMembership, MembershipStatusType, Value, OutboxEvent, OutboxStatusType,
}
use madcamp_w2_decision_make.Session.{Session, ok, use_id, ◌>>=◌}
use madcamp_w2_decision_make.Session.Atomic.{Uncommitting, uncommitting_rules}
use madcamp_w2_decision_make.Session.Runs.{Passes}
use madcamp_w2_decision_make.Repositories.Memberships
use madcamp_w2_decision_make.Repositories.Memberships.{
  membership_of, membership_key, set_membership, accept, update_if_pending,
  approve_membership_if_pending, reject_membership_if_pending, refresh,
}
use madcamp_w2_decision_make.Repositories.Outbox.{create_outbox_event, add_outbox}
use madcamp_w2_decision_make.Membership.Service.{
  validate_membership_exists_and_belongs_to_event, or_status_conflict, approve_block, reject_block,
  approved_payload, rejected_payload,
}

-- The outbox row that `create_outbox_event` adds.
abbrev pub outbox_row : String → List (String × Value) → ℕ → ℕ → ℕ → OutboxEvent
outbox_row event_type payload event_id at id = record {
  id = id;
  event_type = event_type;
  payload = payload;
  target_event_id = event_id;
  status = OutboxStatusType.pending;
  attempts = 0;
  next_retry_at = at;
  locked_at = none;
  locked_by = none;
  last_error = none;
  created_at = at;
  processed_at = none;
}

-- The database with that row added.
abbrev pub notify : String → List (String × Value) → ℕ → ℕ → Database → Database
notify event_type payload event_id at d =
    add_outbox (outbox_row event_type payload event_id at d.next_id) (use_id d)

-- The database after an approval.
abbrev pub after_approval : ℕ → ℕ → ℕ → ℕ → EventMembership → Database → Database
after_approval event_id membership_id user_id at m d =
    notify "membership.approved.v1" (approved_payload (accept at m) event_id user_id) event_id at
      (set_membership membership_id (accept at) d)

-- The row of a member who is rejected.
abbrev pub rejected : EventMembership → EventMembership
rejected m = record m { membership_status = MembershipStatusType.rejected }

-- The database after a rejection.
abbrev pub after_rejection : ℕ → ℕ → ℕ → ℕ → EventMembership → Database → Database
after_rejection event_id membership_id user_id at m d =
    notify "membership.rejected.v1" (rejected_payload (rejected m) event_id user_id) event_id at
      (set_membership membership_id rejected d)

module _ (event_id membership_id : ℕ) (s : Session) where
  pub validate-inv :
      Passes
        (validate_membership_exists_and_belongs_to_event membership_id event_id)
        s
        (λ m. (membership_of membership_id s.working ≡ some m) × (m.event_id ≡ event_id))
  unfolding validate_membership_exists_and_belongs_to_event Memberships.get_by_id ◌>>=◌
  validate-inv m t h = elim (Option-cases (membership_of membership_id s.working)) [
    | inl missing ↦ absurd (ground arith)
    | inr (x, found) ↦ ground arith
  ]

  pub approve_block-inv :
      (user_id : ℕ) (m : EventMembership) {u : EventMembership} {t : Session}
      → membership_of membership_id s.working ≡ some m
      → approve_block event_id membership_id user_id m s ≡ (ok u, t)
      → (m.membership_status ≡ MembershipStatusType.pending)
        × (u ≡ accept s.clock m)
        × (t.working ≡ after_approval event_id membership_id user_id s.clock m s.working)
  unfolding approve_block approve_membership_if_pending or_status_conflict refresh
      create_outbox_event membership_of ◌>>=◌
  approve_block-inv user_id m found h =
      ground (arith, key-find membership_key membership_id m s.working.memberships)

  pub reject_block-inv :
      (user_id : ℕ) (m : EventMembership) {u : EventMembership} {t : Session}
      → membership_of membership_id s.working ≡ some m
      → reject_block event_id membership_id user_id m s ≡ (ok u, t)
      → (m.membership_status ≡ MembershipStatusType.pending)
        × (u ≡ rejected m)
        × (t.working ≡ after_rejection event_id membership_id user_id s.clock m s.working)
  unfolding reject_block reject_membership_if_pending or_status_conflict refresh create_outbox_event
      membership_of ◌>>=◌
  reject_block-inv user_id m found h =
      ground (arith, key-find membership_key membership_id m s.working.memberships)

-- The checks and the blocks commit nothing: that is left to the transaction.
create_outbox_event-Uncommitting :
    (event_type : String) (payload : List (String × Value)) (event_id : ℕ)
    → Uncommitting (create_outbox_event event_type payload event_id)
unfolding create_outbox_event
create_outbox_event-Uncommitting event_type payload event_id = search uncommitting_rules

pub validate-Uncommitting :
    (event_id membership_id : ℕ)
    → Uncommitting (validate_membership_exists_and_belongs_to_event membership_id event_id)
unfolding validate_membership_exists_and_belongs_to_event Memberships.get_by_id
validate-Uncommitting event_id membership_id = search uncommitting_rules

update_if_pending-Uncommitting :
    (f : EventMembership → EventMembership) (o : Option EventMembership)
    → Uncommitting (update_if_pending f o)
unfolding update_if_pending
update_if_pending-Uncommitting f none = search uncommitting_rules
update_if_pending-Uncommitting f (some m) = search uncommitting_rules

or_status_conflict-Uncommitting :
    (m : EventMembership) (o : Option EventMembership) → Uncommitting (or_status_conflict m o)
unfolding or_status_conflict refresh
or_status_conflict-Uncommitting m none = search uncommitting_rules
or_status_conflict-Uncommitting m (some u) = search uncommitting_rules

ruleset block_rules = (
  uncommitting_rules, create_outbox_event-Uncommitting, update_if_pending-Uncommitting,
  or_status_conflict-Uncommitting,
)

pub approve_block-Uncommitting :
    (event_id membership_id user_id : ℕ) (m : EventMembership)
    → Uncommitting (approve_block event_id membership_id user_id m)
unfolding approve_block approve_membership_if_pending
approve_block-Uncommitting event_id membership_id user_id m = search block_rules depth 8

pub reject_block-Uncommitting :
    (event_id membership_id user_id : ℕ) (m : EventMembership)
    → Uncommitting (reject_block event_id membership_id user_id m)
unfolding reject_block reject_membership_if_pending
reject_block-Uncommitting event_id membership_id user_id m = search block_rules depth 8
