-- ===== src/Membership/Service.antt =====
-- The methods of MembershipService, each body `_execute_…` as a function of its own.
use madcamp_w2_decision_make.Prelude.{
  ℕ, ◌+◌, String, Bool, true, false, Option, none, some, List, [], ◌∷◌, ◌==◌, leb, not,
  if◌then◌else◌,
}
use madcamp_w2_decision_make.Model.{
  Event, EventMembership, MembershipStatusType, Value, uuid, text, boolean, null,
}
use madcamp_w2_decision_make.Session.{
  Action, pure, raise, or_raise, raise_if, not_found, conflict, utc_now, ◌>>=◌, ◌>>◌, transaction,
}
use madcamp_w2_decision_make.Repositories.Events
use madcamp_w2_decision_make.Repositories.Memberships
use madcamp_w2_decision_make.Repositories.Outbox.{create_outbox_event}
use madcamp_w2_decision_make.BaseService.{verify_admin}

unfoldable pub create_admin_membership : ℕ → ℕ → Action EventMembership
create_admin_membership event_id admin_id = do
  now ← utc_now
  transaction
      (Memberships.create_membership admin_id event_id MembershipStatusType.accepted (some now))

abbrev refuse_existing : Option EventMembership → Action (Unit {0})
refuse_existing none = pure tt
refuse_existing (some m) = raise (conflict "Already joined")

abbrev pub join_payload : EventMembership → List (String × Value)
join_payload m =
    ("membership_id", uuid m.id)
    ∷ ("event_id", uuid m.event_id)
    ∷ ("user_id", uuid m.user_id)
    ∷ ("approved_by", null)
    ∷ ("is_auto_approved", boolean true)
    ∷ []

unfoldable pub create_accepted : ℕ → Event → Action (Unit {0})
create_accepted user_id event = do
  joined_at ← utc_now
  m ← Memberships.create_membership user_id event.id MembershipStatusType.accepted (some joined_at)
  create_outbox_event "membership.approved.v1" (join_payload m) event.id
  pure tt

unfoldable pub create_pending : ℕ → Event → Action (Unit {0})
create_pending user_id event = do
  Memberships.create_membership user_id event.id MembershipStatusType.pending none
  pure tt

-- `upper` is Python's `str.upper`. The result is the event's id, with true for the message of an
-- automatic approval and false for that of an application.
unfoldable pub join_event_by_code : (String → String) → String → ℕ → Action (ℕ × Bool)
join_event_by_code upper entrance_code user_id = do
  found ← Events.get_by_entrance_code upper entrance_code
  event ← or_raise found (not_found "Event not found")
  existing ← Memberships.get_by_user_and_event user_id event.id
  refuse_existing existing
  transaction (
      if event.membership_is_auto_approved
      then create_accepted user_id event
      else create_pending user_id event)
  pure (event.id, event.membership_is_auto_approved)

unfoldable pub validate_membership_exists_and_belongs_to_event : ℕ → ℕ → Action EventMembership
validate_membership_exists_and_belongs_to_event membership_id event_id = do
  found ← Memberships.get_by_id membership_id
  membership ← or_raise found (not_found "Membership not found")
  raise_if (not (membership.event_id == event_id)) (not_found "Membership not found")
  pure membership

-- `event and current_count >= event.max_membership`
abbrev pub is_full : Option Event → ℕ → Bool
is_full none count = false
is_full (some event) count = leb event.max_membership count

-- The conflict that a failed conditional UPDATE reports, by the refreshed status.
abbrev status_conflict : MembershipStatusType → String
status_conflict MembershipStatusType.accepted = "Membership already approved"
status_conflict MembershipStatusType.rejected = "Membership already rejected"
status_conflict MembershipStatusType.pending = "Membership status changed"

unfoldable pub or_status_conflict :
    EventMembership → Option EventMembership → Action EventMembership
or_status_conflict membership (some updated) = pure updated
or_status_conflict membership none = do
  m ← Memberships.refresh membership
  raise (conflict (status_conflict m.membership_status))

abbrev pub approved_payload : EventMembership → ℕ → ℕ → List (String × Value)
approved_payload m event_id user_id =
    ("membership_id", uuid m.id)
    ∷ ("event_id", uuid event_id)
    ∷ ("user_id", uuid m.user_id)
    ∷ ("approved_by", uuid user_id)
    ∷ ("is_auto_approved", boolean false)
    ∷ []

abbrev pub rejected_payload : EventMembership → ℕ → ℕ → List (String × Value)
rejected_payload m event_id user_id =
    ("membership_id", uuid m.id)
    ∷ ("event_id", uuid event_id)
    ∷ ("user_id", uuid m.user_id)
    ∷ ("rejected_by", uuid user_id)
    ∷ []

abbrev pub status_value : MembershipStatusType → String
status_value MembershipStatusType.pending = "PENDING"
status_value MembershipStatusType.accepted = "ACCEPTED"
status_value MembershipStatusType.rejected = "REJECTED"

abbrev pub membership_result : EventMembership → List (String × Value)
membership_result m =
    ("id", uuid m.id) ∷ ("membership_status", text (status_value m.membership_status)) ∷ []

-- The transaction of `_execute_approve`.
unfoldable pub approve_block : ℕ → ℕ → ℕ → EventMembership → Action EventMembership
approve_block event_id membership_id user_id membership = do
  joined_at ← utc_now
  outcome ← Memberships.approve_membership_if_pending membership_id joined_at
  updated ← or_status_conflict membership outcome
  create_outbox_event "membership.approved.v1" (approved_payload updated event_id user_id) event_id
  pure updated

-- `_execute_approve` of approve_membership.
unfoldable pub execute_approve : ℕ → ℕ → ℕ → Action (List (String × Value))
execute_approve event_id membership_id user_id = do
  verify_admin event_id user_id
  membership ← validate_membership_exists_and_belongs_to_event membership_id event_id
  current_count ← Events.count_accepted_members event_id
  event ← Events.get_by_id event_id
  raise_if (is_full event current_count) (conflict "Membership limit reached")
  updated ← transaction (approve_block event_id membership_id user_id membership)
  pure (membership_result updated)

-- The transaction of `_execute_reject`.
unfoldable pub reject_block : ℕ → ℕ → ℕ → EventMembership → Action EventMembership
reject_block event_id membership_id user_id membership = do
  outcome ← Memberships.reject_membership_if_pending membership_id
  updated ← or_status_conflict membership outcome
  create_outbox_event "membership.rejected.v1" (rejected_payload updated event_id user_id) event_id
  pure updated

-- `_execute_reject` of reject_membership.
unfoldable pub execute_reject : ℕ → ℕ → ℕ → Action (List (String × Value))
execute_reject event_id membership_id user_id = do
  verify_admin event_id user_id
  membership ← validate_membership_exists_and_belongs_to_event membership_id event_id
  updated ← transaction (reject_block event_id membership_id user_id membership)
  pure (membership_result updated)

-- The counters of bulk_approve_memberships: those approved, those not, and the accepted members.
pub record Tally : Type 0 where
  pub approved_count : ℕ
  pub failed_count : ℕ
  pub current_count : ℕ

abbrev pub count_outcome : Option EventMembership → Tally → Tally
count_outcome none t = record t { failed_count = t.failed_count + 1 }
count_outcome (some _) t = record t {
  approved_count = t.approved_count + 1;
  current_count = t.current_count + 1;
}

unfoldable pub approve_one : ℕ → ℕ → EventMembership → Tally → Action Tally
approve_one limit joined_at m t =
    if leb limit t.current_count
    then pure (record t { failed_count = t.failed_count + 1 })
    else (Memberships.approve_membership_if_pending m.id joined_at >>= λ updated.
        pure (count_outcome updated t))

-- The loop of bulk_approve_memberships.
unfoldable pub approve_each : ℕ → ℕ → List EventMembership → Tally → Action Tally
approve_each limit joined_at [] t = pure t
approve_each limit joined_at (m ∷ ms) t =
    approve_one limit joined_at m t >>= approve_each limit joined_at ms

unfoldable pub approve_pending : ℕ → List EventMembership → Action (ℕ × ℕ)
approve_pending event_id [] = pure (0, 0)
approve_pending event_id (m ∷ ms) = do
  current_count ← Events.count_accepted_members event_id
  found ← Events.get_by_id event_id
  event ← or_raise found (not_found "Event not found")
  joined_at ← utc_now
  t ← transaction (
      approve_each event.max_membership joined_at (m ∷ ms)
        (record { approved_count = 0; failed_count = 0; current_count = current_count }))
  pure (t.approved_count, t.failed_count)

-- The pair is approved_count and failed_count.
unfoldable pub bulk_approve_memberships : ℕ → ℕ → Action (ℕ × ℕ)
bulk_approve_memberships event_id user_id = do
  verify_admin event_id user_id
  pending_memberships ← Memberships.get_pending_by_event_id event_id
  approve_pending event_id pending_memberships

abbrev pub count_some : Option EventMembership → ℕ → ℕ
count_some none n = n
count_some (some _) n = n + 1

-- The loop of bulk_reject_memberships.
unfoldable pub reject_each : List EventMembership → ℕ → Action ℕ
reject_each [] n = pure n
reject_each (m ∷ ms) n = do
  updated ← Memberships.reject_membership_if_pending m.id
  reject_each ms (count_some updated n)

abbrev reject_pending : List EventMembership → Action ℕ
reject_pending [] = pure 0
reject_pending (m ∷ ms) = transaction (reject_each (m ∷ ms) 0)

unfoldable pub bulk_reject_memberships : ℕ → ℕ → Action ℕ
bulk_reject_memberships event_id user_id = do
  verify_admin event_id user_id
  pending_memberships ← Memberships.get_pending_by_event_id event_id
  reject_pending pending_memberships

unfoldable pub get_event_memberships : ℕ → ℕ → Action (List EventMembership)
get_event_memberships event_id user_id = do
  verify_admin event_id user_id
  Memberships.get_all_by_event_id event_id
