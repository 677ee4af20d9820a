-- ===== src/Membership/Join.antt =====
-- Joining by the entrance code, with automatic approval.
use madcamp_w2_decision_make.Membership.Service.{create_accepted, join_event_by_code, join_payload}
use madcamp_w2_decision_make.Prelude.{
  ℕ, String, where_rows, some, first_row, ◌≡◌, [], true, arith, ap,
}
use madcamp_w2_decision_make.Model.{Event, Database, EventMembership, MembershipStatusType}
use madcamp_w2_decision_make.Repositories.Memberships.{
  create_membership, get_by_user_and_event, add_membership,
}
use madcamp_w2_decision_make.Session.{Session, ◌>>=◌, transaction, ok, use_id}
use madcamp_w2_decision_make.Repositories.Outbox.{create_outbox_event}
use madcamp_w2_decision_make.Repositories.Events.{
  event_of, accepted_count, get_by_entrance_code, is_membership_of, has_code, scalar_one_or_none,
}
use madcamp_w2_decision_make.Membership.Checks.{notify}
use madcamp_w2_decision_make.Membership.Capacity.{WithinCapacity}
use madcamp_w2_decision_make.Session.Runs.{landed}

-- The database after an automatic approval.
abbrev pub joined : ℕ → ℕ → Event → Database → Database
joined user_id at e d =
    let m : EventMembership = record {
      id = d.next_id;
      user_id = user_id;
      event_id = e.id;
      membership_status = MembershipStatusType.accepted;
      joined_at = some at;
    } in
    notify "membership.approved.v1" (join_payload m) e.id at (add_membership m (use_id d))

create_accepted-run :
    (user_id : ℕ) (e : Event) (s : Session)
    → where_rows (is_membership_of user_id e.id) s.working.memberships ≡ []
    → create_accepted user_id e s
      ≡ (ok tt, record s { working = joined user_id s.clock e s.working })
unfolding create_accepted create_membership create_outbox_event ◌>>=◌
create_accepted-run user_id e s absent = ground arith

module _ (upper : String → String) (code : String) (user_id : ℕ) (e : Event) (s : Session) where
  -- On an event with automatic approval a newcomer is accepted, whatever the number of members.
  pub join_event_by_code-auto :
      first_row (where_rows (has_code (upper code)) s.working.events) ≡ some e
      → where_rows (is_membership_of user_id e.id) s.working.memberships ≡ []
      → e.membership_is_auto_approved ≡ true
      → join_event_by_code upper code user_id s
        ≡ (ok (e.id, true), landed (joined user_id s.clock e s.working) s)
  unfolding join_event_by_code get_by_entrance_code get_by_user_and_event scalar_one_or_none
      transaction ◌>>=◌
  join_event_by_code-auto found absent auto = ground (arith, create_accepted-run user_id e s absent)

  -- When an event with automatic approval is at its limit, a newcomer who joins by its code is
  -- accepted, and some event is over its limit.
  pub join_event_by_code-over_capacity :
      first_row (where_rows (has_code (upper code)) s.working.events) ≡ some e
      → where_rows (is_membership_of user_id e.id) s.working.memberships ≡ []
      → e.membership_is_auto_approved ≡ true
      → event_of e.id s.working ≡ some e
      → accepted_count e.id s.working ≡ e.max_membership
      → ((join_event_by_code upper code user_id s).0 ≡ ok (e.id, true))
        × (¬ WithinCapacity (join_event_by_code upper code user_id s).1.committed)
  unfolding event_of accepted_count
  join_event_by_code-over_capacity found absent auto known full =
      let run = join_event_by_code-auto found absent auto in
      (
        ap (λ r. r.0) run,
        λ within. let bound = (rw run at within) e.id e known in absurd (ground arith),
      )
