-- ===== src/Membership/Capacity.antt =====
-- The number of accepted members against `max_membership`: one approval, and the database.
use madcamp_w2_decision_make.Repositories.Events.{event_of, accepted_count, is_accepted_in}
use madcamp_w2_decision_make.Prelude.{
  ℕ, List, String, arith, ◌≡◌, some, ◌+◌, ◌≤◌, inl, if◌then◌else◌, ◌==◌, count-update, inr, ◌∙◌,
  refl,
}
use madcamp_w2_decision_make.Model.{Database, Event, EventMembership, Value, MembershipStatusType}
use madcamp_w2_decision_make.Session.{Session, ok}
use madcamp_w2_decision_make.Repositories.Memberships.{
  membership_of, set_membership, accept, membership_key,
}
use madcamp_w2_decision_make.Membership.Approve.{
  CanApprove, execute_approve-inv, execute_approve-Atomic,
}
use madcamp_w2_decision_make.Membership.Checks.{after_approval, notify, rejected}
use madcamp_w2_decision_make.Membership.Service.{execute_approve}
use madcamp_w2_decision_make.Session.Runs.{Result-cases, result-run}

abbrev pub WithinCapacity : Database → Type 0
WithinCapacity d =
    (j : ℕ) (e : Event) → event_of j d ≡ some e → accepted_count j d ≤ e.max_membership

-- What the conditional UPDATE of an approval does to the count of any event.
pub accepted_count-accept :
    (j membership_id at : ℕ) (m : EventMembership) (d : Database)
    → membership_of membership_id d ≡ some m
    → m.membership_status ≡ MembershipStatusType.pending
    → accepted_count j (set_membership membership_id (accept at) d)
      ≡ accepted_count j d + (if m.event_id == j then 1 else 0)
unfolding accepted_count membership_of
accepted_count-accept j membership_id at m d found waiting = ground (
  arith,
  count-update membership_key (is_accepted_in j) membership_id (accept at) m d.memberships,
)

-- A rejection of a pending member moves no count.
pub accepted_count-reject :
    (j membership_id : ℕ) (m : EventMembership) (d : Database)
    → membership_of membership_id d ≡ some m
    → m.membership_status ≡ MembershipStatusType.pending
    → accepted_count j (set_membership membership_id rejected d) ≡ accepted_count j d
unfolding accepted_count membership_of
accepted_count-reject j membership_id m d found waiting =
    ground
      (arith, count-update membership_key (is_accepted_in j) membership_id rejected m d.memberships)

-- An outbox row changes no count.
pub accepted_count-notify :
    (j : ℕ) (event_type : String) (payload : List (String × Value)) (event_id at : ℕ) (d : Database)
    → accepted_count j (notify event_type payload event_id at d) ≡ accepted_count j d
unfolding accepted_count
accepted_count-notify j event_type payload event_id at d = refl

accepted_count-approved :
    (event_id membership_id user_id at j : ℕ) (e : Event) (m : EventMembership) (d : Database)
    → CanApprove event_id membership_id user_id e m d
    → accepted_count j (after_approval event_id membership_id user_id at m d)
      ≡ accepted_count j d + (if event_id == j then 1 else 0)
accepted_count-approved event_id membership_id user_id at j e m d can = rw (← can.belongs) (
    accepted_count-notify j _ _ _ _ _
    ∙ accepted_count-accept j membership_id at m d can.member_found can.waiting)

approved-WithinCapacity :
    (event_id membership_id user_id at : ℕ) (e : Event) (m : EventMembership) (d : Database)
    → CanApprove event_id membership_id user_id e m d
    → WithinCapacity d
    → WithinCapacity (after_approval event_id membership_id user_id at m d)
unfolding event_of
approved-WithinCapacity event_id membership_id user_id at e m d can within j x found = ground (
  arith,
  accepted_count-approved event_id membership_id user_id at j e m d can,
  within j x found,
  can.event_found,
  can.has_room,
)

module _ (event_id membership_id user_id : ℕ) (s : Session) where
  -- A returned approval adds exactly one accepted member to the event, and none to another.
  pub execute_approve-accepted_count :
      {b : List (String × Value)}
      → (execute_approve event_id membership_id user_id s).0 ≡ ok b
      → (j : ℕ)
      → accepted_count j (execute_approve event_id membership_id user_id s).1.committed
        ≡ accepted_count j s.working + (if event_id == j then 1 else 0)
  execute_approve-accepted_count h j =
      let (e, m, can, reported, landed_on, same) =
        execute_approve-inv event_id membership_id user_id s
          (result-run (execute_approve event_id membership_id user_id) s h) in
      cc (
        same,
        landed_on,
        accepted_count-approved event_id membership_id user_id s.clock j e m s.working can,
      )

  -- An approval on a fresh session, returned or refused, leaves no event over its limit if none was.
  pub execute_approve-WithinCapacity :
      s.working ≡ s.committed
      → WithinCapacity s.committed
      → WithinCapacity (execute_approve event_id membership_id user_id s).1.committed
  execute_approve-WithinCapacity fresh within =
      elim (Result-cases (execute_approve event_id membership_id user_id s).0) [
        | inl (b, h) ↦
            let (e, m, can, reported, landed_on, same) =
              execute_approve-inv event_id membership_id user_id s
                (result-run (execute_approve event_id membership_id user_id) s h) in
            rw (same, landed_on)
              (approved-WithinCapacity event_id membership_id user_id s.clock e m s.working can
                (rw fresh within))
        | inr (e, h) ↦
            rw ((execute_approve-Atomic event_id membership_id user_id).unchanged s e h) within
      ]
