-- ===== src/Membership/Approve.antt =====
-- An approval by the admin.
use madcamp_w2_decision_make.Prelude.{ℕ, ◌<◌, ◌≡◌, some, List, arith, String}
use madcamp_w2_decision_make.Model.{Database, Event, EventMembership, MembershipStatusType, Value}
use madcamp_w2_decision_make.Session.{Session, ok}
use madcamp_w2_decision_make.Session.Runs.{
  transaction-inv, pure-inv, after, after_check, after_query, after_raise_if,
}
use madcamp_w2_decision_make.Session.Atomic.{
  Atomic, Atomic-bind, Atomic-then, Atomic-transaction, Total-pure, uncommitting_rules,
}
use madcamp_w2_decision_make.Repositories.Events
use madcamp_w2_decision_make.Repositories.Events.{
  event_of, accepted_count, count_accepted_members, is_accepted_in,
}
use madcamp_w2_decision_make.Repositories.Memberships.{membership_of, accept}
use madcamp_w2_decision_make.BaseService.Inversion.{verify_admin-inv, verify_admin-Uncommitting}
use madcamp_w2_decision_make.Membership.Service.{execute_approve, membership_result}
use madcamp_w2_decision_make.Membership.Checks.{
  after_approval, validate-inv, approve_block-inv, validate-Uncommitting,
  approve_block-Uncommitting,
}

-- What an approval needs of the database that it is asked of.
pub record CanApprove (event_id membership_id user_id : ℕ) (e : Event) (m : EventMembership)
    (d : Database) : Type 0 where
  pub event_found : event_of event_id d ≡ some e
  pub member_found : membership_of membership_id d ≡ some m
  pub is_admin : e.admin_id ≡ user_id
  pub belongs : m.event_id ≡ event_id
  pub waiting : m.membership_status ≡ MembershipStatusType.pending
  pub has_room : accepted_count event_id d < e.max_membership

module _ (event_id membership_id user_id : ℕ) (s : Session) where
  -- An approval that returns was asked by the admin of the event, for a PENDING member of it, while
  -- the event had room. It reports the accepted row, and commits just the update of that row and
  -- one outbox event.
  pub execute_approve-inv :
      {b : List (String × Value)} {t : Session}
      → execute_approve event_id membership_id user_id s ≡ (ok b, t)
      → (e : Event) × (m : EventMembership) × CanApprove event_id membership_id user_id e m
          s.working
        × (b ≡ membership_result (accept s.clock m))
        × (t.working ≡ after_approval event_id membership_id user_id s.clock m s.working)
        × (t.committed ≡ t.working)
  unfolding execute_approve count_accepted_members Events.get_by_id
  execute_approve-inv {b} {t} h =
      after_check _ _ _ (verify_admin-inv event_id s user_id) h λ e p₁ h₁.
        after_check _ _ _ (validate-inv event_id membership_id s) h₁ λ m p₂ h₂.
          let (room, h₃) = after_raise_if _ _ _ (after_query _ _ (after_query _ _ h₂)) in
          after _ _ h₃ λ u s₄ p₄ h₄.
            let (s₅, p₅, landing) = transaction-inv _ p₄ in
            let block = approve_block-inv event_id membership_id s user_id m p₂.0 p₅ in
            let (result, ending) = pure-inv h₄ in
            (
              e,
              m,
              record {
                event_found = p₁.0;
                member_found = p₂.0;
                is_admin = p₁.1;
                belongs = p₂.1;
                waiting = block.0;
                has_room = ground (arith, p₁.0, room);
              },
              ground (arith, result, block.1),
              cc (ending, landing, block.2),
              cc (ending, landing),
            )

module _ (event_id membership_id user_id : ℕ) where
  -- An approval that raises, for whatever reason, leaves the committed database as it was.
  pub execute_approve-Atomic : Atomic (execute_approve event_id membership_id user_id)
  unfolding execute_approve count_accepted_members Events.get_by_id
  execute_approve-Atomic = Atomic-bind _ _ (verify_admin-Uncommitting event_id user_id) λ e.
      Atomic-bind _ _ (validate-Uncommitting event_id membership_id) λ m.
        Atomic-bind _ _ (search uncommitting_rules) λ n.
          Atomic-bind _ _ (search uncommitting_rules) λ o.
            Atomic-bind _ _ (search uncommitting_rules) λ _.
              Atomic-then _ _
                (Atomic-transaction _ (approve_block-Uncommitting event_id membership_id user_id m))
                λ u. Total-pure _
