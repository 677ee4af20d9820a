-- ===== src/Membership/Reject.antt =====
-- A rejection by the admin.
use madcamp_w2_decision_make.Prelude.{ℕ, List, String, ◌≡◌, some, arith}
use madcamp_w2_decision_make.Model.{Event, EventMembership, Database, Value, MembershipStatusType}
use madcamp_w2_decision_make.Membership.Service.{execute_reject, membership_result}
use madcamp_w2_decision_make.Session.{Session, ok}
use madcamp_w2_decision_make.Session.Atomic.{
  Atomic, Atomic-bind, Atomic-then, Atomic-transaction, Total-pure,
}
use madcamp_w2_decision_make.BaseService.Inversion.{verify_admin-Uncommitting, verify_admin-inv}
use madcamp_w2_decision_make.Repositories.Events.{event_of}
use madcamp_w2_decision_make.Membership.Checks.{
  validate-Uncommitting, reject_block-Uncommitting, validate-inv, reject_block-inv, after_rejection,
  rejected,
}
use madcamp_w2_decision_make.Repositories.Memberships.{membership_of}
use madcamp_w2_decision_make.Session.Runs.{after_check, after, transaction-inv, pure-inv}

-- What a rejection needs of the database that it is asked of.
pub record CanReject (event_id membership_id user_id : ℕ) (e : Event) (m : EventMembership)
    (d : Database) : Type 0 where
  pub event_found : event_of event_id d ≡ some e
  pub member_found : membership_of membership_id d ≡ some m
  pub is_admin : e.admin_id ≡ user_id
  pub belongs : m.event_id ≡ event_id
  pub waiting : m.membership_status ≡ MembershipStatusType.pending

module _ (event_id membership_id user_id : ℕ) where
  -- A rejection that returns was asked by the admin of the event, for a PENDING member of it. It
  -- reports the member as REJECTED, and commits just that status of the member's row and one outbox
  -- event.
  pub execute_reject-inv :
      (s : Session) {b : List (String × Value)} {t : Session}
      → execute_reject event_id membership_id user_id s ≡ (ok b, t)
      → (e : Event) × (m : EventMembership) × CanReject event_id membership_id user_id e m s.working
        × (b ≡ membership_result (rejected m))
        × (t.working ≡ after_rejection event_id membership_id user_id s.clock m s.working)
        × (t.committed ≡ t.working)
  unfolding execute_reject
  execute_reject-inv s {b} {t} h =
      after_check _ _ _ (verify_admin-inv event_id s user_id) h λ e p₁ h₁.
        after_check _ _ _ (validate-inv event_id membership_id s) h₁ λ m p₂ h₂.
          after _ _ h₂ λ u s₄ p₄ h₄.
            let (s₅, p₅, landing) = transaction-inv _ p₄ in
            let block = reject_block-inv event_id membership_id s user_id m p₂.0 p₅ in
            let (result, ending) = pure-inv h₄ in
            (
              e,
              m,
              record {
                event_found = p₁.0;
                member_found = p₂.0;
                is_admin = p₁.1;
                belongs = p₂.1;
                waiting = block.0;
              },
              ground (arith, result, block.1),
              cc (ending, landing, block.2),
              cc (ending, landing),
            )

  -- A rejection that raises, for whatever reason, leaves the committed database as it was.
  pub execute_reject-Atomic : Atomic (execute_reject event_id membership_id user_id)
  unfolding execute_reject
  execute_reject-Atomic = Atomic-bind _ _ (verify_admin-Uncommitting event_id user_id) λ e.
      Atomic-bind _ _ (validate-Uncommitting event_id membership_id) λ m.
        Atomic-then _ _
          (Atomic-transaction _ (reject_block-Uncommitting event_id membership_id user_id m))
          λ u. Total-pure _
