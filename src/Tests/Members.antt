-- ===== src/Tests/Members.antt =====
-- Runs of the membership service.
use madcamp_w2_decision_make.Membership.Capacity.{
  WithinCapacity, execute_approve-WithinCapacity, execute_approve-accepted_count,
}
use madcamp_w2_decision_make.Prelude.{
  find_by_id, ◌≡◌, Keyed, [], arith, ◌+◌, some, refl, true, ◌-◌, ap, update_by_id,
}
use madcamp_w2_decision_make.Session.Atomic.{Atomic}
use madcamp_w2_decision_make.Membership.Service.{
  execute_approve, join_event_by_code, execute_reject, reject_block, approve_block,
  bulk_approve_memberships, membership_result, or_status_conflict,
  validate_membership_exists_and_belongs_to_event,
}
use madcamp_w2_decision_make.Membership.BulkService.{
  approvable, pending_count, bulk_approve_memberships-run,
}
use madcamp_w2_decision_make.Repositories.Events.{event_of, accepted_count, count_accepted_members}
use madcamp_w2_decision_make.Model.{Event, EventMembership}
use madcamp_w2_decision_make.Tests.{database, start, session, event, small_event, waiting_member}
use madcamp_w2_decision_make.Membership.Approve.{
  execute_approve-Atomic, CanApprove, execute_approve-inv,
}
use madcamp_w2_decision_make.Repositories.Memberships.{
  membership_key, approve_membership_if_pending, reject_membership_if_pending, refresh,
  membership_of, accept,
}
use madcamp_w2_decision_make.Membership.Reject.{CanReject, execute_reject-inv}
use madcamp_w2_decision_make.Session.{ok, transaction, ◌>>=◌}
use madcamp_w2_decision_make.Membership.Join.{join_event_by_code-over_capacity}
use madcamp_w2_decision_make.Membership.Checks.{after_approval, after_rejection, rejected}
use madcamp_w2_decision_make.Repositories.Events
use madcamp_w2_decision_make.Repositories.Memberships
use madcamp_w2_decision_make.BaseService.{verify_admin}
use madcamp_w2_decision_make.Repositories.Outbox.{create_outbox_event}
use madcamp_w2_decision_make.Session.Runs.{landed}
use madcamp_w2_decision_make.Repositories.Proposals.{update_if_pending}

start-WithinCapacity : WithinCapacity (database event [])
unfolding event_of accepted_count find_by_id
start-WithinCapacity j e found = ground arith

execute_approve-WithinCapacity_example : WithinCapacity (execute_approve 1 20 10 start).1.committed
execute_approve-WithinCapacity_example =
    execute_approve-WithinCapacity 1 20 10 start refl start-WithinCapacity

-- The admin approves the first waiting member.
approved_run : execute_approve 1 20 10 start ≡ (
  ok (membership_result (accept 7 waiting_member)),
  landed (after_approval 1 20 10 7 waiting_member (database event [])) start,
)
unfolding execute_approve approve_block approve_membership_if_pending or_status_conflict refresh
    validate_membership_exists_and_belongs_to_event Events.get_by_id Memberships.get_by_id
    verify_admin count_accepted_members accepted_count event_of membership_of update_if_pending
    create_outbox_event find_by_id update_by_id transaction ◌>>=◌
approved_run = refl

execute_approve-inv_example :
    (e : Event) × (m : EventMembership) × CanApprove 1 20 10 e m (database event [])
    × (membership_result (accept 7 waiting_member) ≡ membership_result (accept 7 m))
    × (after_approval 1 20 10 7 waiting_member (database event [])
        ≡ after_approval 1 20 10 7 m (database event []))
    × (after_approval 1 20 10 7 waiting_member (database event [])
        ≡ after_approval 1 20 10 7 waiting_member (database event []))
execute_approve-inv_example = execute_approve-inv 1 20 10 start approved_run

execute_approve-Atomic_example : Atomic (execute_approve 1 22 10)
execute_approve-Atomic_example = execute_approve-Atomic 1 22 10

execute_approve-accepted_count_example :
    accepted_count 1 (execute_approve 1 20 10 start).1.committed
    ≡ accepted_count 1 (database event []) + 1
execute_approve-accepted_count_example =
    execute_approve-accepted_count 1 20 10 start (ap (λ r. r.0) approved_run) 1

rejected_run : execute_reject 1 20 10 start ≡ (
  ok (membership_result (rejected waiting_member)),
  landed (after_rejection 1 20 10 7 waiting_member (database event [])) start,
)
unfolding execute_reject reject_block reject_membership_if_pending or_status_conflict refresh
    validate_membership_exists_and_belongs_to_event Events.get_by_id Memberships.get_by_id
    verify_admin event_of membership_of update_if_pending create_outbox_event find_by_id
    update_by_id transaction ◌>>=◌
rejected_run = refl

execute_reject-inv_example :
    (e : Event) × (m : EventMembership) × CanReject 1 20 10 e m (database event [])
    × (membership_result (rejected waiting_member) ≡ membership_result (rejected m))
    × (after_rejection 1 20 10 7 waiting_member (database event [])
        ≡ after_rejection 1 20 10 7 m (database event []))
    × (after_rejection 1 20 10 7 waiting_member (database event [])
        ≡ after_rejection 1 20 10 7 waiting_member (database event []))
execute_reject-inv_example = execute_reject-inv 1 20 10 start rejected_run

start-Keyed : Keyed membership_key (database event []).memberships
unfolding find_by_id
start-Keyed = (refl, (refl, (refl, tt)))

event_found : (e : Event) → e.id ≡ 1 → event_of 1 (database e []) ≡ some e
unfolding event_of find_by_id
event_found e at = ground (arith, at)

bulk_approve_memberships-run_example :
    let k = approvable 1 event (database event []) in
    let (r, t) = bulk_approve_memberships 1 10 start in
    (r ≡ ok (k, pending_count 1 (database event []) - k))
    × (accepted_count 1 t.committed ≡ accepted_count 1 (database event []) + k)
bulk_approve_memberships-run_example =
    bulk_approve_memberships-run 1 10 event start refl start-Keyed (event_found event refl) refl

small_event-full : accepted_count 1 (database small_event []) ≡ 1
unfolding accepted_count
small_event-full = refl

join_event_by_code-over_capacity_example :
    ((join_event_by_code (λ x. x) "ABC123" 14 (session (database small_event []))).0 ≡ ok (1, true))
    × (¬ WithinCapacity
        (join_event_by_code (λ x. x) "ABC123" 14 (session (database small_event []))).1.committed)
join_event_by_code-over_capacity_example =
    join_event_by_code-over_capacity (λ x. x) "ABC123" 14 small_event
      (session (database small_event [])) refl refl refl (event_found small_event refl)
      small_event-full
