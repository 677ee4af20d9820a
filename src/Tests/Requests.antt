-- ===== src/Tests/Requests.antt =====
-- Requests with an idempotency key, and changes of an event's status.
use madcamp_w2_decision_make.Repositories.Memberships.{
  reject, update_if_pending, reject_membership_if_pending, refresh, membership_of,
}
use madcamp_w2_decision_make.Repositories.Memberships
use madcamp_w2_decision_make.Repositories.Events
use madcamp_w2_decision_make.Model.{
  IdempotencyStatusType, Event, EventStatusType, IdempotencyRecord,
}
use madcamp_w2_decision_make.Setting.{EventStatusUpdateResponse, update_event_status}
use madcamp_w2_decision_make.Proposal.Responses.{Body}
use madcamp_w2_decision_make.Tests.{start, database, event, waiting_member, session}
use madcamp_w2_decision_make.Membership.Service.{
  execute_reject, reject_block, membership_result, or_status_conflict,
  validate_membership_exists_and_belongs_to_event,
}
use madcamp_w2_decision_make.Repositories.Events.{event_of, set_event, scalar_one_or_none}
use madcamp_w2_decision_make.Prelude.{
  ◌∷◌, [], String, find_by_id, Option, none, ◌≡◌, some, arith, refl, ap, inr, update_by_id, ◌<◌,
}
use madcamp_w2_decision_make.Session.{
  Session, Result, err, ok, attribute, conflict, transaction, ◌>>=◌, validation,
}
use madcamp_w2_decision_make.Idempotency.{
  run, get, answer, try_acquire, try_except, insert_record, answer_again, execute, mark_completed,
  assign, records_of,
}
use madcamp_w2_decision_make.Session.Runs.{landed, result-run}
use madcamp_w2_decision_make.Idempotency.Replay.{run-expired, run-run, run-failed, run-conflict}
use madcamp_w2_decision_make.Setting.Status.{
  Transition, with_status, update_event_status-ok, update_event_status-finished,
  update_event_status-inv,
}
use madcamp_w2_decision_make.Membership.Reject.{execute_reject-inv}
use madcamp_w2_decision_make.BaseService.{verify_admin}
use madcamp_w2_decision_make.Repositories.Outbox.{create_outbox_event}

abbrev answer_body : Body
answer_body = membership_result (reject waiting_member)

abbrev stored : IdempotencyStatusType → Option Body → IdempotencyRecord
stored status body = record {
  id = 90;
  user_id = 10;
  key = "key";
  method = "PATCH";
  path = "/memberships/20/reject";
  request_hash = "hash";
  status = status;
  response_code = some 200;
  response_body = body;
  expires_at = 60;
}

abbrev with_record : IdempotencyStatusType → Option Body → Session
with_record status body = session (database event (stored status body ∷ []))

-- The request of an admin to reject the waiting member.
abbrev send : String → Session → Result Body × Session
send request_hash =
    run 60 10 "key" "PATCH" "/memberships/20/reject" request_hash (execute_reject 1 20 10)

run-conflict_example :
    (message : String) × (send "other"
        (with_record IdempotencyStatusType.completed (some answer_body))
      ≡ (err (conflict message), with_record IdempotencyStatusType.completed (some answer_body)))
run-conflict_example =
    run-conflict 60 10 "key" "PATCH" "/memberships/20/reject" "other"
      (with_record IdempotencyStatusType.completed (some answer_body)) (execute_reject 1 20 10)
      (stored IdempotencyStatusType.completed (some answer_body)) refl (inr (refl, refl))

sent : (send "hash" start).0 ≡ ok answer_body
unfolding run get answer scalar_one_or_none try_acquire try_except insert_record answer_again
    execute mark_completed assign execute_reject reject_block reject_membership_if_pending
    or_status_conflict refresh validate_membership_exists_and_belongs_to_event Events.get_by_id
    Memberships.get_by_id verify_admin event_of membership_of update_if_pending create_outbox_event
    find_by_id update_by_id transaction ◌>>=◌
sent = refl

-- A rejection leaves the idempotency records alone.
reject_leaves :
    (u v : Session) (b : Body)
    → execute_reject 1 20 10 u ≡ (ok b, v)
    → v.working.idempotency_records ≡ u.working.idempotency_records
reject_leaves u v b h =
    let (e, m, can, reported, landed_on, same) = execute_reject-inv 1 20 10 u h in
    ap (λ d. d.idempotency_records) landed_on

run-run_example : send "hash" (send "hash" start).1 ≡ (ok answer_body, (send "hash" start).1)
run-run_example =
    run-run 60 10 "key" "PATCH" "/memberships/20/reject" "hash" start (execute_reject 1 20 10)
      (execute_reject 1 20 10) answer_body (send "hash" start).1 refl reject_leaves
      (result-run (send "hash") start sent)

run-expired_example :
    (r : IdempotencyRecord) × (records_of 10 "key" (send "hash" start).1.working ≡ r ∷ [])
    × (r.expires_at < 1000)
    × (send "hash" (record (send "hash" start).1 { clock = 1000 })
        ≡ (ok answer_body, record (send "hash" start).1 { clock = 1000 }))
run-expired_example =
    run-expired 60 10 "key" "PATCH" "/memberships/20/reject" "hash" start (execute_reject 1 20 10)
      (execute_reject 1 20 10) answer_body (send "hash" start).1 1000 refl reject_leaves
      (result-run (send "hash") start sent) (omega arith)

rejected_again :
    (execute_reject 1 20 10 (with_record IdempotencyStatusType.failed none)).0 ≡ ok answer_body
unfolding execute_reject reject_block reject_membership_if_pending or_status_conflict refresh
    validate_membership_exists_and_belongs_to_event Events.get_by_id Memberships.get_by_id
    verify_admin event_of membership_of update_if_pending create_outbox_event find_by_id
    update_by_id transaction ◌>>=◌
rejected_again = refl

run-failed_example : send "hash" (with_record IdempotencyStatusType.failed none) ≡ (
  err attribute,
  record (execute_reject 1 20 10 (with_record IdempotencyStatusType.failed none)).1 {
    working = (execute_reject 1 20 10 (with_record IdempotencyStatusType.failed none)).1.committed;
  },
)
run-failed_example =
    run-failed 60 10 "key" "PATCH" "/memberships/20/reject" "hash"
      (with_record IdempotencyStatusType.failed none) (execute_reject 1 20 10)
      (stored IdempotencyStatusType.failed none) answer_body
      (execute_reject 1 20 10 (with_record IdempotencyStatusType.failed none)).1 refl refl refl
      (result-run (execute_reject 1 20 10) (with_record IdempotencyStatusType.failed none)
        rejected_again)

event_there : (e : Event) → e.id ≡ 1 → event_of 1 (database e []) ≡ some e
unfolding event_of find_by_id
event_there e at = ground (arith, at)

abbrev finished_event : Event
finished_event = record event { event_status = EventStatusType.finished }

abbrev paused : EventStatusUpdateResponse
paused = record { id = 1; status = EventStatusType.paused; updated_at = some 7 }

abbrev paused_session : Session
paused_session =
    landed (set_event 1 (with_status EventStatusType.paused 7) (database event [])) start

update_event_status-ok_example :
    update_event_status 1 EventStatusType.paused 10 start ≡ (ok paused, paused_session)
update_event_status-ok_example =
    update_event_status-ok 1 10 EventStatusType.paused start event (event_there event refl) refl
      Transition.pause

update_event_status-inv_example :
    (e : Event) × (event_of 1 (database event []) ≡ some e)
    × (e.admin_id ≡ 10)
    × Transition e.event_status EventStatusType.paused
    × (event_of 1 paused_session.working ≡ some (with_status EventStatusType.paused 7 e))
    × (paused.status ≡ EventStatusType.paused)
    × (paused_session.committed ≡ paused_session.working)
update_event_status-inv_example = update_event_status-inv 1 10 EventStatusType.paused start (
    update_event_status-ok 1 10 EventStatusType.paused start event (event_there event refl) refl
      Transition.pause)

-- The status machine is asked to leave FINISHED.
update_event_status-finished_example :
    update_event_status 1 EventStatusType.paused 10 (session (database finished_event []))
    ≡ (err (validation "Invalid status transition"), session (database finished_event []))
update_event_status-finished_example =
    update_event_status-finished 1 10 EventStatusType.paused (session (database finished_event []))
      finished_event (event_there finished_event refl) refl
