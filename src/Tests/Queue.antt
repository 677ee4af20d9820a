-- ===== src/Tests/Queue.antt =====
-- The outbox worker and the event stream on a table of two events.
use madcamp_w2_decision_make.Prelude.{
  ℕ, String, some, none, [], ◌∷◌, ◌≡◌, ◌≤◌, ◌<◌, ◌+◌, refl, arith, List, map, find_by_id, length,
  Option, All, Keyed, contains, true, Bool, false, count_rows,
}
use madcamp_w2_decision_make.Model.{OutboxEvent, OutboxStatusType, Database, Value}
use madcamp_w2_decision_make.Session.{Session, ok, Error, ◌>>=◌, transaction}
use madcamp_w2_decision_make.Tests.{database, event, session}
use madcamp_w2_decision_make.Outbox.Attempts.{Life, Life-attempts}
use madcamp_w2_decision_make.Repositories.OutboxQueue.{
  mark_failed, claim_pending_events, outbox_of, claim, refresh_each, outbox_key, set_outbox,
  refresh_event,
}
use madcamp_w2_decision_make.Outbox.Stream.{get_event_updates, update_response}
use madcamp_w2_decision_make.Outbox.Lifecycle.{attempted, mark_failed-run}
use madcamp_w2_decision_make.Outbox.Processing.{Stands, settled, process_event-settled}
use madcamp_w2_decision_make.Outbox.Handlers.{run_handler}
use madcamp_w2_decision_make.Session.Runs.{landed, transaction-ok}
use madcamp_w2_decision_make.Outbox.Worker.{process_event}
use madcamp_w2_decision_make.Outbox.Claims.{claim_pending_events-exclusive}
use madcamp_w2_decision_make.Outbox.Paging.{undelivered, get_event_updates-pages}

abbrev queued : ℕ → ℕ → OutboxEvent
queued id created_at = record {
  id = id;
  event_type = "membership.rejected.v1";
  payload = ("membership_id", Value.uuid 20) ∷ [];
  target_event_id = 1;
  status = OutboxStatusType.pending;
  attempts = 0;
  next_retry_at = created_at;
  locked_at = none;
  locked_by = none;
  last_error = none;
  created_at = created_at;
  processed_at = none;
}

abbrev queue_database : Database
queue_database = record (database event []) { outbox_events = queued 81 4 ∷ queued 80 3 ∷ [] }

abbrev queue_start : Session
queue_start = session queue_database

-- The names of keys and of errors.
abbrev key_of : ℕ → String
key_of id = "outbox:80"

abbrev same_text : String → String
same_text x = x

abbrev describe : Error → String
describe e = "error"

queue-Keyed : Keyed outbox_key queue_database.outbox_events
unfolding find_by_id
queue-Keyed = (refl, (refl, tt))

mark_failed-run_example : mark_failed 80 "error" 9 3 queue_start ≡ (
  ok true,
  record queue_start { working = set_outbox 80 (attempted 3 "error" 9) queue_database },
)
unfolding outbox_of find_by_id
mark_failed-run_example = mark_failed-run 80 "error" 9 3 (queued 80 3) queue_start refl

process_event-settled_example :
    let (r, t) =
      run_handler key_of same_text same_text "membership.rejected.v1"
        (("membership_id", Value.uuid 20) ∷ [])
        80
        queue_start in
    (u : Session) × (process_event key_of same_text same_text describe 80 queue_start ≡ (ok tt, u))
    × Stands 80 (settled describe r t.clock (queued 80 3)) u
unfolding outbox_of find_by_id
process_event-settled_example =
    process_event-settled key_of same_text same_text describe 80 (queued 80 3) queue_start
      (refl, refl)

abbrev claimed : ℕ → ℕ → OutboxEvent
claimed id created_at = record (queued id created_at) {
  locked_at = some 7;
  locked_by = some "worker:1";
}

abbrev after_claim : Session
after_claim = record queue_start {
  working = record queue_database { outbox_events = queued 81 4 ∷ claimed 80 3 ∷ [] };
}

first_claim :
    claim_pending_events 1 "worker:1" 7 300 queue_start ≡ (ok (claimed 80 3 ∷ []), after_claim)
unfolding claim_pending_events claim refresh_each refresh_event outbox_of find_by_id ◌>>=◌
first_claim = refl

abbrev claim_kept : Session
claim_kept = landed after_claim.working after_claim

claim_run :
    transaction (claim_pending_events 1 "worker:1" 7 300) queue_start
    ≡ (ok (claimed 80 3 ∷ []), claim_kept)
claim_run = transaction-ok (claim_pending_events 1 "worker:1" 7 300) first_claim

claimed-Stands : Stands 80 (claimed 80 3) claim_kept
unfolding outbox_of find_by_id
claimed-Stands = (refl, refl)

queued-Stands : Stands 80 (queued 80 3) queue_start
unfolding outbox_of find_by_id
queued-Stands = (refl, refl)

-- A claim and the processing that follows.
one_round : (u : Session) × Life key_of same_text same_text describe 80 queue_start u 1
one_round =
    let (u, run, there) =
      process_event-settled key_of same_text same_text describe 80 (claimed 80 3) claim_kept
        claimed-Stands in
    (
      u,
      Life.claimed 1 7 300 "worker:1" (claimed 80 3 ∷ []) claim_run
          (Life.processed_once (claimed 80 3) claimed-Stands refl run Life.nothing),
    )

Life-attempts_example : 1 + 0 ≤ 3
Life-attempts_example =
    Life-attempts key_of same_text same_text describe 80 (queued 80 3) one_round.1 queued-Stands
      (omega arith)

second_claim : claim_pending_events 5 "worker:2" 9 300 after_claim ≡ (
  ok (record (queued 81 4) { locked_at = some 9; locked_by = some "worker:2" } ∷ []),
  (claim_pending_events 5 "worker:2" 9 300 after_claim).1,
)
unfolding claim_pending_events claim refresh_each refresh_event outbox_of find_by_id ◌>>=◌
second_claim = refl

claim_pending_events-exclusive_example :
    (length (claimed 80 3 ∷ []) ≤ 1)
    × All
        (λ e. contains e.id (map outbox_key (claimed 80 3 ∷ [])) ≡ false)
        (record (queued 81 4) { locked_at = some 9; locked_by = some "worker:2" } ∷ [])
claim_pending_events-exclusive_example =
    claim_pending_events-exclusive 1 5 "worker:1" "worker:2" 7 9 300 queue_start first_claim
      second_claim (omega arith)

get_event_updates-pages_example :
    (page : List OutboxEvent) × (next : Option ℕ) × (get_event_updates 1 none 1 queue_start
      ≡ (ok (map update_response page, next), queue_start))
    × ((p : OutboxEvent → Bool)
        → count_rows p (undelivered 1 none queue_database)
          ≡ count_rows p page + count_rows p (undelivered 1 next queue_database))
    × (length page ≤ 1)
    × (0 < 1 → page ≡ [] → undelivered 1 none queue_database ≡ [])
get_event_updates-pages_example = get_event_updates-pages 1 none 1 queue_start tt queue-Keyed
