-- ===== src/Repositories/OutboxQueue.antt =====
-- app/repositories/outbox_repository.py: the outbox table as the worker uses it. Times are in
-- seconds. Rows that another worker has locked in a transaction of its own are not in the model, so
-- SKIP LOCKED skips none.
use madcamp_w2_decision_make.Prelude.{
  ℕ, String, Bool, Option, none, some, List, [], ◌∷◌, map, contains, where_rows, take, order_by_asc,
  ltb, leb, ◌+◌, ◌&&◌, if◌then◌else◌, find_by_id, update_by_id, true, false,
}
use madcamp_w2_decision_make.Model.{Database, OutboxEvent, OutboxStatusType, is_outbox_pending}
use madcamp_w2_decision_make.Session.{
  Action, pure, query, write, or_raise, invalid_request, ◌>>=◌, ◌>>◌,
}

abbrev pub outbox_key : OutboxEvent → ℕ
outbox_key e = e.id

unfoldable pub outbox_of : ℕ → Database → Option OutboxEvent
outbox_of id d = find_by_id outbox_key id d.outbox_events

-- No lock, or one that is older than the lock's time to live.
abbrev pub is_free : ℕ → ℕ → Option ℕ → Bool
is_free now lock_ttl none = true
is_free now lock_ttl (some locked_at) = ltb (locked_at + lock_ttl) now

abbrev pub is_claimable : ℕ → ℕ → OutboxEvent → Bool
is_claimable now lock_ttl e =
    is_outbox_pending e.status && leb e.next_retry_at now && is_free now lock_ttl e.locked_at

-- The events to claim, first come first served.
abbrev pub claimable : ℕ → ℕ → ℕ → Database → List OutboxEvent
claimable batch_size now lock_ttl d =
    take batch_size
      (order_by_asc (λ e. e.created_at) (where_rows (is_claimable now lock_ttl) d.outbox_events))

abbrev pub lock : ℕ → String → List ℕ → OutboxEvent → OutboxEvent
lock now worker_id ids e =
    if contains e.id ids then record e { locked_at = some now; locked_by = some worker_id } else e

-- UPDATE … WHERE id IN ids
abbrev pub lock_all : ℕ → String → List ℕ → Database → Database
lock_all now worker_id ids d = record d {
  outbox_events = map (lock now worker_id ids) d.outbox_events;
}

-- `db.refresh(event)`, also a read of an expired event.
unfoldable pub refresh_event : ℕ → Action OutboxEvent
refresh_event id = do found ← query (outbox_of id); or_raise found invalid_request

unfoldable pub refresh_each : List OutboxEvent → Action (List OutboxEvent)
refresh_each [] = pure []
refresh_each (e ∷ rest) =
    refresh_event e.id >>= λ fresh. refresh_each rest >>= λ others. pure (fresh ∷ others)

-- `if not events: return []`, and the rest.
unfoldable pub claim : ℕ → String → List OutboxEvent → Action (List OutboxEvent)
claim now worker_id [] = pure []
claim now worker_id (e ∷ rest) =
    write (lock_all now worker_id (map outbox_key (e ∷ rest))) >> refresh_each (e ∷ rest)

unfoldable pub claim_pending_events : ℕ → String → ℕ → ℕ → Action (List OutboxEvent)
claim_pending_events batch_size worker_id now lock_ttl = do
  events ← query (claimable batch_size now lock_ttl)
  claim now worker_id events

abbrev pub set_outbox : ℕ → (OutboxEvent → OutboxEvent) → Database → Database
set_outbox id f d = record d { outbox_events = update_by_id outbox_key id f d.outbox_events }

abbrev pub processed : ℕ → OutboxEvent → OutboxEvent
processed processed_at e = record e {
  status = OutboxStatusType.done;
  processed_at = some processed_at;
  locked_at = none;
  locked_by = none;
}

unfoldable pub mark_done : ℕ → ℕ → Action (Unit {0})
mark_done id processed_at = write (set_outbox id (processed processed_at))

abbrev pub count_attempt : OutboxEvent → OutboxEvent
count_attempt e = record e { attempts = e.attempts + 1 }

abbrev pub dead : String → OutboxEvent → OutboxEvent
dead error e = record e {
  status = OutboxStatusType.failed;
  last_error = some error;
  locked_at = none;
  locked_by = none;
}

abbrev pub retry : String → ℕ → OutboxEvent → OutboxEvent
retry error next_retry_at e = record e {
  status = OutboxStatusType.pending;
  next_retry_at = next_retry_at;
  last_error = some error;
  locked_at = none;
  locked_by = none;
}

-- What follows on the new number of attempts.
unfoldable pub settle_attempt : ℕ → String → ℕ → ℕ → Option OutboxEvent → Action Bool
settle_attempt id error next_retry_at max_attempts none = pure false
settle_attempt id error next_retry_at max_attempts (some e) =
    if leb max_attempts e.attempts
    then write (set_outbox id (dead error)) >> pure false
    else (write (set_outbox id (retry error next_retry_at)) >> pure true)

unfoldable pub mark_failed : ℕ → String → ℕ → ℕ → Action Bool
mark_failed id error next_retry_at max_attempts = do
  write (set_outbox id count_attempt)
  updated ← query (outbox_of id)
  settle_attempt id error next_retry_at max_attempts updated
