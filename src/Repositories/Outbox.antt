-- ===== src/Repositories/Outbox.antt =====
-- The outbox table as the services write it (app/repositories/outbox_repository.py).
use madcamp_w2_decision_make.Prelude.{ℕ, String, none, List, ◌∷◌}
use madcamp_w2_decision_make.Model.{Database, Value, OutboxEvent, OutboxStatusType}
use madcamp_w2_decision_make.Session.{Action, pure, write, utc_now, uuid4, ◌>>=◌, ◌>>◌}

abbrev pub add_outbox : OutboxEvent → Database → Database
add_outbox e d = record d { outbox_events = e ∷ d.outbox_events }

-- `next_retry_at` is left out by every caller, and is then the current time.
unfoldable pub create_outbox_event : String → List (String × Value) → ℕ → Action OutboxEvent
create_outbox_event event_type payload target_event_id = do
  now ← utc_now
  id ← uuid4
  let event : OutboxEvent = record {
    id = id;
    event_type = event_type;
    payload = payload;
    target_event_id = target_event_id;
    status = OutboxStatusType.pending;
    attempts = 0;
    next_retry_at = now;
    locked_at = none;
    locked_by = none;
    last_error = none;
    created_at = now;
    processed_at = none;
  }
  write (add_outbox event)
  pure event
