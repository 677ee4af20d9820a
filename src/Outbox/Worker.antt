-- ===== src/Outbox/Worker.antt =====
-- app/workers/outbox_worker.py: one batch. `describe` is Python's `str` of an exception. The loop
-- of `run` sleeps and repeats process_batch, whatever it raises.
use madcamp_w2_decision_make.Prelude.{ℕ, String, List, [], ◌∷◌, ◌+◌, ◌^◌}
use madcamp_w2_decision_make.Model.{OutboxEvent}
use madcamp_w2_decision_make.Session.{Action, Error, pure, utc_now, transaction, ◌>>=◌, ◌>>◌}
use madcamp_w2_decision_make.Idempotency.{try_except}
use madcamp_w2_decision_make.Repositories.OutboxQueue.{
  claim_pending_events, refresh_event, mark_done, mark_failed,
}
use madcamp_w2_decision_make.Outbox.Handlers.{run_handler}

module _ (key_of : ℕ → String) (sha256 path_of : String → String) where
  -- The `try` block.
  unfoldable pub deliver : ℕ → Action (Unit {0})
  deliver id = do
    event ← refresh_event id
    run_handler key_of sha256 path_of event.event_type event.payload id
    now ← utc_now
    transaction (mark_done id now)

module _ (describe : Error → String) where
  -- The `except` block.
  unfoldable pub schedule_retry : ℕ → Error → Action (Unit {0})
  schedule_retry id e = do
    event ← refresh_event id
    now ← utc_now
    transaction (mark_failed id (describe e) (now + 2 ^ event.attempts) 3)
    pure tt

module _ (key_of : ℕ → String) (sha256 path_of : String → String) (describe : Error → String) where
  unfoldable pub process_event : ℕ → Action (Unit {0})
  process_event id = try_except (deliver key_of sha256 path_of id) (schedule_retry describe id)

  unfoldable pub process_each : List OutboxEvent → Action (Unit {0})
  process_each [] = pure tt
  process_each (e ∷ rest) = process_event e.id >> process_each rest

  unfoldable pub process_batch : ℕ → String → Action (Unit {0})
  process_batch batch_size worker_id = do
    now ← utc_now
    events ← transaction (claim_pending_events batch_size worker_id now 300)
    process_each events
