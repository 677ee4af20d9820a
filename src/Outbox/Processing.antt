-- ===== src/Outbox/Processing.antt =====
-- The processing of one event by the worker.
use madcamp_w2_decision_make.Prelude.{
  ℕ, String, ◌≡◌, refl, some, ◌+◌, if◌then◌else◌, leb, Bool-cases, inl, inr, key-find,
  find-update_self, ◌∙◌, ap, arith, ◌^◌, find_by_id, none,
}
use madcamp_w2_decision_make.Model.{OutboxEvent, Database, OutboxStatusType}
use madcamp_w2_decision_make.Session.{
  Session, ok, ◌>>=◌, Error, Result, err, Action, pure, continue, utc_now, transaction,
}
use madcamp_w2_decision_make.Repositories.OutboxQueue.{
  set_outbox, outbox_of, outbox_key, refresh_event, processed, mark_done,
}
use madcamp_w2_decision_make.Session.Runs.{bind-ok, write-run, landed, utc_now-run, transaction-ok}
use madcamp_w2_decision_make.Session.Keeps.{Both}
use madcamp_w2_decision_make.Outbox.Worker.{schedule_retry, deliver, process_event}
use madcamp_w2_decision_make.Outbox.Handlers.{run_handler}
use madcamp_w2_decision_make.Idempotency.{handle, try_except}
use madcamp_w2_decision_make.Outbox.Kept.{run_handler-Keeps}
use madcamp_w2_decision_make.Outbox.Lifecycle.{attempted, mark_failed-run}

attempted_id :
    (max : ℕ) (error : String) (next : ℕ) (e : OutboxEvent) → (attempted max error next e).id ≡ e.id
attempted_id max error next e = elim (Bool-cases (leb max (e.attempts + 1))) [
  | inl p ↦ rw p refl
  | inr p ↦ rw p refl
]

-- What one processing makes of an event, by what its handler did and the time after that: DONE, or
-- one more attempt, with a delay of 2 to the power of the former attempts, or FAILED on the third.
abbrev pub settled : (Error → String) → Result (Unit {0}) → ℕ → OutboxEvent → OutboxEvent
settled describe (ok x) now e = record e {
  status = OutboxStatusType.done;
  processed_at = some now;
  locked_at = none;
  locked_by = none;
}
settled describe (err x) now e =
    if leb 3 (e.attempts + 1)
    then record e {
      attempts = e.attempts + 1;
      status = OutboxStatusType.failed;
      last_error = some (describe x);
      locked_at = none;
      locked_by = none;
    }
    else record e {
      attempts = e.attempts + 1;
      status = OutboxStatusType.pending;
      next_retry_at = now + 2 ^ e.attempts;
      last_error = some (describe x);
      locked_at = none;
      locked_by = none;
    }

-- The row of an event, written and committed.
abbrev pub Stands : ℕ → OutboxEvent → Session → Type 0
Stands id e s = Both (λ d. outbox_of id d ≡ some e) s

updated_row :
    (id : ℕ) (f : OutboxEvent → OutboxEvent) (e : OutboxEvent) (d : Database)
    → outbox_of id d ≡ some e
    → (f e).id ≡ e.id
    → outbox_of id (set_outbox id f d) ≡ some (f e)
unfolding outbox_of
updated_row id f e d found same =
    find-update_self outbox_key id f e d.outbox_events found
      (same ∙ key-find outbox_key id e d.outbox_events found)

refresh_event-run :
    (id : ℕ) (e : OutboxEvent) (s : Session)
    → outbox_of id s.working ≡ some e
    → refresh_event id s ≡ (ok e, s)
unfolding refresh_event ◌>>=◌
refresh_event-run id e s found = ground (arith, found)

opened :
    {A B : Type 0} (m : Action A) (f : A → Action B) (s : Session)
    → (m >>= f) s ≡ continue (m s).0 f (m s).1
unfolding ◌>>=◌
opened m f s = refl

module _ (key_of : ℕ → String) (sha256 path_of : String → String) (describe : Error → String)
    (id : ℕ) (e : OutboxEvent) where
  -- What the block of the `try` does, by what the handler did.
  abbrev after_handler : Result (Unit {0}) → Session → Result (Unit {0}) × Session
  after_handler (ok x) t = (ok tt, landed (set_outbox id (processed t.clock) t.working) t)
  after_handler (err x) t = (err x, t)

  abbrev ran : Session → Result (Unit {0}) × Session
  ran s = run_handler key_of sha256 path_of e.event_type e.payload id s

  settled_by :
      (r : Result (Unit {0})) (t : Session)
      → continue r (λ _. utc_now >>= λ now. transaction (mark_done id now)) t ≡ after_handler r t
  unfolding mark_done
  settled_by (ok x) t = bind-ok _ _ (utc_now-run t) ∙ transaction-ok _ (write-run _ t)
  settled_by (err x) t = refl

  deliver-run :
      (s : Session)
      → outbox_of id s.working ≡ some e
      → deliver key_of sha256 path_of id s ≡ after_handler (ran s).0 (ran s).1
  unfolding deliver
  deliver-run s found =
      bind-ok _ _ (refresh_event-run id e s found)
      ∙ opened (run_handler key_of sha256 path_of e.event_type e.payload id) _ s
      ∙ settled_by (ran s).0 (ran s).1

  schedule_retry-run :
      (x : Error) (s : Session)
      → outbox_of id s.working ≡ some e
      → schedule_retry describe id x s ≡ (
        ok tt,
        landed (set_outbox id (attempted 3 (describe x) (s.clock + 2 ^ e.attempts)) s.working) s,
      )
  unfolding schedule_retry pure
  schedule_retry-run x s found =
      bind-ok _ _ (refresh_event-run id e s found)
      ∙ bind-ok _ _ (utc_now-run s)
      ∙ bind-ok _ _ (
          transaction-ok _ (mark_failed-run id (describe x) (s.clock + 2 ^ e.attempts) 3 e s found))
      ∙ refl

  Stands-landed :
      (t : Session) (f : OutboxEvent → OutboxEvent)
      → outbox_of id t.working ≡ some e
      → (f e).id ≡ e.id
      → Stands id (f e) (landed (set_outbox id f t.working) t)
  Stands-landed t f found same = let at = updated_row id f e t.working found same in (at, at)

  process_by :
      (r : Result (Unit {0})) (t : Session)
      → Stands id e t
      → (u : Session) × (handle
            (after_handler r t).0
            (schedule_retry describe id)
            (after_handler r t).1
          ≡ (ok tt, u))
        × Stands id (settled describe r t.clock e) u
  process_by (ok x) t h = (_, refl, Stands-landed t (processed t.clock) h.0 refl)
  process_by (err x) t h = (
    _,
    schedule_retry-run x t h.0,
    Stands-landed t (attempted 3 (describe x) (t.clock + 2 ^ e.attempts)) h.0
        (attempted_id 3 _ _ e),
  )

  -- Whatever its handler does, the processing of an event that is in the table returns, and commits
  -- for the event what the handler's result asks for. Once the handler returned, the event is DONE,
  -- processed at the time after that. Once it raised, the event has one attempt more and keeps the
  -- error: with three attempts it is FAILED, and with fewer it is PENDING, to be retried after 2 to
  -- the power of its former attempts in seconds. Either way its lock is gone.
  pub process_event-settled :
      (s : Session)
      → Stands id e s
      → let (r, t) = run_handler key_of sha256 path_of e.event_type e.payload id s in
        (u : Session) × (process_event key_of sha256 path_of describe id s ≡ (ok tt, u))
        × Stands id (settled describe r t.clock e) u
  unfolding process_event try_except outbox_of
  process_event-settled s h =
      let kept =
        run_handler-Keeps (λ rows. find_by_id outbox_key id rows ≡ some e) key_of sha256 path_of
          e.event_type e.payload id in
      let (u, run, stands) = process_by (ran s).0 (ran s).1 (kept.at s h) in
      (u, ap (λ x. handle x.0 (schedule_retry describe id) x.1) (deliver-run s h.0) ∙ run, stands)
