-- ===== src/Outbox/Lifecycle.antt =====
-- What a failed attempt does to the row of an event (mark_failed of outbox_repository.py).
use madcamp_w2_decision_make.Prelude.{
  ℕ, String, ◌≡◌, refl, some, ◌+◌, if◌then◌else◌, not, leb, Bool-cases, inl, inr, key-find,
  find-update_self, ◌∙◌, ap, update-update,
}
use madcamp_w2_decision_make.Model.{OutboxEvent, Database}
use madcamp_w2_decision_make.Session.{Session, ok, ◌>>=◌}
use madcamp_w2_decision_make.Repositories.OutboxQueue.{
  mark_failed, set_outbox, outbox_of, count_attempt, dead, retry, settle_attempt, outbox_key,
}
use madcamp_w2_decision_make.Session.Runs.{bind-ok, bind-query, write-run}

-- One more failed attempt.
abbrev pub attempted : ℕ → String → ℕ → OutboxEvent → OutboxEvent
attempted max_attempts error next_retry_at e =
    if leb max_attempts (e.attempts + 1)
    then dead error (count_attempt e)
    else retry error next_retry_at (count_attempt e)

settle_attempt-run :
    (id : ℕ) (error : String) (next max : ℕ) (e : OutboxEvent) (s : Session)
    → settle_attempt id error next max (some (count_attempt e)) s ≡ (
      ok (not (leb max (e.attempts + 1))),
      record s {
        working =
            set_outbox id
              (if leb max (e.attempts + 1) then dead error else retry error next)
              s.working;
      },
    )
unfolding settle_attempt ◌>>=◌
settle_attempt-run id error next max e s = elim (Bool-cases (leb max (e.attempts + 1))) [
  | inl p ↦ rw p refl
  | inr p ↦ rw p refl
]

attempted-one :
    (max : ℕ) (error : String) (next : ℕ) (e : OutboxEvent)
    → (if leb max (e.attempts + 1) then dead error else retry error next) (count_attempt e)
      ≡ attempted max error next e
attempted-one max error next e = elim (Bool-cases (leb max (e.attempts + 1))) [
  | inl p ↦ rw p refl
  | inr p ↦ rw p refl
]

-- A failure of an event of the table counts one attempt, sets the event FAILED once the attempts
-- are used up and PENDING again otherwise, and reports whether it may be retried.
pub mark_failed-run :
    (id : ℕ) (error : String) (next max : ℕ) (e : OutboxEvent) (s : Session)
    → outbox_of id s.working ≡ some e
    → mark_failed id error next max s ≡ (
      ok (not (leb max (e.attempts + 1))),
      record s { working = set_outbox id (attempted max error next) s.working },
    )
unfolding mark_failed outbox_of
mark_failed-run id error next max e s found =
    bind-ok _ _ (write-run _ s)
    ∙ bind-query (outbox_of id) _
    ∙ ap (λ o. settle_attempt id error next max o (record s { working = counted })) there
    ∙ settle_attempt-run id error next max e (record s { working = counted })
    ∙ ap
        (λ rows. (
          ok (not (leb max (e.attempts + 1))),
          record s { working = record s.working { outbox_events = rows } },
        ))
        (update-update outbox_key id count_attempt
          (if leb max (e.attempts + 1) then dead error else retry error next)
          (attempted max error next) e s.working.outbox_events found same
          (attempted-one max error next e))
  where
    counted : Database
    counted = set_outbox id count_attempt s.working

    same : e.id ≡ id
    same = key-find outbox_key id e s.working.outbox_events found

    there : outbox_of id counted ≡ some (count_attempt e)
    there = find-update_self outbox_key id count_attempt e s.working.outbox_events found same
