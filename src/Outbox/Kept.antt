-- ===== src/Outbox/Kept.antt =====
-- What the handlers leave alone: the outbox table.
use madcamp_w2_decision_make.Idempotency
use madcamp_w2_decision_make.Prelude.{ℕ, String, List, [], ◌∷◌, Option, none, some, true, str_eq}
use madcamp_w2_decision_make.Session.{
  Action, Error, Result, Session, attribute, multiple_results, ok, err, integrity, ◌>>=◌, not_found,
  validation, conflict, forbidden, internal, invalid_request, lookup, pure,
}
use madcamp_w2_decision_make.Session.Keeps.{
  Keeps, Keeps-bind, Keeps-pure, Keeps-query, Both, Keeps-utc_now, Keeps-raise, Keeps-raise_if,
  Keeps-write, Keeps-uuid4, Keeps-or_raise, Keeps-rollback, Keeps-commit, Keeps-if,
}
use madcamp_w2_decision_make.Model.{
  OutboxEvent, Database, Value, IdempotencyRecord, IdempotencyStatusType,
}
use madcamp_w2_decision_make.Repositories.Events.{scalar_one_or_none}
use madcamp_w2_decision_make.Idempotency.{
  assign, try_except, get, try_acquire, insert_record, on_conflict, handle,
}
use madcamp_w2_decision_make.Outbox.Handlers.{
  acquire, acquired, as_optional_uuid, as_uuid, fail_existing, by_existing, complete_existing,
  handle_once, handle_proposal_approved, check_and_mark_idempotency, handle_proposal_rejected,
  run_handler, mark_idempotency_completed, mark_idempotency_failed, by_status,
  handle_membership_approved, handle_membership_rejected, read_uuid, read_optional_uuid, is_falsy,
  value_of,
}
use madcamp_w2_decision_make.Proposal.Responses.{Body}

module _ {ℓ} {A : Type ℓ} {Q : Database → Type 0} where
  handled :
      (r : Result A) (h : Error → Action A) (s : Session)
      → ((e : Error) → Keeps Q (h e))
      → Both Q s
      → Both Q (handle r h s).1
  handled (ok a) h s kh q = q
  handled (err e) h s kh q = (kh e).at s q

  pub Keeps-try_except :
      (m : Action A) (h : Error → Action A)
      → Keeps Q m
      → ((e : Error) → Keeps Q (h e))
      → Keeps Q (try_except m h)
  unfolding try_except
  Keeps-try_except m h km kh = record {
    at = λ s q. let (r, s') = m s in handled r h s' kh (km.at s q);
  }

module _ (P : List OutboxEvent → Type 0) where
  abbrev pub OutboxHas : Database → Type 0
  OutboxHas d = P d.outbox_events

  abbrev K {ℓ} : {A : Type ℓ} → Action A → Type ℓ
  K m = Keeps OutboxHas m

  scalar-Keeps : {R : Type 0} (rows : List R) → K (scalar_one_or_none rows)
  unfolding scalar_one_or_none
  scalar-Keeps [] = Keeps-pure none
  scalar-Keeps (r ∷ []) = Keeps-pure (some r)
  scalar-Keeps (r ∷ r' ∷ rows) = Keeps-raise multiple_results

  get-Keeps : (u : ℕ) (key : String) → K (get u key)
  unfolding get
  get-Keeps u key = Keeps-bind _ _ (Keeps-query _) λ rows. scalar-Keeps rows

  assign-Keeps :
      (f : IdempotencyRecord → IdempotencyRecord) (r : Option IdempotencyRecord) → K (assign f r)
  unfolding assign
  assign-Keeps f none = Keeps-raise attribute
  assign-Keeps f (some r) = Keeps-bind _ _ (Keeps-write _ λ d q. q) λ _.
      Keeps-bind _ _ (Keeps-query _)
        λ found. Keeps-bind _ _ (Keeps-or_raise found _) λ _. Keeps-pure tt

  module _ (u : ℕ) (key method path hash : String) where
    on_conflict-Keeps : (e : Error) → K (on_conflict u key method path hash e)
    on_conflict-Keeps (integrity name) = Keeps-bind _ _ Keeps-rollback λ _. Keeps-pure none
    on_conflict-Keeps (not_found m) = Keeps-raise _
    on_conflict-Keeps (validation m) = Keeps-raise _
    on_conflict-Keeps (conflict m) = Keeps-raise _
    on_conflict-Keeps (forbidden m) = Keeps-raise _
    on_conflict-Keeps (internal m) = Keeps-raise _
    on_conflict-Keeps multiple_results = Keeps-raise _
    on_conflict-Keeps invalid_request = Keeps-raise _
    on_conflict-Keeps attribute = Keeps-raise _
    on_conflict-Keeps lookup = Keeps-raise _

    try_acquire-Keeps : (ttl : ℕ) → K (try_acquire u key method path hash ttl)
    unfolding try_acquire insert_record
    try_acquire-Keeps ttl = Keeps-bind _ _ Keeps-utc_now λ now.
        Keeps-try_except _ _
          (Keeps-bind _ _
            (Keeps-bind _ _ (Keeps-query _) λ taken. Keeps-bind _ _ (Keeps-raise_if taken _) λ _.
              Keeps-bind _ _ (Keeps-uuid4 λ d q. q)
                λ id. Keeps-bind _ _ (Keeps-write _ λ d q. q) λ _. Keeps-pure _)
            λ r. Keeps-pure _)
          on_conflict-Keeps

  as_uuid-Keeps : (v : Option Value) → K (as_uuid v)
  as_uuid-Keeps none = Keeps-raise _
  as_uuid-Keeps (some (Value.uuid id)) = Keeps-pure _
  as_uuid-Keeps (some (Value.text x)) = Keeps-raise _
  as_uuid-Keeps (some (Value.number x)) = Keeps-raise _
  as_uuid-Keeps (some (Value.uuids x)) = Keeps-raise _
  as_uuid-Keeps (some (Value.boolean x)) = Keeps-raise _
  as_uuid-Keeps (some Value.null) = Keeps-raise _

  optional-Keeps : (v : Option Value) → K (as_uuid v >>= λ id. pure (some id))
  optional-Keeps v = Keeps-bind _ _ (as_uuid-Keeps v) λ id. Keeps-pure (some id)

  as_optional_uuid-Keeps : (v : Option Value) → K (as_optional_uuid v)
  as_optional_uuid-Keeps none = Keeps-pure none
  as_optional_uuid-Keeps (some v) =
      Keeps-if (is_falsy v) _ _ (λ _. Keeps-pure none) (λ _. optional-Keeps (some v))

  uuid_then : (v : Option Value) (m : Action (Unit {0})) → K m → K (as_uuid v >>= λ _. m)
  uuid_then v m km = Keeps-bind _ _ (as_uuid-Keeps v) λ _. km

  optional_then :
      (v : Option Value) (m : Action (Unit {0})) → K m → K (as_optional_uuid v >>= λ _. m)
  optional_then v m km = Keeps-bind _ _ (as_optional_uuid-Keeps v) λ _. km

  acquired-Keeps : (key : String) (r : Option IdempotencyRecord) → K (acquired key r)
  unfolding acquired
  acquired-Keeps key (some r) = Keeps-pure _
  acquired-Keeps key none = Keeps-bind _ _ (get-Keeps _ key) λ _. Keeps-pure _

  complete_existing-Keeps : (r : Option IdempotencyRecord) → K (complete_existing r)
  unfolding complete_existing Idempotency.mark_completed
  complete_existing-Keeps none = Keeps-pure tt
  complete_existing-Keeps (some r) = Keeps-bind _ _ (assign-Keeps _ _) λ _. Keeps-commit

  fail_existing-Keeps : (r : Option IdempotencyRecord) → K (fail_existing r)
  unfolding fail_existing Idempotency.mark_failed
  fail_existing-Keeps none = Keeps-pure tt
  fail_existing-Keeps (some r) = Keeps-bind _ _ (assign-Keeps _ _) λ _. Keeps-commit

  module _ (sha256 path_of : String → String) where
    acquire-Keeps : (key : String) → K (acquire sha256 path_of key)
    unfolding acquire
    acquire-Keeps key = Keeps-bind _ _ (try_acquire-Keeps _ key _ _ _ _) λ r. acquired-Keeps key r

    by_status-Keeps :
        (st : IdempotencyStatusType) (key : String) (r : IdempotencyRecord)
        → K (by_status sha256 path_of st key r)
    unfolding Idempotency.mark_failed
    by_status-Keeps IdempotencyStatusType.completed key r = Keeps-pure true
    by_status-Keeps IdempotencyStatusType.in_progress key r =
        Keeps-bind _ _ (Keeps-bind _ _ (assign-Keeps _ _) λ _. Keeps-commit) λ _. acquire-Keeps key
    by_status-Keeps IdempotencyStatusType.failed key r = acquire-Keeps key

    by_existing-Keeps :
        (key : String) (r : Option IdempotencyRecord) → K (by_existing sha256 path_of key r)
    unfolding by_existing
    by_existing-Keeps key none = acquire-Keeps key
    by_existing-Keeps key (some r) = by_status-Keeps r.status key r

    handle_once-Keeps :
        (notify : Action (Unit {0})) (key : String)
        → K notify
        → K (handle_once sha256 path_of notify key)
    unfolding handle_once check_and_mark_idempotency mark_idempotency_completed
        mark_idempotency_failed
    handle_once-Keeps notify key kn =
        Keeps-bind _ _ (Keeps-bind _ _ (get-Keeps _ key) (by_existing-Keeps key)) λ handled.
          Keeps-if handled _ _ (λ _. Keeps-pure tt)
            λ _.
              Keeps-try_except _ _
                (Keeps-bind _ _ kn λ _. Keeps-bind _ _ (get-Keeps _ key) complete_existing-Keeps)
                λ e.
                  Keeps-bind _ _ (Keeps-bind _ _ (get-Keeps _ key) fail_existing-Keeps)
                    λ _. Keeps-raise e

  module _ (key_of : ℕ → String) (sha256 path_of : String → String) where
    -- No handler touches the outbox.
    pub run_handler-Keeps :
        (event_type : String) (payload : Body) (id : ℕ)
        → Keeps OutboxHas (run_handler key_of sha256 path_of event_type payload id)
    unfolding run_handler handle_proposal_approved handle_proposal_rejected
        handle_membership_approved handle_membership_rejected read_uuid read_optional_uuid
    run_handler-Keeps event_type payload id =
        Keeps-if (str_eq event_type "proposal.approved.v1") _ _
          (λ _. once _ (
            uuid_then _ _
              (uuid_then _ _ (optional_then (value_of "approved_by" payload) _ (Keeps-pure tt)))))
          λ _.
            Keeps-if (str_eq event_type "proposal.rejected.v1") _ _
              (λ _. once _ (uuid_then _ _ (uuid_then _ _ (uuid_then _ _ (Keeps-pure tt)))))
              λ _.
                Keeps-if (str_eq event_type "membership.approved.v1") _ _
                  (λ _. once _ (
                    uuid_then _ _ (
                      uuid_then _ _ (
                        uuid_then _ _
                          (optional_then (value_of "approved_by" payload) _ (Keeps-pure tt))))))
                  λ _.
                    Keeps-if (str_eq event_type "membership.rejected.v1") _ _
                      (λ _. once _ (
                        uuid_then _ _
                          (uuid_then _ _ (uuid_then _ _ (uuid_then _ _ (Keeps-pure tt))))))
                      λ _. Keeps-raise lookup
      where
        once :
            (notify : Action (Unit {0}))
            → K notify
            → K (handle_once sha256 path_of notify (key_of id))
        once notify kn = handle_once-Keeps sha256 path_of notify (key_of id) kn
