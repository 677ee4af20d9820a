-- ===== src/Outbox/Handlers.antt =====
-- app/workers/handlers/: what the worker runs for an event, once per event by an idempotency record
-- of the system user under the key `outbox:<id>`. NotificationService (app/services/
-- notification_service.py) sends nothing yet: its methods are `pass`. `key_of` writes the key of an
-- id, and `sha256` is the hash of a key.
use madcamp_w2_decision_make.Prelude.{
  ℕ, String, Bool, true, false, Option, none, some, [], ◌∷◌, if◌then◌else◌, str_eq, ◌==◌, not,
}
use madcamp_w2_decision_make.Model.{IdempotencyRecord, IdempotencyStatusType, Value}
use madcamp_w2_decision_make.Session.{Action, pure, raise, commit, lookup, ◌>>=◌, ◌>>◌}
use madcamp_w2_decision_make.Idempotency
use madcamp_w2_decision_make.Idempotency.{try_except, get, try_acquire}
use madcamp_w2_decision_make.Proposal.Responses.{Body}

abbrev pub system_user_id : ℕ
system_user_id = 0

abbrev pub is_completed : Option IdempotencyRecord → Bool
is_completed none = false
is_completed (some r) = elim r.status [ IdempotencyStatusType.completed ↦ true | _ ↦ false ]

-- `payload[key]`, or None where there is no such key.
abbrev pub value_of : String → Body → Option Value
value_of key [] = none
value_of key ((k, v) ∷ rest) =
    let found = value_of key rest in if str_eq k key then some v else found

abbrev pub as_uuid : Option Value → Action ℕ
as_uuid (some (Value.uuid id)) = pure id
as_uuid _ = raise lookup

-- `UUID(payload[key])`
unfoldable pub read_uuid : String → Body → Action ℕ
read_uuid key payload = as_uuid (value_of key payload)

-- The values that Python takes for false.
abbrev pub is_falsy : Value → Bool
is_falsy (Value.uuid id) = false
is_falsy (Value.text x) = str_eq x ""
is_falsy (Value.number n) = n == 0
is_falsy (Value.uuids []) = true
is_falsy (Value.uuids (id ∷ ids)) = false
is_falsy (Value.boolean b) = not b
is_falsy Value.null = true

-- `UUID(payload[key]) if payload.get(key) else None`
abbrev pub as_optional_uuid : Option Value → Action (Option ℕ)
as_optional_uuid none = pure none
as_optional_uuid (some v) =
    if is_falsy v then pure none else (as_uuid (some v) >>= λ id. pure (some id))

unfoldable pub read_optional_uuid : String → Body → Action (Option ℕ)
read_optional_uuid key payload = as_optional_uuid (value_of key payload)

-- The record is taken over, or another one has it.
unfoldable pub acquired : String → Option IdempotencyRecord → Action Bool
acquired key (some r) = pure false
acquired key none = do existing ← get system_user_id key; pure (is_completed existing)

unfoldable pub complete_existing : Option IdempotencyRecord → Action (Unit {0})
complete_existing none = pure tt
complete_existing (some r) =
    Idempotency.mark_completed (some r) 200 (("status", Value.text "completed") ∷ []) >> commit

unfoldable pub mark_idempotency_completed : String → Action (Unit {0})
mark_idempotency_completed key = do existing ← get system_user_id key; complete_existing existing

unfoldable pub fail_existing : Option IdempotencyRecord → Action (Unit {0})
fail_existing none = pure tt
fail_existing (some r) = Idempotency.mark_failed (some r) >> commit

unfoldable pub mark_idempotency_failed : String → Action (Unit {0})
mark_idempotency_failed key = do existing ← get system_user_id key; fail_existing existing

module _ (sha256 path_of : String → String) where
  unfoldable pub acquire : String → Action Bool
  acquire key = do
    r ← try_acquire system_user_id key "OUTBOX_HANDLER" (path_of key) (sha256 key) 86400
    acquired key r

  abbrev pub by_status : IdempotencyStatusType → String → IdempotencyRecord → Action Bool
  by_status IdempotencyStatusType.completed key r = pure true
  by_status IdempotencyStatusType.in_progress key r =
      Idempotency.mark_failed (some r) >> commit >> acquire key
  by_status IdempotencyStatusType.failed key r = acquire key

  unfoldable pub by_existing : String → Option IdempotencyRecord → Action Bool
  by_existing key none = acquire key
  by_existing key (some r) = by_status r.status key r

  -- True where the event was handled before.
  unfoldable pub check_and_mark_idempotency : String → Action Bool
  check_and_mark_idempotency key = do existing ← get system_user_id key; by_existing key existing

  -- The frame of the four handlers; `notify` reads the payload and sends.
  unfoldable pub handle_once : Action (Unit {0}) → String → Action (Unit {0})
  handle_once notify key = do
    handled ← check_and_mark_idempotency key
    if handled
        then pure tt
        else try_except (notify >> mark_idempotency_completed key)
            (λ e. mark_idempotency_failed key >> raise e)

module _ (key_of : ℕ → String) (sha256 path_of : String → String) where
  unfoldable pub handle_proposal_approved : Body → ℕ → Action (Unit {0})
  handle_proposal_approved payload id =
      handle_once sha256 path_of
        (do
          read_uuid "proposal_id" payload
          read_uuid "event_id" payload
          read_optional_uuid "approved_by" payload
          pure tt)
        (key_of id)

  unfoldable pub handle_proposal_rejected : Body → ℕ → Action (Unit {0})
  handle_proposal_rejected payload id =
      handle_once sha256 path_of
        (do
          read_uuid "proposal_id" payload
          read_uuid "event_id" payload
          read_uuid "rejected_by" payload
          pure tt)
        (key_of id)

  unfoldable pub handle_membership_approved : Body → ℕ → Action (Unit {0})
  handle_membership_approved payload id =
      handle_once sha256 path_of
        (do
          read_uuid "membership_id" payload
          read_uuid "event_id" payload
          read_uuid "user_id" payload
          read_optional_uuid "approved_by" payload
          pure tt)
        (key_of id)

  unfoldable pub handle_membership_rejected : Body → ℕ → Action (Unit {0})
  handle_membership_rejected payload id =
      handle_once sha256 path_of
        (do
          read_uuid "membership_id" payload
          read_uuid "event_id" payload
          read_uuid "user_id" payload
          read_uuid "rejected_by" payload
          pure tt)
        (key_of id)

  -- HANDLERS, get_handler_for_event_type and the call of the handler.
  unfoldable pub run_handler : String → Body → ℕ → Action (Unit {0})
  run_handler event_type payload id =
      if str_eq event_type "proposal.approved.v1"
      then handle_proposal_approved payload id
      else (if str_eq event_type "proposal.rejected.v1"
          then handle_proposal_rejected payload id
          else (if str_eq event_type "membership.approved.v1"
              then handle_membership_approved payload id
              else (if str_eq event_type "membership.rejected.v1"
                  then handle_membership_rejected payload id
                  else raise lookup)))
