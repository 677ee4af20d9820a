-- ===== src/Idempotency.antt =====
-- app/services/idempotency_service.py, app/repositories/idempotency_repository.py and the wrapper
-- in proposal/core/idempotency_wrapper.py. A request comes with its hash, and `fn` is its use case.
pub mod Replay
use madcamp_w2_decision_make.Model.{IdempotencyStatusType, IdempotencyRecord, Database}
use madcamp_w2_decision_make.Prelude.{
  Option, String, ℕ, Bool, none, List, ◌∷◌, some, if◌then◌else◌, ◌==◌, update_by_id, str_eq,
  where_rows, ◌+◌, ◌&&◌, is_some, find_by_id, first_row,
}
use madcamp_w2_decision_make.Session.{
  Result, Action, Error, raise, ◌>>=◌, ok, pure, integrity, attribute, query, ◌>>◌, utc_now, err,
  or_raise, rollback, write, validation, commit, conflict, raise_if, invalid_request, uuid4,
}
use madcamp_w2_decision_make.Proposal.Responses.{Body}
use madcamp_w2_decision_make.Repositories.Events.{scalar_one_or_none}

abbrev pub handle {ℓ} : {A : Type ℓ} → Result A → (Error → Action A) → Action A
handle (ok a) h s = (ok a, s)
handle (err e) h s = h e s

-- `try: m except Exception as e: h`
unfoldable pub try_except {ℓ} : {A : Type ℓ} → Action A → (Error → Action A) → Action A
try_except m h s = let (r, s') = m s in handle r h s'

abbrev pub is_record_of : ℕ → String → IdempotencyRecord → Bool
is_record_of user_id key r = r.user_id == user_id && str_eq r.key key

abbrev pub record_key : IdempotencyRecord → ℕ
record_key r = r.id

-- The records of a user under a key.
abbrev pub records_of : ℕ → String → Database → List IdempotencyRecord
records_of user_id key d = where_rows (is_record_of user_id key) d.idempotency_records

unfoldable pub get : ℕ → String → Action (Option IdempotencyRecord)
get user_id key = do rows ← query (records_of user_id key); scalar_one_or_none rows

abbrev pub add_record : IdempotencyRecord → Database → Database
add_record r d = record d { idempotency_records = r ∷ d.idempotency_records }

abbrev pub set_record : ℕ → (IdempotencyRecord → IdempotencyRecord) → Database → Database
set_record id f d = record d {
  idempotency_records = update_by_id record_key id f d.idempotency_records;
}

module _ (user_id : ℕ) (key method path request_hash : String) where
  abbrev pub new_record : ℕ → ℕ → IdempotencyRecord
  new_record id expires_at = record {
    id = id;
    user_id = user_id;
    key = key;
    method = method;
    path = path;
    request_hash = request_hash;
    status = IdempotencyStatusType.in_progress;
    response_code = none;
    response_body = none;
    expires_at = expires_at;
  }

  -- The flush of the new record, which the unique constraint on user and key may refuse.
  unfoldable pub insert_record : ℕ → Action IdempotencyRecord
  insert_record expires_at = do
    taken ← query (λ d. is_some (first_row (records_of user_id key d)))
    raise_if taken (integrity "uq_idempotency_records_user_id_key")
    id ← uuid4
    write (add_record (new_record id expires_at))
    pure (new_record id expires_at)

  -- `except IntegrityError`
  abbrev pub on_conflict : Error → Action (Option IdempotencyRecord)
  on_conflict (integrity name) = rollback >> pure none
  on_conflict e = raise e

  unfoldable pub try_acquire : ℕ → Action (Option IdempotencyRecord)
  try_acquire ttl = do
    now ← utc_now
    try_except (insert_record (now + ttl) >>= λ r. pure (some r)) on_conflict

-- `record.status = …; flush; refresh`: None has no attributes, and a record that a rollback took
-- out of the session cannot be refreshed.
unfoldable pub assign :
    (IdempotencyRecord → IdempotencyRecord) → Option IdempotencyRecord → Action (Unit {0})
assign f none = raise attribute
assign f (some r) = do
  write (set_record r.id f)
  found ← query (λ d. find_by_id record_key r.id d.idempotency_records)
  or_raise found invalid_request
  pure tt

abbrev pub complete : ℕ → Body → IdempotencyRecord → IdempotencyRecord
complete code body r = record r {
  status = IdempotencyStatusType.completed;
  response_code = some code;
  response_body = some body;
}

unfoldable pub mark_completed : Option IdempotencyRecord → ℕ → Body → Action (Unit {0})
mark_completed r code body = assign (complete code body) r

unfoldable pub mark_failed : Option IdempotencyRecord → Action (Unit {0})
mark_failed r = assign (λ x. record x { status = IdempotencyStatusType.failed }) r

abbrev pub stored_response : Option Body → Option ℕ → Action (Option Body)
stored_response (some body) (some code) = pure (some body)
stored_response _ _ = raise (validation "Invalid idempotency record")

-- What an existing record answers to a request: the stored response, an error, or nothing.
abbrev pub answer_by : IdempotencyStatusType → String → IdempotencyRecord → Action (Option Body)
answer_by IdempotencyStatusType.completed request_hash r =
    if str_eq r.request_hash request_hash
    then stored_response r.response_body r.response_code
    else raise (conflict "Idempotency key reused")
answer_by IdempotencyStatusType.in_progress request_hash r =
    if str_eq r.request_hash request_hash
    then raise (conflict "Request in progress")
    else raise (conflict "Idempotency key reused")
answer_by IdempotencyStatusType.failed request_hash r = pure none

unfoldable pub answer : String → Option IdempotencyRecord → Action (Option Body)
answer request_hash none = pure none
answer request_hash (some r) = answer_by r.status request_hash r

-- `fn()` and the storing of its response.
unfoldable pub execute : Option IdempotencyRecord → Action Body → Action Body
execute r fn = do response_body ← fn; mark_completed r 200 response_body; commit; pure response_body

-- The outer `except` of `run`.
unfoldable pub give_up : Option IdempotencyRecord → Error → Action Body
give_up r e = do try_except (mark_failed r >> commit) (λ _. rollback); raise e

-- `if record is None:` with its block.
unfoldable pub answer_again : ℕ → String → String → Option IdempotencyRecord → Action (Option Body)
answer_again user_id key request_hash (some r) = pure none
answer_again user_id key request_hash none = do
  existing ← get user_id key
  r ← or_raise existing (conflict "Failed to acquire idempotency key")
  answer request_hash (some r)

-- `return` of an answer, or else the rest of the method.
abbrev pub unless_answered : Option Body → Action Body → Action Body
unless_answered (some body) k = pure body
unless_answered none k = k

-- run, from the request's hash on, and with the TTL as a number.
unfoldable pub run : ℕ → ℕ → String → String → String → String → Action Body → Action Body
run ttl user_id key method path request_hash fn = do
  existing_record ← get user_id key
  first ← answer request_hash existing_record
  unless_answered first (
      try_acquire user_id key method path request_hash ttl >>= λ r.
      answer_again user_id key request_hash r >>= λ second.
      unless_answered second (try_except (execute r fn) (give_up r)))

-- IdempotencyWrapper.wrap, with the service always there. The empty key is falsy.
unfoldable pub wrap : ℕ → Option String → ℕ → String → String → String → Action Body → Action Body
wrap ttl none user_id method path request_hash fn = fn
wrap ttl (some key) user_id method path request_hash fn =
    if str_eq key "" then fn else run ttl user_id key method path request_hash fn
