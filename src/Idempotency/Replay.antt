-- ===== src/Idempotency/Replay.antt =====
-- A request that is repeated under its idempotency key.
use madcamp_w2_decision_make.Prelude.{
  ◌+◌, refl, ◌∷◌, [], String, ℕ, ◌≡◌, str_eq, true, eq_iff, ◌⊎◌, some, arith, false, inl,
  Bool-cases, inr, none, ◌∙◌, update_by_id, Option, sym, find_by_id, List, where_rows, ==_refl, ◌<◌,
}
use madcamp_w2_decision_make.Session.{
  ◌>>◌, Session, ◌>>=◌, Action, ok, err, conflict, attribute, Error, Result, raise, pure, use_id,
  commit,
}
use madcamp_w2_decision_make.Idempotency.{
  run, get, answer, try_acquire, try_except, insert_record, answer_again, records_of, execute,
  give_up, mark_completed, mark_failed, assign, handle, add_record, new_record, is_record_of,
  complete,
}
use madcamp_w2_decision_make.Repositories.Events.{scalar_one_or_none}
use madcamp_w2_decision_make.Proposal.Responses.{Body}
use madcamp_w2_decision_make.Model.{IdempotencyRecord, IdempotencyStatusType}
use madcamp_w2_decision_make.Session.Runs.{bind-ok, after}

pub str_eq_self : (a b : String) → a ≡ b → str_eq a b ≡ true
str_eq_self a b h = (eq_iff a b).1 h

get-one :
    (user_id : ℕ) (key : String) (r : IdempotencyRecord) (s : Session)
    → records_of user_id key s.working ≡ r ∷ []
    → get user_id key s ≡ (ok (some r), s)
unfolding get scalar_one_or_none ◌>>=◌
get-one user_id key r s only = ground (arith, only)

answer-failed :
    (request_hash : String) (r : IdempotencyRecord) (s : Session)
    → r.status ≡ IdempotencyStatusType.failed
    → answer request_hash (some r) s ≡ (ok none, s)
unfolding answer ◌>>=◌
answer-failed request_hash r s failed = ground (arith, failed)

try_except-err {ℓ} :
    {A : Type ℓ} (m : Action A) (h : Error → Action A) {s t : Session} {e : Error}
    → m s ≡ (err e, t)
    → try_except m h s ≡ h e t
unfolding try_except
try_except-err m h p = λ i. handle (p i).0 h (p i).1

try_except-ok {ℓ} :
    {A : Type ℓ} (m : Action A) (h : Error → Action A) {s t : Session} {a : A}
    → m s ≡ (ok a, t)
    → try_except m h s ≡ (ok a, t)
unfolding try_except
try_except-ok m h p = λ i. handle (p i).0 h (p i).1

give_up-none :
    (t : Session) → give_up none attribute t ≡ (err attribute, record t { working = t.committed })
unfolding give_up try_except mark_failed assign ◌>>=◌
give_up-none t = refl

never_ok : (e : Error) (s t : Session) (b : Body) → raise {A = Body} e s ≡ (ok b, t) → ⊥
unfolding raise
never_ok e s t b h = ground arith

handled {ℓ} :
    {A : Type ℓ} (h : Error → Action A)
    → ((e : Error) (s t : Session) (a : A) → h e s ≡ (ok a, t) → ⊥)
    → (r : Result A) (s t : Session) (a : A) → handle r h s ≡ (ok a, t)
    → Path (Result A × Session) (r, s) (ok a, t)
handled h fails (ok x) s t a p = p
handled h fails (err e) s t a p = absurd (fails e s t a p)

give_up-err :
    (r : Option IdempotencyRecord) (e : Error) (s t : Session) (b : Body)
    → give_up r e s ≡ (ok b, t)
    → ⊥
unfolding give_up
give_up-err r e s t b h = after _ _ h λ a u p q. never_ok e u t b q

try_except-inv {ℓ} :
    {A : Type ℓ} (m : Action A) (h : Error → Action A)
    → ((e : Error) (s t : Session) (a : A) → h e s ≡ (ok a, t) → ⊥)
    → {s t : Session} {a : A} → try_except m h s ≡ (ok a, t)
    → m s ≡ (ok a, t)
unfolding try_except
try_except-inv m h fails {s} {t} {a} p = handled h fails (m s).0 (m s).1 t a p

module _ (ttl user_id : ℕ) (key method path request_hash : String) (s : Session) where
  -- A request whose key has a completed record with the same hash is answered by the stored
  -- response; the use case does not run, whatever it is, and nothing changes.
  pub run-replay :
      (fn : Action Body) (r : IdempotencyRecord) (body : Body) (code : ℕ)
      → records_of user_id key s.working ≡ r ∷ []
      → r.status ≡ IdempotencyStatusType.completed
      → r.request_hash ≡ request_hash
      → r.response_body ≡ some body
      → r.response_code ≡ some code
      → run ttl user_id key method path request_hash fn s ≡ (ok body, s)
  unfolding run get answer scalar_one_or_none ◌>>=◌
  run-replay fn r body code only done same b c =
      ground (arith, only, done, str_eq_self r.request_hash request_hash same, b, c)

  -- A request whose key has a record in progress, or a completed record with another hash, is
  -- refused with a conflict; the use case does not run, whatever it is, and nothing changes.
  pub run-conflict :
      (fn : Action Body) (r : IdempotencyRecord)
      → records_of user_id key s.working ≡ r ∷ []
      → (r.status ≡ IdempotencyStatusType.in_progress)
        ⊎ (r.status ≡ IdempotencyStatusType.completed)
          × (str_eq r.request_hash request_hash ≡ false)
      → (message : String) × (run ttl user_id key method path request_hash fn s
          ≡ (err (conflict message), s))
  unfolding run get answer scalar_one_or_none ◌>>=◌
  run-conflict fn r only (inl busy) = elim (Bool-cases (str_eq r.request_hash request_hash)) [
    | inl h ↦ ("Request in progress", ground (arith, only, busy, h))
    | inr h ↦ ("Idempotency key reused", ground (arith, only, busy, h))
  ]
  run-conflict fn r only (inr (done, other)) =
      ("Idempotency key reused", ground (arith, only, done, other))

  try_acquire-taken :
      (r : IdempotencyRecord)
      → records_of user_id key s.working ≡ r ∷ []
      → s.committed ≡ s.working
      → try_acquire user_id key method path request_hash ttl s ≡ (ok none, s)
  unfolding try_acquire try_except insert_record ◌>>=◌
  try_acquire-taken r only saved = ground (arith, only, saved)

  answer_again-failed :
      (r : IdempotencyRecord)
      → records_of user_id key s.working ≡ r ∷ []
      → r.status ≡ IdempotencyStatusType.failed
      → answer_again user_id key request_hash none s ≡ (ok none, s)
  unfolding answer_again get answer scalar_one_or_none ◌>>=◌
  answer_again-failed r only failed = ground (arith, only, failed)

  execute-none :
      (fn : Action Body) (body : Body) (t : Session)
      → fn s ≡ (ok body, t)
      → execute none fn s ≡ (err attribute, t)
  unfolding execute mark_completed assign ◌>>=◌
  execute-none fn body t ran = bind-ok fn _ ran

  -- The request of a key whose record has failed runs its use case again, keeps what that
  -- commits, and still raises: the insertion of a new record meets the unique constraint, the
  -- failed record answers nothing, and there is no record to complete.
  pub run-failed :
      (fn : Action Body) (r : IdempotencyRecord) (body : Body) (t : Session)
      → records_of user_id key s.working ≡ r ∷ []
      → s.committed ≡ s.working
      → r.status ≡ IdempotencyStatusType.failed
      → fn s ≡ (ok body, t)
      → run ttl user_id key method path request_hash fn s
        ≡ (err attribute, record t { working = t.committed })
  unfolding run
  run-failed fn r body t only saved failed ran =
      bind-ok (get user_id key) _ (get-one user_id key r s only)
      ∙ bind-ok (answer request_hash (some r)) _ (answer-failed request_hash r s failed)
      ∙ bind-ok (try_acquire user_id key method path request_hash ttl) _
          (try_acquire-taken r only saved)
      ∙ bind-ok (answer_again user_id key request_hash none) _ (answer_again-failed r only failed)
      ∙ try_except-err (execute none fn) (give_up none) (execute-none fn body t ran)
      ∙ give_up-none t

mark_completed-run :
    (b : Body) (r : IdempotencyRecord) (old : List IdempotencyRecord) (u : Session)
    → u.working.idempotency_records ≡ r ∷ old
    → mark_completed (some r) 200 b u ≡ (
      ok tt,
      record u { working = record u.working { idempotency_records = complete 200 b r ∷ old } },
    )
unfolding mark_completed assign update_by_id find_by_id ◌>>=◌
mark_completed-run b r old u rows = ground (arith, rows, ==_refl r.id)

-- The first request under a key and the next one.
module _ (ttl user_id : ℕ) (key method path request_hash : String) (s : Session) where
  abbrev first_record : IdempotencyRecord
  first_record = new_record user_id key method path request_hash s.working.next_id (s.clock + ttl)

  abbrev acquired : Session
  acquired = record s { working = add_record first_record (use_id s.working) }

  try_acquire-fresh :
      records_of user_id key s.working ≡ []
      → try_acquire user_id key method path request_hash ttl s ≡ (ok (some first_record), acquired)
  unfolding try_acquire try_except insert_record ◌>>=◌
  try_acquire-fresh fresh = ground (arith, fresh)

  get-none : records_of user_id key s.working ≡ [] → get user_id key s ≡ (ok none, s)
  unfolding get scalar_one_or_none ◌>>=◌
  get-none fresh = ground (arith, fresh)

  -- The run under a new key.
  run-fresh :
      (fn : Action Body)
      → records_of user_id key s.working ≡ []
      → run ttl user_id key method path request_hash fn s
        ≡ try_except (execute (some first_record) fn) (give_up (some first_record)) acquired
  unfolding run answer answer_again pure
  run-fresh fn fresh =
      bind-ok (get user_id key) _ (get-none fresh)
      ∙ bind-ok (answer request_hash none) _ refl
      ∙ bind-ok (try_acquire user_id key method path request_hash ttl) _ (try_acquire-fresh fresh)
      ∙ bind-ok (answer_again user_id key request_hash (some first_record)) _ refl

  mark_completed-inv :
      (b body : Body) (old : List IdempotencyRecord) (u t : Session)
      → u.working.idempotency_records ≡ first_record ∷ old
      → where_rows (is_record_of user_id key) old ≡ []
      → (mark_completed (some first_record) 200 b >> (commit >> pure b)) u ≡ (ok body, t)
      → (b ≡ body) × (records_of user_id key t.working ≡ complete 200 body first_record ∷ [])
  unfolding ◌>>=◌
  mark_completed-inv b body old u t rows none_old h =
      let q =
        sym (
          bind-ok (mark_completed (some first_record) 200 b) _
            (mark_completed-run b first_record old u rows))
        ∙ h in
      let same : b ≡ body = ground (arith, q) in
      let at : t.working.idempotency_records ≡ complete 200 b first_record ∷ old =
        ground (arith, q) in
      (same, ground (arith, same, at, none_old, ==_refl user_id, str_eq_self key key refl))

  -- What a request under a new key that returns a response leaves stored.
  run-stored :
      (fn : Action Body) (body : Body) (t : Session)
      → records_of user_id key s.working ≡ []
      → ((u v : Session) (b : Body)
          → fn u ≡ (ok b, v)
          → v.working.idempotency_records ≡ u.working.idempotency_records)
      → run ttl user_id key method path request_hash fn s ≡ (ok body, t)
      → records_of user_id key t.working ≡ complete 200 body first_record ∷ []
  unfolding execute
  run-stored fn body t fresh keeps h =
      let ran = try_except-inv _ _ (give_up-err _) (sym (run-fresh fn fresh) ∙ h) in
      after fn _ ran λ b u p q. (mark_completed-inv b body _ u t (keeps acquired u b p) fresh q).1

  -- A request under a new key that returns a response has that response returned again to the same
  -- request, whatever the use case would do then, provided that the use case leaves the
  -- idempotency records alone.
  pub run-run :
      (fn fn' : Action Body) (body : Body) (t : Session)
      → records_of user_id key s.working ≡ []
      → ((u v : Session) (b : Body)
          → fn u ≡ (ok b, v)
          → v.working.idempotency_records ≡ u.working.idempotency_records)
      → run ttl user_id key method path request_hash fn s ≡ (ok body, t)
      → run ttl user_id key method path request_hash fn' t ≡ (ok body, t)
  run-run fn fn' body t fresh keeps h =
      run-replay ttl user_id key method path request_hash t fn' _ body 200
        (run-stored fn body t fresh keeps h) refl refl refl refl

  -- The same response is still returned at a later time at which the record of the request, which is
  -- the only one of its key, has expired: the use case does not run again.
  pub run-expired :
      (fn fn' : Action Body) (body : Body) (t : Session) (now : ℕ)
      → records_of user_id key s.working ≡ []
      → ((u v : Session) (b : Body)
          → fn u ≡ (ok b, v)
          → v.working.idempotency_records ≡ u.working.idempotency_records)
      → run ttl user_id key method path request_hash fn s ≡ (ok body, t)
      → s.clock + ttl < now
      → (r : IdempotencyRecord) × (records_of user_id key t.working ≡ r ∷ [])
        × (r.expires_at < now)
        × (run ttl user_id key method path request_hash fn' (record t { clock = now })
            ≡ (ok body, record t { clock = now }))
  run-expired fn fn' body t now fresh keeps h late = (
    complete 200 body first_record,
    run-stored fn body t fresh keeps h,
    late,
    run-replay ttl user_id key method path request_hash (record t { clock = now }) fn' _ body 200
        (run-stored fn body t fresh keeps h) refl refl refl refl,
  )
