-- ===== src/Session.antt =====
-- The database session (app/db.py, app/utils/transaction.py) and the actions that the services run
-- on it. `working` is what the session's queries see, flushed writes included; `committed` is what
-- the database keeps. What an action wrote before it raised stays written until a rollback, so the
-- session comes back beside the error too.
pub mod Keeps
pub mod Atomic
pub mod Runs
pub mod Reading
pub mod Leaves
use madcamp_w2_decision_make.Prelude.{ℕ, ◌+◌, String, Bool, true, false, Option, none, some}
use madcamp_w2_decision_make.Model.{Database}

-- The exceptions of app/exceptions.py, each with its message, and those that SQLAlchemy and Python
-- raise below them; `lookup` is what Python raises for a key that a payload lacks or a value that
-- is no UUID, for an event type without a handler, and for a value that a response schema refuses.
pub data Error : Type 0 where
  not_found validation conflict forbidden internal : String → Error
  integrity : String → Error
  multiple_results : Error
  invalid_request : Error
  attribute : Error
  lookup : Error

pub data Result {ℓ} (A : Type ℓ) : Type ℓ where
  ok : A → Result A
  err : Error → Result A

pub record Session : Type 0 where
  pub working : Database
  pub committed : Database
  pub clock : ℕ

abbrev pub Action {ℓ} : Type ℓ → Type ℓ
Action A = Session → Result A × Session

module _ {ℓ} {A : Type ℓ} where
  unfoldable pub pure : A → Action A
  pure a s = (ok a, s)

  unfoldable pub raise : Error → Action A
  raise e s = (err e, s)

  -- A query.
  unfoldable pub query : (Database → A) → Action A
  query f s = (ok (f s.working), s)

  -- `if not x: raise …`, and `x` from there on.
  unfoldable pub or_raise : Option A → Error → Action A
  unfolding pure raise
  or_raise none e = raise e
  or_raise (some a) e = pure a

-- `if c: raise e`
unfoldable pub raise_if : Bool → Error → Action (Unit {0})
unfolding pure raise
raise_if true e = raise e
raise_if false e = pure tt

-- A flushed write.
unfoldable pub write : (Database → Database) → Action (Unit {0})
write f s = (ok tt, record s { working = f s.working })

-- `datetime.now(timezone.utc)`
unfoldable pub utc_now : Action ℕ
utc_now s = (ok s.clock, s)

abbrev pub use_id : Database → Database
use_id d = record d { next_id = d.next_id + 1 }

-- The default of a primary key, uuid.uuid4.
unfoldable pub uuid4 : Action ℕ
uuid4 s = (ok s.working.next_id, record s { working = use_id s.working })

-- `db.commit()`
unfoldable pub commit : Action (Unit {0})
commit s = (ok tt, record s { committed = s.working })

-- `db.rollback()`
unfoldable pub rollback : Action (Unit {0})
rollback s = (ok tt, record s { working = s.committed })

module _ {ℓ κ} {A : Type ℓ} {B : Type κ} where
  abbrev pub continue : Result A → (A → Action B) → Action B
  continue (ok a) f s = f a s
  continue (err e) f s = (err e, s)

  infixl 5 ◌>>=◌ ◌>>◌
  -- To open this is to open the actions above too.
  unfoldable pub ◌>>=◌ : Action A → (A → Action B) → Action B
  unfolding pure raise query or_raise raise_if write utc_now uuid4 commit rollback
  ◌>>=◌ m f s = let (r, s') = m s in continue r f s'

  abbrev pub ◌>>◌ : Action A → Action B → Action B
  m >> k = m >>= λ _. k

module _ {ℓ} {A : Type ℓ} where
  -- What `transaction` does after its block: commit, or roll back and raise again.
  abbrev pub settle : Result A → Session → Result A × Session
  settle (ok a) s = (ok a, record s { committed = s.working })
  settle (err e) s = (err e, record s { working = s.committed })

  unfoldable pub transaction : Action A → Action A
  transaction m s = let (r, s') = m s in settle r s'

  -- One request: get_db closes the session at its end, which drops what was not committed.
  unfoldable pub request : Action A → Action A
  request m s = let (r, s') = m s in (r, record s' { working = s'.committed })
