-- ===== src/Session/Keeps.antt =====
-- Predicates on the database that an action keeps, in the session and in what is committed: one
-- rule for each way to build an action.
use madcamp_w2_decision_make.Prelude.{
  ◌≡◌, refl, Bool, true, false, if◌then◌else◌, Option, none, some,
}
use madcamp_w2_decision_make.Model.{Database}
use madcamp_w2_decision_make.Session.{
  Session, Error, Result, ok, err, Action, pure, raise, query, or_raise, raise_if, write, utc_now,
  use_id, uuid4, commit, rollback, continue, ◌>>=◌, settle, transaction, request,
}

abbrev pub Both : (Database → Type 0) → Session → Type 0
Both Q s = Q s.working × Q s.committed

pub record Keeps {ℓ} {A : Type ℓ} (Q : Database → Type 0) (m : Action A) : Type ℓ where
  pub at : (s : Session) → Both Q s → Both Q (m s).1

settled {ℓ} :
    {A : Type ℓ} (Q : Database → Type 0) (r : Result A) (s : Session)
    → Both Q s
    → Both Q (settle r s).1
settled Q (ok a) s h = (h.0, h.0)
settled Q (err e) s h = (h.1, h.1)

module _ {ℓ} {A : Type ℓ} {Q : Database → Type 0} where
  pub Keeps-pure : (a : A) → Keeps Q (pure a)
  unfolding pure
  Keeps-pure a = record { at = λ s h. h }

  pub Keeps-raise : (e : Error) → Keeps Q (raise {A = A} e)
  unfolding raise
  Keeps-raise e = record { at = λ s h. h }

  pub Keeps-query : (f : Database → A) → Keeps Q (query f)
  unfolding query
  Keeps-query f = record { at = λ s h. h }

  pub Keeps-or_raise : (o : Option A) (e : Error) → Keeps Q (or_raise o e)
  unfolding or_raise
  Keeps-or_raise none e = record { at = λ s h. h }
  Keeps-or_raise (some a) e = record { at = λ s h. h }

  pub Keeps-if :
      (b : Bool) (m n : Action A)
      → (b ≡ true → Keeps Q m)
      → (b ≡ false → Keeps Q n)
      → Keeps Q (if b then m else n)
  Keeps-if true m n km kn = km refl
  Keeps-if false m n km kn = kn refl

  pub Keeps-transaction : (m : Action A) → Keeps Q m → Keeps Q (transaction m)
  unfolding transaction
  Keeps-transaction m km = record { at = λ s h. let (r, s') = m s in settled Q r s' (km.at s h) }

  pub Keeps-request : (m : Action A) → Keeps Q m → Keeps Q (request m)
  unfolding request
  Keeps-request m km = record { at = λ s h. let k = km.at s h in (k.1, k.1) }

module _ {Q : Database → Type 0} where
  pub Keeps-raise_if : (b : Bool) (e : Error) → Keeps Q (raise_if b e)
  unfolding raise_if
  Keeps-raise_if true e = record { at = λ s h. h }
  Keeps-raise_if false e = record { at = λ s h. h }

  pub Keeps-write : (f : Database → Database) → ((d : Database) → Q d → Q (f d)) → Keeps Q (write f)
  unfolding write
  Keeps-write f kf = record { at = λ s h. (kf s.working h.0, h.1) }

  pub Keeps-utc_now : Keeps Q utc_now
  unfolding utc_now
  Keeps-utc_now = record { at = λ s h. h }

  pub Keeps-uuid4 : ((d : Database) → Q d → Q (use_id d)) → Keeps Q uuid4
  unfolding uuid4
  Keeps-uuid4 k = record { at = λ s h. (k s.working h.0, h.1) }

  pub Keeps-commit : Keeps Q commit
  unfolding commit
  Keeps-commit = record { at = λ s h. (h.0, h.0) }

  pub Keeps-rollback : Keeps Q rollback
  unfolding rollback
  Keeps-rollback = record { at = λ s h. (h.1, h.1) }

module _ {ℓ κ} {A : Type ℓ} {B : Type κ} {Q : Database → Type 0} where
  continued :
      (r : Result A) (f : A → Action B) (s : Session)
      → ((a : A) → Keeps Q (f a))
      → Both Q s
      → Both Q (continue r f s).1
  continued (ok a) f s kf h = (kf a).at s h
  continued (err e) f s kf h = h

  pub Keeps-bind :
      (m : Action A) (f : A → Action B) → Keeps Q m → ((a : A) → Keeps Q (f a)) → Keeps Q (m >>= f)
  unfolding ◌>>=◌
  Keeps-bind m f km kf = record { at = λ s h. let (r, s') = m s in continued r f s' kf (km.at s h) }

pub ruleset keeps_rules = (
  Keeps-pure, Keeps-raise, Keeps-query, Keeps-or_raise, Keeps-if, Keeps-transaction, Keeps-raise_if,
  Keeps-utc_now, Keeps-bind,
)
