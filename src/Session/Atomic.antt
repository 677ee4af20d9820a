-- ===== src/Session/Atomic.antt =====
-- Actions that fail without a trace: what a failed action leaves committed is what was committed
-- before it.
use madcamp_w2_decision_make.Prelude.{
  ◌≡◌, refl, ◌∙◌, Bool, true, false, if◌then◌else◌, Option, none, some,
}
use madcamp_w2_decision_make.Model.{Database}
use madcamp_w2_decision_make.Session.{
  Session, Error, Result, ok, err, Action, pure, raise, query, or_raise, raise_if, write, utc_now,
  uuid4, continue, ◌>>=◌, settle, transaction,
}

-- The action commits nothing.
pub record Uncommitting {ℓ} {A : Type ℓ} (m : Action A) : Type ℓ where
  pub same : (s : Session) → (m s).1.committed ≡ s.committed

-- If the action raises, it has committed nothing.
pub record Atomic {ℓ} {A : Type ℓ} (m : Action A) : Type ℓ where
  pub unchanged : (s : Session) (e : Error) → (m s).0 ≡ err e → (m s).1.committed ≡ s.committed

-- The action does not raise.
pub record Total {ℓ} {A : Type ℓ} (m : Action A) : Type ℓ where
  pub returns : (s : Session) (e : Error) → (m s).0 ≡ err e → ⊥

module _ {ℓ} {A : Type ℓ} where
  pub Uncommitting-pure : (a : A) → Uncommitting (pure a)
  unfolding pure
  Uncommitting-pure a = record { same = λ s. refl }

  pub Uncommitting-raise : (e : Error) → Uncommitting (raise {A = A} e)
  unfolding raise
  Uncommitting-raise e = record { same = λ s. refl }

  pub Uncommitting-query : (f : Database → A) → Uncommitting (query f)
  unfolding query
  Uncommitting-query f = record { same = λ s. refl }

  pub Uncommitting-or_raise : (o : Option A) (e : Error) → Uncommitting (or_raise o e)
  unfolding or_raise
  Uncommitting-or_raise none e = record { same = λ s. refl }
  Uncommitting-or_raise (some a) e = record { same = λ s. refl }

  pub Uncommitting-if :
      (b : Bool) (m n : Action A)
      → Uncommitting m
      → Uncommitting n
      → Uncommitting (if b then m else n)
  Uncommitting-if true m n um un = um
  Uncommitting-if false m n um un = un

  settled_error :
      (r : Result A) (s : Session) (e : Error)
      → (settle r s).0 ≡ err e
      → (settle r s).1.committed ≡ s.committed
  settled_error (ok a) s e h = cc
  settled_error (err x) s e h = refl

  pub Atomic-transaction : (m : Action A) → Uncommitting m → Atomic (transaction m)
  unfolding transaction
  Atomic-transaction m um = record {
    unchanged = λ s e h. let (r, s') = m s in settled_error r s' e h ∙ um.same s;
  }

  pub Atomic-Uncommitting : (m : Action A) → Uncommitting m → Atomic m
  Atomic-Uncommitting m um = record { unchanged = λ s e h. um.same s }

  pub Total-pure : (a : A) → Total (pure a)
  unfolding pure
  Total-pure a = record { returns = λ s e h. cc }

  pub Total-query : (f : Database → A) → Total (query f)
  unfolding query
  Total-query f = record { returns = λ s e h. cc }

pub Uncommitting-raise_if : (b : Bool) (e : Error) → Uncommitting (raise_if b e)
unfolding raise_if
Uncommitting-raise_if true e = record { same = λ s. refl }
Uncommitting-raise_if false e = record { same = λ s. refl }

pub Uncommitting-write : (f : Database → Database) → Uncommitting (write f)
unfolding write
Uncommitting-write f = record { same = λ s. refl }

pub Uncommitting-utc_now : Uncommitting utc_now
unfolding utc_now
Uncommitting-utc_now = record { same = λ s. refl }

pub Uncommitting-uuid4 : Uncommitting uuid4
unfolding uuid4
Uncommitting-uuid4 = record { same = λ s. refl }

module _ {ℓ κ} {A : Type ℓ} {B : Type κ} where
  same_continued :
      (r : Result A) (f : A → Action B) (s : Session)
      → ((a : A) → Uncommitting (f a))
      → (continue r f s).1.committed ≡ s.committed
  same_continued (ok a) f s uf = (uf a).same s
  same_continued (err e) f s uf = refl

  pub Uncommitting-bind :
      (m : Action A) (f : A → Action B)
      → Uncommitting m
      → ((a : A) → Uncommitting (f a))
      → Uncommitting (m >>= f)
  unfolding ◌>>=◌
  Uncommitting-bind m f um uf = record {
    same = λ s. let (r, s') = m s in same_continued r f s' uf ∙ um.same s;
  }

  continue-Atomic :
      (r : Result A) (f : A → Action B) (s : Session) (e : Error)
      → ((a : A) → Atomic (f a))
      → (continue r f s).0 ≡ err e
      → (continue r f s).1.committed ≡ s.committed
  continue-Atomic (ok a) f s e af h = (af a).unchanged s e h
  continue-Atomic (err x) f s e af h = refl

  -- What commits nothing may come first.
  pub Atomic-bind :
      (m : Action A) (f : A → Action B)
      → Uncommitting m
      → ((a : A) → Atomic (f a))
      → Atomic (m >>= f)
  unfolding ◌>>=◌
  Atomic-bind m f um af = record {
    unchanged = λ s e h. let (r, s') = m s in continue-Atomic r f s' e af h ∙ um.same s;
  }

  continue-Total :
      (r : Result A) (f : A → Action B) (s : Session) (e : Error)
      → ((a : A) → Total (f a))
      → (continue r f s).0 ≡ err e
      → r ≡ err e
  continue-Total (ok a) f s e tf h = absurd ((tf a).returns s e h)
  continue-Total (err x) f s e tf h = cc

  unchanged_continued :
      (r : Result A) (f : A → Action B) (s : Session) (e : Error)
      → ((a : A) → Total (f a))
      → (continue r f s).0 ≡ err e
      → (continue r f s).1.committed ≡ s.committed
  unchanged_continued (ok a) f s e tf h = absurd ((tf a).returns s e h)
  unchanged_continued (err x) f s e tf h = refl

  -- What does not raise may come after the transaction.
  pub Atomic-then :
      (m : Action A) (f : A → Action B) → Atomic m → ((a : A) → Total (f a)) → Atomic (m >>= f)
  unfolding ◌>>=◌
  Atomic-then m f am tf = record {
    unchanged = λ s e h.
        let (r, s') = m s in
        unchanged_continued r f s' e tf h ∙ am.unchanged s e (continue-Total r f s' e tf h);
  }

module _ {ℓ κ} {A : Type ℓ} {B : Type κ} where
  bind-Total :
      (r : Result A) (f : A → Action B) (s : Session) (e : Error)
      → ((a : A) → Total (f a))
      → (r ≡ err e → ⊥)
      → (continue r f s).0 ≡ err e
      → ⊥
  bind-Total (ok a) f s e tf first h = (tf a).returns s e h
  bind-Total (err x) f s e tf first h = first (cc)

  pub Total-bind :
      (m : Action A) (f : A → Action B) → Total m → ((a : A) → Total (f a)) → Total (m >>= f)
  unfolding ◌>>=◌
  Total-bind m f tm tf = record {
    returns = λ s e h. let (r, s') = m s in bind-Total r f s' e tf (tm.returns s e) h;
  }

pub ruleset uncommitting_rules = (
  Uncommitting-pure, Uncommitting-raise, Uncommitting-query, Uncommitting-or_raise, Uncommitting-if,
  Uncommitting-raise_if, Uncommitting-write, Uncommitting-utc_now, Uncommitting-uuid4,
  Uncommitting-bind,
)
