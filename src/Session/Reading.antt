-- ===== src/Session/Reading.antt =====
-- Actions that only read: whether they return or raise, the session is as it was.
use madcamp_w2_decision_make.Prelude.{
  ◌≡◌, refl, ◌∙◌, sym, ap, Bool, true, false, Option, none, some,
}
use madcamp_w2_decision_make.Model.{Database}
use madcamp_w2_decision_make.Session.{
  Session, Error, Result, ok, err, Action, pure, raise, query, or_raise, raise_if, utc_now,
  continue, ◌>>=◌,
}

pub record Reading {ℓ} {A : Type ℓ} (m : Action A) : Type ℓ where
  pub same : (s : Session) → (m s).1 ≡ s

module _ {ℓ} {A : Type ℓ} where
  pub Reading-pure : (a : A) → Reading (pure a)
  unfolding pure
  Reading-pure a = record { same = λ s. refl }

  pub Reading-raise : (e : Error) → Reading (raise {A = A} e)
  unfolding raise
  Reading-raise e = record { same = λ s. refl }

  pub Reading-query : (f : Database → A) → Reading (query f)
  unfolding query
  Reading-query f = record { same = λ s. refl }

  pub Reading-or_raise : (o : Option A) (e : Error) → Reading (or_raise o e)
  unfolding or_raise
  Reading-or_raise none e = record { same = λ s. refl }
  Reading-or_raise (some a) e = record { same = λ s. refl }

pub Reading-raise_if : (b : Bool) (e : Error) → Reading (raise_if b e)
unfolding raise_if
Reading-raise_if true e = record { same = λ s. refl }
Reading-raise_if false e = record { same = λ s. refl }

pub Reading-utc_now : Reading utc_now
unfolding utc_now
Reading-utc_now = record { same = λ s. refl }

module _ {ℓ κ} {A : Type ℓ} {B : Type κ} where
  same_continued :
      (r : Result A) (f : A → Action B) (s : Session)
      → ((a : A) → Reading (f a))
      → (continue r f s).1 ≡ s
  same_continued (ok a) f s rf = (rf a).same s
  same_continued (err e) f s rf = refl

  pub Reading-bind :
      (m : Action A) (f : A → Action B) → Reading m → ((a : A) → Reading (f a)) → Reading (m >>= f)
  unfolding ◌>>=◌
  Reading-bind m f rm rf = record {
    same = λ s. let (r, s') = m s in same_continued r f s' rf ∙ rm.same s;
  }

  refused_continued :
      (r : Result A) (f : A → Action B) (s t : Session) (e : Error)
      → t ≡ s
      → (continue r f t).0 ≡ err e
      → ((a : A) → r ≡ ok a → (f a s).0 ≡ err e → (f a s).1 ≡ s)
      → (continue r f t).1 ≡ s
  refused_continued (ok a) f s t e same h k =
      ap (λ x. (f a x).1) same ∙ k a refl (sym (ap (λ x. (f a x).0) same) ∙ h)
  refused_continued (err x) f s t e same h k = same

  -- A run that raises, after a first part that only reads.
  pub after-Reading :
      (m : Action A) (f : A → Action B) (s : Session) (e : Error)
      → Reading m
      → ((m >>= f) s).0 ≡ err e
      → ((a : A) → m s ≡ (ok a, s) → (f a s).0 ≡ err e → (f a s).1 ≡ s)
      → ((m >>= f) s).1 ≡ s
  unfolding ◌>>=◌
  after-Reading m f s e rm h k =
      refused_continued (m s).0 f s (m s).1 e (rm.same s) h λ a p q. k a (λ i. (p i, rm.same s i)) q

pub ruleset reading_rules = (
  Reading-pure, Reading-raise, Reading-query, Reading-or_raise, Reading-raise_if, Reading-utc_now,
  Reading-bind,
)
