-- ===== src/Session/Leaves.antt =====
-- Actions that leave a part of the working database as it was: one rule for each way to build an
-- action that does not roll back.
-- The action leaves the part `f` of what its queries see.
use madcamp_w2_decision_make.Model.{Database}
use madcamp_w2_decision_make.Session.{
  raise, utc_now, uuid4, write, ◌>>=◌, Action, Result, or_raise, pure, query, Error, use_id,
  Session, continue, ok, err,
}
use madcamp_w2_decision_make.Prelude.{
  refl, false, true, Bool, ◌≡◌, Option, if◌then◌else◌, ◌∙◌, some, none, sym,
}

pub record Leaves {ℓ κ} {A : Type ℓ} {X : Type κ} (f : Database → X) (m : Action A)
    : Type (ℓ ⊔ κ) where
  pub same : (s : Session) → f (m s).1.working ≡ f s.working

module _ {ℓ κ} {A : Type ℓ} {X : Type κ} {f : Database → X} where
  pub Leaves-pure : (a : A) → Leaves f (pure a)
  unfolding pure
  Leaves-pure a = record { same = λ s. refl }

  pub Leaves-raise : (e : Error) → Leaves f (raise {A = A} e)
  unfolding raise
  Leaves-raise e = record { same = λ s. refl }

  pub Leaves-query : (g : Database → A) → Leaves f (query g)
  unfolding query
  Leaves-query g = record { same = λ s. refl }

  pub Leaves-or_raise : (o : Option A) (e : Error) → Leaves f (or_raise o e)
  unfolding or_raise
  Leaves-or_raise none e = record { same = λ s. refl }
  Leaves-or_raise (some a) e = record { same = λ s. refl }

  pub Leaves-if :
      (b : Bool) (m n : Action A) → Leaves f m → Leaves f n → Leaves f (if b then m else n)
  Leaves-if true m n lm ln = lm
  Leaves-if false m n lm ln = ln

module _ {κ} {X : Type κ} {f : Database → X} where
  pub Leaves-write :
      (g : Database → Database) → ((d : Database) → f (g d) ≡ f d) → Leaves f (write g)
  unfolding write
  Leaves-write g lg = record { same = λ s. lg s.working }

  pub Leaves-utc_now : Leaves f utc_now
  unfolding utc_now
  Leaves-utc_now = record { same = λ s. refl }

  pub Leaves-uuid4 : ((d : Database) → f (use_id d) ≡ f d) → Leaves f uuid4
  unfolding uuid4
  Leaves-uuid4 lg = record { same = λ s. lg s.working }

module _ {ℓ κ μ} {A : Type ℓ} {B : Type κ} {X : Type μ} {f : Database → X} where
  continued :
      (r : Result A) (k : A → Action B) (s : Session)
      → ((a : A) → Leaves f (k a))
      → f (continue r k s).1.working ≡ f s.working
  continued (ok a) k s lk = (lk a).same s
  continued (err e) k s lk = refl

  pub Leaves-bind :
      (m : Action A) (k : A → Action B)
      → Leaves f m
      → ((a : A) → Leaves f (k a))
      → Leaves f (m >>= k)
  unfolding ◌>>=◌
  Leaves-bind m k lm lk = record {
    same = λ s. let (r, s') = m s in continued r k s' lk ∙ lm.same s;
  }

-- The part after a run.
pub Leaves-run {ℓ κ} :
    {A : Type ℓ} {X : Type κ} (f : Database → X) (m : Action A)
    → Leaves f m
    → {s t : Session} {r : Result A} → m s ≡ (r, t)
    → f t.working ≡ f s.working
Leaves-run f m lm {s} p = sym (λ i. f (p i).1.working) ∙ lm.same s
