-- ===== src/Session/Runs.antt =====
-- Running an action that returns: one lemma to build such a run from the runs of the parts, and one
-- to take it apart.
use mathlib.Core.Path.{subst}
use madcamp_w2_decision_make.Prelude.{
  ◌⊎◌, inl, inr, Bool, true, false, Option, some, none, ◌≡◌, refl, sym, arith,
}
use madcamp_w2_decision_make.Model.{Database}
use madcamp_w2_decision_make.Session.{
  err, Error, query, or_raise, raise_if, Session, Result, ok, Action, pure, continue, ◌>>=◌, settle,
  transaction, utc_now, write,
}

-- The session after a commit of `d`.
abbrev pub landed : Database → Session → Session
landed d s = record s { working = d; committed = d }

module _ {ℓ κ} {A : Type ℓ} {B : Type κ} where
  pub bind-ok :
      (m : Action A) (f : A → Action B) {s t : Session} {a : A}
      → m s ≡ (ok a, t)
      → (m >>= f) s ≡ f a t
  unfolding ◌>>=◌
  bind-ok m f p = λ i. continue (p i).0 f (p i).1

  pub bind-query :
      (g : Database → A) (f : A → Action B) {s : Session} → (query g >>= f) s ≡ f (g s.working) s
  unfolding ◌>>=◌
  bind-query g f = refl

  pub bind-err :
      (m : Action A) (f : A → Action B) {s t : Session} {e : Error}
      → m s ≡ (err e, t)
      → (m >>= f) s ≡ (err e, t)
  unfolding ◌>>=◌
  bind-err m f p = λ i. continue (p i).0 f (p i).1

  continued :
      (r : Result A) (f : A → Action B) (t u : Session) (b : B)
      → continue r f t ≡ (ok b, u)
      → (a : A) × (r ≡ ok a) × (f a t ≡ (ok b, u))
  continued (ok a) f t u b h = (a, refl, h)
  continued (err e) f t u b h = absurd (ground arith)

  pub bind-inv :
      (m : Action A) (f : A → Action B) {s u : Session} {b : B}
      → (m >>= f) s ≡ (ok b, u)
      → (a : A) × (t : Session) × (m s ≡ (ok a, t)) × (f a t ≡ (ok b, u))
  unfolding ◌>>=◌
  bind-inv m f {s} {u} {b} h =
      let (a, e, k) = continued (m s).0 f (m s).1 u b h in (a, (m s).1, (λ i. (e i, (m s).1)), k)

pub utc_now-run : (s : Session) → utc_now s ≡ (ok s.clock, s)
unfolding utc_now
utc_now-run s = refl

pub write-run :
    (f : Database → Database) (s : Session)
    → write f s ≡ (ok tt, record s { working = f s.working })
unfolding write
write-run f s = refl

module _ {ℓ} {A : Type ℓ} where
  pub transaction-ok :
      (m : Action A) {s t : Session} {a : A}
      → m s ≡ (ok a, t)
      → transaction m s ≡ (ok a, landed t.working t)
  unfolding transaction
  transaction-ok m p = λ i. settle (p i).0 (p i).1

  settled :
      (r : Result A) (t u : Session) (a : A)
      → settle r t ≡ (ok a, u)
      → (r ≡ ok a) × (u ≡ landed t.working t)
  settled (ok x) t u a h = ((λ i. (h i).0), sym (λ i. (h i).1))
  settled (err e) t u a h = absurd (ground arith)

  pub transaction-inv :
      (m : Action A) {s u : Session} {a : A}
      → transaction m s ≡ (ok a, u)
      → (t : Session) × (m s ≡ (ok a, t)) × (u ≡ landed t.working t)
  unfolding transaction
  transaction-inv m {s} {u} {a} h =
      let (e, k) = settled (m s).0 (m s).1 u a h in ((m s).1, (λ i. (e i, (m s).1)), k)

  pub pure-inv : {a b : A} {s t : Session} → pure a s ≡ (ok b, t) → (a ≡ b) × (t ≡ s)
  unfolding pure
  pure-inv h = ground arith

-- A check: once it returns `a`, the session is as it was, and `P a` is known.
abbrev pub Passes {ℓ} : {A : Type ℓ} → Action A → Session → (A → Type 0) → Type ℓ
Passes {A = A} m s P = (a : A) (t : Session) → m s ≡ (ok a, t) → P a × (t ≡ s)

module _ {ℓ κ μ} {A : Type ℓ} {B : Type κ} {G : Type μ} where
  -- The rest of a run, after any first part.
  pub after :
      {s u : Session} {b : B} (m : Action A) (f : A → Action B)
      → (m >>= f) s ≡ (ok b, u)
      → ((a : A) (t : Session) → m s ≡ (ok a, t) → f a t ≡ (ok b, u) → G)
      → G
  after m f h k = let (a, t, p, q) = bind-inv m f h in k a t p q

  -- The rest of a run, after a check.
  pub after_check :
      {s u : Session} {b : B} (m : Action A) (f : A → Action B) (P : A → Type 0)
      → Passes m s P
      → (m >>= f) s ≡ (ok b, u)
      → ((a : A) → P a → f a s ≡ (ok b, u) → G)
      → G
  after_check {s} {u} {b} m f P inv h k =
      after m f h λ a t p q.
        let (known, same) = inv a t p in k a known (subst (λ x. f a x ≡ (ok b, u)) same q)

module _ {ℓ} {B : Type ℓ} {s u : Session} {b : B} where
  pub after_raise_if :
      (c : Bool) (e : Error) (k : Action B)
      → (raise_if c e >>= λ _. k) s ≡ (ok b, u)
      → (c ≡ false) × (k s ≡ (ok b, u))
  unfolding ◌>>=◌
  after_raise_if true e k h = absurd (ground arith)
  after_raise_if false e k h = (refl, h)

module _ {ℓ κ} {A : Type κ} {B : Type ℓ} {s u : Session} {b : B} where
  pub after_query :
      (f : Database → A) (k : A → Action B)
      → (query f >>= k) s ≡ (ok b, u)
      → k (f s.working) s ≡ (ok b, u)
  unfolding ◌>>=◌
  after_query f k h = h

  pub after_or_raise :
      (o : Option A) (e : Error) (k : A → Action B)
      → (or_raise o e >>= k) s ≡ (ok b, u)
      → (a : A) × (o ≡ some a) × (k a s ≡ (ok b, u))
  unfolding ◌>>=◌
  after_or_raise none e k h = absurd (ground arith)
  after_or_raise (some a) e k h = (a, refl, h)

pub raise_if-inv :
    (c : Bool) (e : Error) {s t : Session} {x : Unit {0}}
    → raise_if c e s ≡ (ok x, t)
    → (c ≡ false) × (t ≡ s)
unfolding raise_if ◌>>=◌
raise_if-inv true e h = absurd (ground arith)
raise_if-inv false e h = (refl, ground arith)

pub Result-cases {ℓ} :
    {A : Type ℓ} (r : Result A) → ((a : A) × (r ≡ ok a)) ⊎ ((e : Error) × (r ≡ err e))
Result-cases (ok a) = inl (a, refl)
Result-cases (err e) = inr (e, refl)

-- A result and a session, from the result alone.
pub result-run {ℓ} :
    {A : Type ℓ} (m : Action A) (s : Session) {a : A} → (m s).0 ≡ ok a → m s ≡ (ok a, (m s).1)
result-run m s h = λ i. (h i, (m s).1)
