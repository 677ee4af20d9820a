-- ===== src/Outbox/Attempts.antt =====
-- How often the worker processes an event.
use mathlib.Core.Path.{subst}
use madcamp_w2_decision_make.Prelude.{
  ℕ, ◌≡◌, ◌∙◌, ◌≤◌, ◌<◌, ◌+◌, suc, ◌⊎◌, inl, inr, refl, sym, ap, arith, String, Bool-cases, leb,
  some, List, [], ◌∷◌, map, find_by_id, contains,
}
use madcamp_w2_decision_make.Model.{OutboxEvent, OutboxStatusType}
use madcamp_w2_decision_make.Session.{Session, Error, Result, ok, err, transaction}
use madcamp_w2_decision_make.Session.Runs.{transaction-inv, after_query}
use madcamp_w2_decision_make.Repositories.OutboxQueue.{
  claim_pending_events, outbox_of, outbox_key, lock, claimable,
}
use madcamp_w2_decision_make.Outbox.Claims.{claim-inv}
use madcamp_w2_decision_make.Outbox.Worker.{process_event}
use madcamp_w2_decision_make.Outbox.Processing.{Stands, settled, process_event-settled}

-- A claim writes the lock of an event and nothing else of it.
lock-find :
    (now : ℕ) (worker_id : String) (ids : List ℕ) (id : ℕ) (e : OutboxEvent)
    (rows : List OutboxEvent)
    → find_by_id outbox_key id rows ≡ some e
    → find_by_id outbox_key id (map (lock now worker_id ids) rows) ≡ some (lock now worker_id ids e)
unfolding find_by_id
lock-find now worker_id ids id e [] h = absurd (ground (arith, h))
lock-find now worker_id ids id e (x ∷ rows) h = elim (Bool-cases (contains x.id ids)) [
  | inl p ↦ rw p (ground (arith, h, p, lock-find now worker_id ids id e rows))
  | inr p ↦ rw p (ground (arith, h, p, lock-find now worker_id ids id e rows))
]

lock-row :
    (now : ℕ) (worker_id : String) (ids : List ℕ) (e : OutboxEvent)
    → ((lock now worker_id ids e).status ≡ e.status)
      × ((lock now worker_id ids e).attempts ≡ e.attempts)
lock-row now worker_id ids e = elim (Bool-cases (contains e.id ids)) [
  | inl p ↦ rw p (refl, refl)
  | inr p ↦ rw p (refl, refl)
]

claim-Stands :
    (batch_size now lock_ttl : ℕ) (worker_id : String) (id : ℕ) (e : OutboxEvent) (s t : Session)
    {es : List OutboxEvent}
    → transaction (claim_pending_events batch_size worker_id now lock_ttl) s ≡ (ok es, t)
    → Stands id e s
    → (e' : OutboxEvent) × Stands id e' t × (e'.status ≡ e.status) × (e'.attempts ≡ e.attempts)
unfolding claim_pending_events outbox_of
claim-Stands batch_size now lock_ttl worker_id id e s t h stands =
    let chosen = claimable batch_size now lock_ttl s.working in
    let ids = map outbox_key chosen in
    let (u, p, landing) = transaction-inv _ h in
    let (same_ids, locked) = claim-inv now worker_id chosen s (after_query _ _ p) in
    let found =
      ap (find_by_id outbox_key id) locked
      ∙ lock-find now worker_id ids id e s.working.outbox_events stands.0 in
    (
      lock now worker_id ids e,
      (
        ap (λ x. find_by_id outbox_key id x.working.outbox_events) landing ∙ found,
        ap (λ x. find_by_id outbox_key id x.committed.outbox_events) landing ∙ found,
      ),
      (lock-row now worker_id ids e).0,
      (lock-row now worker_id ids e).1,
    )

module _ (key_of : ℕ → String) (sha256 path_of : String → String) (describe : Error → String)
    (id : ℕ) where
  -- What happens around an event, from one session to another, with the number of times that the
  -- worker processes it: claims by any worker at any time; whatever else leaves the row of the event,
  -- as other requests, the passing of time and rollbacks do; and the processing of the event while it
  -- is PENDING, as a claimed event is.
  pub data Life : Session → Session → ℕ → Type 0 where
    nothing : {s : Session} → Life s s 0
    claimed :
        {s t u : Session} {n : ℕ} (batch_size now lock_ttl : ℕ) (worker_id : String)
        (es : List OutboxEvent)
        → transaction (claim_pending_events batch_size worker_id now lock_ttl) s ≡ (ok es, t)
        → Life t u n
        → Life s u n
    elsewhere :
        {s t u : Session} {n : ℕ}
        → ((e : OutboxEvent) → Stands id e s → Stands id e t)
        → Life t u n
        → Life s u n
    processed_once :
        {s t u : Session} {n : ℕ} (e : OutboxEvent)
        → Stands id e s
        → e.status ≡ OutboxStatusType.pending
        → process_event key_of sha256 path_of describe id s ≡ (ok tt, t)
        → Life t u n
        → Life s u (suc n)

  same_event : (e e' : OutboxEvent) (s : Session) → Stands id e s → Stands id e' s → e ≡ e'
  same_event e e' s h k = ground (arith, h.0, k.0)

  -- What a processing leaves: it is over, or there is one attempt more and still one to come.
  settled-cases :
      (r : Result (Unit {0})) (now : ℕ) (e : OutboxEvent)
      → ((settled describe r now e).status ≡ OutboxStatusType.pending → ⊥)
        ⊎ (((settled describe r now e).attempts ≡ e.attempts + 1)
            × ((settled describe r now e).attempts < 3))
  settled-cases (ok x) now e = inl λ q. ground (arith, q)
  settled-cases (err x) now e = elim (Bool-cases (leb 3 (e.attempts + 1))) [
    | inl p ↦ inl (rw p λ q. ground (arith, q))
    | inr p ↦ inr (rw p (refl, ground (arith, p)))
  ]

  after_processing :
      (e : OutboxEvent) (s t : Session)
      → Stands id e s
      → process_event key_of sha256 path_of describe id s ≡ (ok tt, t)
      → (e' : OutboxEvent) × Stands id e' t
        × ((e'.status ≡ OutboxStatusType.pending → ⊥)
            ⊎ ((e'.attempts ≡ e.attempts + 1) × (e'.attempts < 3)))
  after_processing e s t stands h =
      let (u, run, there) = process_event-settled key_of sha256 path_of describe id e s stands in
      (_, subst (Stands id _) (ap (λ x. x.1) (sym run ∙ h)) there, settled-cases _ _ e)

  -- An event that is not PENDING any more is not processed again.
  Life-ended :
      {s u : Session} {n : ℕ} (e : OutboxEvent)
      → Life s u n
      → Stands id e s
      → (e.status ≡ OutboxStatusType.pending → ⊥)
      → n ≡ 0
  Life-ended e nothing stands over = refl
  Life-ended e (claimed {s} {t} b now ttl w es run rest) stands over =
      let (e', there, status, attempts) = claim-Stands b now ttl w id e s t run stands in
      Life-ended e' rest there λ q. over (sym status ∙ q)
  Life-ended e (elsewhere keep rest) stands over = Life-ended e rest (keep e stands) over
  Life-ended e (processed_once {s} e' stands' waiting run rest) stands over =
      absurd (over (ap (λ x. x.status) (same_event e e' s stands stands') ∙ waiting))

  -- However often it is claimed and whatever its handler does, an event with fewer than three
  -- attempts, which is processed while it is PENDING and whose row all else leaves alone, is
  -- processed at most as often as attempts are left of three.
  pub Life-attempts :
      {s u : Session} {n : ℕ} (e : OutboxEvent)
      → Life s u n
      → Stands id e s
      → e.attempts < 3
      → n + e.attempts ≤ 3
  Life-attempts e nothing stands low = omega (arith, low)
  Life-attempts e (claimed {s} {t} b now ttl w es run rest) stands low =
      let (e', there, status, attempts) = claim-Stands b now ttl w id e s t run stands in
      omega (arith, attempts, Life-attempts e' rest there (omega (arith, attempts, low)))
  Life-attempts e (elsewhere keep rest) stands low = Life-attempts e rest (keep e stands) low
  Life-attempts e (processed_once {s} {t} e' stands' waiting run rest) stands low =
      let (e₁, there, next) = after_processing e s t stands run in
      elim next [
        | inl over ↦ omega (arith, Life-ended e₁ rest there over, low)
        | inr (more, left) ↦ omega (arith, more, Life-attempts e₁ rest there left)
      ]
