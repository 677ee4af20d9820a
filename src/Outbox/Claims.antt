-- ===== src/Outbox/Claims.antt =====
-- The claim of events by a worker.
use mathlib.Core.Path.{subst}
use madcamp_w2_decision_make.Prelude.{
  ℕ, String, ◌≡◌, ◌∙◌, ◌≤◌, ◌+◌, refl, List, [], ◌∷◌, map, contains, length, true, false, All, ap,
  sym, inl, suc, All-take, Bool-cases, arith, Option-cases, order_by_asc-All, inr, All-map, All-zip,
  key-find, where_rows-All, All-where_rows, length-take,
}
use madcamp_w2_decision_make.Model.{OutboxEvent, Database}
use madcamp_w2_decision_make.Session.{Session, ok, write, ◌>>=◌}
use madcamp_w2_decision_make.Repositories.OutboxQueue.{
  outbox_key, claimable, is_claimable, lock, claim, claim_pending_events, refresh_each,
  refresh_event, outbox_of,
}
use madcamp_w2_decision_make.Session.Runs.{Passes, pure-inv, after_check, after_query, after}

refresh_event-inv : (id : ℕ) (s : Session) → Passes (refresh_event id) s (λ e. e.id ≡ id)
unfolding refresh_event outbox_of ◌>>=◌
refresh_event-inv id s e t h = elim (Option-cases (outbox_of id s.working)) [
  | inl missing ↦ absurd (ground (arith, missing))
  | inr (x, found) ↦ ground (arith, found, key-find outbox_key id x s.working.outbox_events found)
]

refresh_each-inv :
    (chosen : List OutboxEvent) (s : Session)
    → Passes (refresh_each chosen) s (λ es. map outbox_key es ≡ map outbox_key chosen)
unfolding refresh_each
refresh_each-inv [] s es t h =
    let (result, same) = pure-inv h in (ap (map outbox_key) (sym result), same)
refresh_each-inv (e ∷ rest) s es t h = after_check _ _ _ (refresh_event-inv e.id s) h λ x at h₁.
    after_check _ _ _ (refresh_each-inv rest s) h₁ λ xs ats h₂.
      let (result, same) = pure-inv h₂ in
      (ap (map outbox_key) (sym result) ∙ (λ i. at i ∷ ats i), same)

lock-nothing :
    (now : ℕ) (worker_id : String) (rows : List OutboxEvent)
    → rows ≡ map (lock now worker_id []) rows
lock-nothing now worker_id [] = refl
lock-nothing now worker_id (e ∷ rows) = ap (λ l. e ∷ l) (lock-nothing now worker_id rows)

-- What a claim returns and what it writes.
pub claim-inv :
    (now : ℕ) (worker_id : String) (chosen : List OutboxEvent) (s : Session) {es : List OutboxEvent}
    {t : Session}
    → claim now worker_id chosen s ≡ (ok es, t)
    → (map outbox_key es ≡ map outbox_key chosen)
      × (t.working.outbox_events
          ≡ map (lock now worker_id (map outbox_key chosen)) s.working.outbox_events)
unfolding claim write
claim-inv now worker_id [] s h =
    let (result, same) = pure-inv h in
    (
      ap (map outbox_key) (sym result),
      ap (λ x. x.working.outbox_events) same ∙ lock-nothing now worker_id s.working.outbox_events,
    )
claim-inv now worker_id (e ∷ rest) s h = after _ _ h λ u s₁ p h₁.
    let (ids, same) = refresh_each-inv (e ∷ rest) s₁ _ _ h₁ in
    (ids, ap (λ x. x.working.outbox_events) same ∙ ap (λ x. x.1.working.outbox_events) (sym p))

module _ (now : ℕ) (worker_id : String) (ids : List ℕ) (now' lock_ttl : ℕ) where
  -- A locked event is not claimable before its lock runs out.
  lock-claimable :
      (e : OutboxEvent)
      → now' ≤ now + lock_ttl
      → is_claimable now' lock_ttl (lock now worker_id ids e) ≡ true
      → contains (lock now worker_id ids e).id ids ≡ false
  lock-claimable e early h = elim (Bool-cases (contains e.id ids)) [
    | inl p ↦ absurd (ground (arith, p, h, early))
    | inr p ↦ rw p p
  ]

  locked-claimable :
      (rows : List OutboxEvent)
      → now' ≤ now + lock_ttl
      → All
          (λ e. is_claimable now' lock_ttl e ≡ true → contains e.id ids ≡ false)
          (map (lock now worker_id ids) rows)
  locked-claimable [] early = tt
  locked-claimable (e ∷ rows) early = (lock-claimable e early, locked-claimable rows early)

  -- None of the locked events is chosen again.
  claimable-others :
      (batch_size : ℕ) (d : Database) (rows : List OutboxEvent)
      → now' ≤ now + lock_ttl
      → d.outbox_events ≡ map (lock now worker_id ids) rows
      → All (λ e. contains e.id ids ≡ false) (claimable batch_size now' lock_ttl d)
  claimable-others batch_size d rows early at =
      All-take (λ (e : OutboxEvent). e.created_at) _ batch_size _
        (order_by_asc-All (λ (e : OutboxEvent). e.created_at) _ _
          (All-map _ _ _ (λ e k. k.1 k.0)
            (All-zip _ _ _ (where_rows-All (is_claimable now' lock_ttl) d.outbox_events) (
              All-where_rows _ (is_claimable now' lock_ttl) d.outbox_events
                (subst (All _) (sym at) (locked-claimable rows early))))))

All-ids :
    (P : ℕ → Type 0) (xs ys : List OutboxEvent)
    → map outbox_key xs ≡ map outbox_key ys
    → All (λ e. P e.id) ys
    → All (λ e. P e.id) xs
All-ids P xs ys h k = of_ids xs (subst (All P) (sym h) (to_ids ys k))
  where
    to_ids : (l : List OutboxEvent) → All (λ e. P e.id) l → All P (map outbox_key l)
    to_ids [] k = tt
    to_ids (e ∷ l) (p, k) = (p, to_ids l k)

    of_ids : (l : List OutboxEvent) → All P (map outbox_key l) → All (λ e. P e.id) l
    of_ids [] k = tt
    of_ids (e ∷ l) (p, k) = (p, of_ids l k)

length-ids :
    (xs ys : List OutboxEvent) → map outbox_key xs ≡ map outbox_key ys → length xs ≡ length ys
length-ids xs ys h = sym (ids_length xs) ∙ ap length h ∙ ids_length ys
  where
    ids_length : (l : List OutboxEvent) → length (map outbox_key l) ≡ length l
    ids_length [] = refl
    ids_length (e ∷ l) = ap suc (ids_length l)

-- A claim returns no more events than the batch size, and a second claim, by whatever worker and
-- before the locks of the first have run out, returns none of them.
pub claim_pending_events-exclusive :
    (batch_size batch_size' : ℕ) (worker_id worker_id' : String) (now now' lock_ttl : ℕ)
    (s : Session) {es es' : List OutboxEvent} {t u : Session}
    → claim_pending_events batch_size worker_id now lock_ttl s ≡ (ok es, t)
    → claim_pending_events batch_size' worker_id' now' lock_ttl t ≡ (ok es', u)
    → now' ≤ now + lock_ttl
    → (length es ≤ batch_size) × All (λ e. contains e.id (map outbox_key es) ≡ false) es'
unfolding claim_pending_events
claim_pending_events-exclusive b b' w w' now now' ttl s {es} {es'} {t} {u} h h' early =
    let chosen = claimable b now ttl s.working in
    let (ids, locked) = claim-inv now w chosen s (after_query _ _ h) in
    let (ids', _) = claim-inv now' w' (claimable b' now' ttl t.working) t (after_query _ _ h') in
    (
      subst (λ n. n ≤ b) (sym (length-ids es chosen ids)) (length-take b _),
      subst (λ l. All (λ (e : OutboxEvent). contains e.id l ≡ false) es') (sym ids)
          (All-ids (λ i. contains i (map outbox_key chosen) ≡ false) es' _ ids'
            (claimable-others now w (map outbox_key chosen) now' ttl b' t.working _ early locked)),
    )
