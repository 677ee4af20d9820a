-- ===== src/Setting/Status.antt =====
-- The life cycle of an event's status, and update_event_status against it.
use madcamp_w2_decision_make.Repositories.Events
use madcamp_w2_decision_make.Prelude.{
  ℕ, ◌≡◌, some, true, refl, arith, ap, key-find, ◌∙◌, find-update_self, if◌then◌else◌, ◌==◌,
  Bool-cases, inl, inr,
}
use madcamp_w2_decision_make.Model.{EventStatusType, Event, Database}
use madcamp_w2_decision_make.Setting.{
  is_among, valid_transitions, update_event_status, EventStatusUpdateResponse,
}
use madcamp_w2_decision_make.Session.{◌>>=◌, Session, ok, transaction, err, validation, forbidden}
use madcamp_w2_decision_make.Repositories.Events.{event_of, set_event, event_key}
use madcamp_w2_decision_make.Session.Runs.{
  after_check, after_raise_if, after, transaction-inv, pure-inv, landed,
}
use madcamp_w2_decision_make.BaseService.Inversion.{verify_admin-inv}
use madcamp_w2_decision_make.BaseService.{verify_admin}

-- The life cycle as the documentation of update_event_status lists it.
pub data Transition : EventStatusType → EventStatusType → Type 0 where
  start : Transition EventStatusType.not_started EventStatusType.in_progress
  pause : Transition EventStatusType.in_progress EventStatusType.paused
  resume : Transition EventStatusType.paused EventStatusType.in_progress
  finish : Transition EventStatusType.in_progress EventStatusType.finished
  finish_paused : Transition EventStatusType.paused EventStatusType.finished

-- The dictionary has the transitions of the life cycle.
is_among-Transition :
    (a b : EventStatusType) → is_among b (valid_transitions a) ≡ true → Transition a b
unfolding is_among valid_transitions
is_among-Transition EventStatusType.not_started EventStatusType.not_started h =
    absurd (ground arith)
is_among-Transition EventStatusType.not_started EventStatusType.in_progress h = Transition.start
is_among-Transition EventStatusType.not_started EventStatusType.paused h = absurd (ground arith)
is_among-Transition EventStatusType.not_started EventStatusType.finished h = absurd (ground arith)
is_among-Transition EventStatusType.in_progress EventStatusType.not_started h =
    absurd (ground arith)
is_among-Transition EventStatusType.in_progress EventStatusType.in_progress h =
    absurd (ground arith)
is_among-Transition EventStatusType.in_progress EventStatusType.paused h = Transition.pause
is_among-Transition EventStatusType.in_progress EventStatusType.finished h = Transition.finish
is_among-Transition EventStatusType.paused EventStatusType.not_started h = absurd (ground arith)
is_among-Transition EventStatusType.paused EventStatusType.in_progress h = Transition.resume
is_among-Transition EventStatusType.paused EventStatusType.paused h = absurd (ground arith)
is_among-Transition EventStatusType.paused EventStatusType.finished h = Transition.finish_paused
is_among-Transition EventStatusType.finished EventStatusType.not_started h = absurd (ground arith)
is_among-Transition EventStatusType.finished EventStatusType.in_progress h = absurd (ground arith)
is_among-Transition EventStatusType.finished EventStatusType.paused h = absurd (ground arith)
is_among-Transition EventStatusType.finished EventStatusType.finished h = absurd (ground arith)

Transition-is_among :
    (a b : EventStatusType) → Transition a b → is_among b (valid_transitions a) ≡ true
unfolding is_among valid_transitions
Transition-is_among a b Transition.start = refl
Transition-is_among a b Transition.pause = refl
Transition-is_among a b Transition.resume = refl
Transition-is_among a b Transition.finish = refl
Transition-is_among a b Transition.finish_paused = refl

abbrev pub with_status : EventStatusType → ℕ → Event → Event
with_status status now e = record (record e { event_status = status }) { updated_at = some now }

update_event-inv :
    (st : EventStatusType) (e : Event) (s : Session) {t : Session} {r : Event}
    → Events.update_event (λ x. record x { event_status = st }) e s ≡ (ok r, t)
    → (r ≡ with_status st s.clock e)
      × (t.working ≡ set_event e.id (with_status st s.clock) s.working)
unfolding Events.update_event ◌>>=◌
update_event-inv st e s h = ground arith

found_changed :
    (i : ℕ) (f : Event → Event) (e : Event) (d : Database)
    → event_of i d ≡ some e
    → (f e).id ≡ e.id
    → event_of i (set_event e.id f d) ≡ some (f e)
unfolding event_of
found_changed i f e d h keep =
    let same = key-find event_key i e d.events h in
    ground (arith, same, keep, find-update_self event_key i f e d.events)

module _ (event_id user_id : ℕ) (new_status : EventStatusType) (s : Session) where
  -- A change of status that returns was asked by the event's admin and follows a transition of the
  -- documented life cycle; the event then has the new status, the response reports it, and it is
  -- committed.
  pub update_event_status-inv :
      {r : EventStatusUpdateResponse} {t : Session}
      → update_event_status event_id new_status user_id s ≡ (ok r, t)
      → (e : Event) × (event_of event_id s.working ≡ some e)
        × (e.admin_id ≡ user_id)
        × Transition e.event_status new_status
        × (event_of event_id t.working ≡ some (with_status new_status s.clock e))
        × (r.status ≡ new_status)
        × (t.committed ≡ t.working)
  unfolding update_event_status event_of
  update_event_status-inv {r} {t} h =
      after_check _ _ _ (verify_admin-inv event_id s user_id) h λ e p₁ h₁.
        let (valid, h₂) = after_raise_if _ _ _ h₁ in
        after _ _ h₂ λ x s₃ p₃ h₃.
          let (s₄, p₄, landing) = transaction-inv _ p₃ in
          let (changed, written) = update_event-inv new_status e s p₄ in
          let (result, ending) = pure-inv h₃ in
          let at : t.working ≡ set_event e.id (with_status new_status s.clock) s.working =
            cc (ending, landing, written) in
          (
            e,
            p₁.0,
            p₁.1,
            is_among-Transition _ _ (ground arith),
            ap (event_of event_id) at ∙ found_changed event_id _ e s.working p₁.0 refl,
            cc (result, changed),
            cc (ending, landing),
          )

  -- A finished event keeps its status: every request to change it is refused, as forbidden or as an
  -- invalid transition, and leaves the session as it was.
  pub update_event_status-finished :
      (e : Event)
      → event_of event_id s.working ≡ some e
      → e.event_status ≡ EventStatusType.finished
      → update_event_status event_id new_status user_id s ≡ (
        err (
            if e.admin_id == user_id
            then validation "Invalid status transition"
            else forbidden "Forbidden"),
        s,
      )
  unfolding update_event_status verify_admin Events.get_by_id valid_transitions is_among ◌>>=◌
  update_event_status-finished e found done = elim (Bool-cases (e.admin_id == user_id)) [
    | inl own ↦ rw own (ground (arith, found, done, own))
    | inr other ↦ rw other (ground (arith, found, done, other))
  ]

  -- The admin's change along a transition of the life cycle returns and is committed.
  pub update_event_status-ok :
      (e : Event)
      → event_of event_id s.working ≡ some e
      → e.admin_id ≡ user_id
      → Transition e.event_status new_status
      → update_event_status event_id new_status user_id s ≡ (
        ok (record { id = e.id; status = new_status; updated_at = some s.clock }),
        landed (set_event e.id (with_status new_status s.clock) s.working) s,
      )
  unfolding update_event_status transaction Events.update_event verify_admin Events.get_by_id ◌>>=◌
  update_event_status-ok e found admin step =
      let valid = Transition-is_among _ _ step in ground (arith, valid, found, admin)
