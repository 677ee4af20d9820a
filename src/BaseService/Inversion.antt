-- ===== src/BaseService/Inversion.antt =====
-- What is known once a check has passed.
use madcamp_w2_decision_make.Prelude.{inl, inr, ℕ, ◌≡◌, some, arith, Option-cases}
use madcamp_w2_decision_make.Model.{EventStatusType, Event}
use madcamp_w2_decision_make.Session.{Session, ◌>>=◌, ok}
use madcamp_w2_decision_make.Session.Atomic.{Uncommitting, uncommitting_rules}
use madcamp_w2_decision_make.Session.Runs.{Passes}
use madcamp_w2_decision_make.Repositories.Events
use madcamp_w2_decision_make.Repositories.Events.{event_of}
use madcamp_w2_decision_make.BaseService.{
  verify_admin, get_event_with_all_relations, validate_event_in_progress,
}

module _ (event_id : ℕ) (s : Session) where
  pub verify_admin-inv :
      (user_id : ℕ)
      → Passes
          (verify_admin event_id user_id)
          s
          (λ e. (event_of event_id s.working ≡ some e) × (e.admin_id ≡ user_id))
  unfolding verify_admin Events.get_by_id ◌>>=◌
  verify_admin-inv user_id e t h = elim (Option-cases (event_of event_id s.working)) [
    | inl missing ↦ absurd (ground arith)
    | inr (x, found) ↦ ground arith
  ]

  pub validate_event_in_progress-inv :
      Passes (validate_event_in_progress event_id) s (λ e.
        (event_of event_id s.working ≡ some e) × (e.event_status ≡ EventStatusType.in_progress))
  unfolding validate_event_in_progress get_event_with_all_relations Events.get_by_id ◌>>=◌
  validate_event_in_progress-inv e t h = elim (Option-cases (event_of event_id s.working)) [
    | inl missing ↦ absurd (ground arith)
    | inr (x, found) ↦ ground arith
  ]

-- The checks commit nothing.
pub verify_admin-Uncommitting :
    (event_id user_id : ℕ) → Uncommitting (verify_admin event_id user_id)
unfolding verify_admin Events.get_by_id
verify_admin-Uncommitting event_id user_id = search uncommitting_rules

pub validate_event_in_progress-Uncommitting :
    (event_id : ℕ) → Uncommitting (validate_event_in_progress event_id)
unfolding validate_event_in_progress get_event_with_all_relations Events.get_by_id
validate_event_in_progress-Uncommitting event_id = search uncommitting_rules

-- The admin passes.
pub verify_admin-ok :
    (event_id user_id : ℕ) (e : Event) (s : Session)
    → event_of event_id s.working ≡ some e
    → e.admin_id ≡ user_id
    → verify_admin event_id user_id s ≡ (ok e, s)
unfolding verify_admin Events.get_by_id ◌>>=◌
verify_admin-ok event_id user_id e s found admin = ground arith
