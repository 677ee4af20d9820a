-- ===== src/Setting.antt =====
-- app/services/event/setting_service.py: the state machine of an event's status, and its page.
pub mod Status
pub mod Page
use madcamp_w2_decision_make.Repositories.Events
use madcamp_w2_decision_make.Prelude.{ℕ, Option, Bool, List, true, false, ◌∷◌, [], ◌||◌, not}
use madcamp_w2_decision_make.Model.{EventStatusType}
use madcamp_w2_decision_make.Session.{Action, ◌>>=◌, ◌>>◌, raise_if, validation, transaction, pure}
use madcamp_w2_decision_make.BaseService.{verify_admin}

-- The dictionary `valid_transitions`.
unfoldable pub valid_transitions : EventStatusType → List EventStatusType
valid_transitions EventStatusType.not_started = EventStatusType.in_progress ∷ []
valid_transitions EventStatusType.in_progress =
    EventStatusType.paused ∷ EventStatusType.finished ∷ []
valid_transitions EventStatusType.paused =
    EventStatusType.in_progress ∷ EventStatusType.finished ∷ []
valid_transitions EventStatusType.finished = []

abbrev pub status_eq : EventStatusType → EventStatusType → Bool
status_eq EventStatusType.not_started EventStatusType.not_started = true
status_eq EventStatusType.in_progress EventStatusType.in_progress = true
status_eq EventStatusType.paused EventStatusType.paused = true
status_eq EventStatusType.finished EventStatusType.finished = true
status_eq _ _ = false

-- `status in statuses`
unfoldable pub is_among : EventStatusType → List EventStatusType → Bool
is_among status [] = false
is_among status (x ∷ xs) = status_eq status x || is_among status xs

pub record EventStatusUpdateResponse : Type 0 where
  pub id : ℕ
  pub status : EventStatusType
  pub updated_at : Option ℕ

-- `updated_at` is assigned again by the repository.
unfoldable pub update_event_status : ℕ → EventStatusType → ℕ → Action EventStatusUpdateResponse
update_event_status event_id new_status user_id = do
  event ← verify_admin event_id user_id
  raise_if (not (is_among new_status (valid_transitions event.event_status)))
      (validation "Invalid status transition")
  result ← transaction (Events.update_event (λ e. record e { event_status = new_status }) event)
  pure (record { id = result.id; status = result.event_status; updated_at = result.updated_at })
