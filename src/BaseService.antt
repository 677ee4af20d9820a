-- ===== src/BaseService.antt =====
-- app/services/event/base.py: the checks that the event services share. The texts of `detail` are
-- left out of the errors.
pub mod Inversion
use madcamp_w2_decision_make.Prelude.{ℕ, String, Bool, false, Option, none, some, ◌==◌, not}
use madcamp_w2_decision_make.Model.{
  Event, MembershipStatusType, is_in_progress, is_not_started, is_finished, is_member_accepted,
}
use madcamp_w2_decision_make.Session.{
  Action, pure, or_raise, raise_if, not_found, forbidden, validation, ◌>>=◌, ◌>>◌,
}
use madcamp_w2_decision_make.Repositories.Events

unfoldable pub verify_admin : ℕ → ℕ → Action Event
verify_admin event_id user_id = do
  found ← Events.get_by_id event_id
  event ← or_raise found (not_found "Event not found")
  raise_if (not (event.admin_id == user_id)) (forbidden "Forbidden")
  pure event

unfoldable pub get_event_with_all_relations : ℕ → Action Event
get_event_with_all_relations event_id = do
  found ← Events.get_by_id event_id
  or_raise found (not_found "Event not found")

abbrev pub is_accepted_status : Option MembershipStatusType → Bool
is_accepted_status none = false
is_accepted_status (some status) = is_member_accepted status

unfoldable pub validate_membership_accepted : ℕ → ℕ → Action (Unit {0})
validate_membership_accepted user_id event_id = do
  status ← Events.get_membership_status user_id event_id
  raise_if (not (is_accepted_status status)) (forbidden "Forbidden")

unfoldable pub validate_event_in_progress : ℕ → Action Event
validate_event_in_progress event_id = do
  event ← get_event_with_all_relations event_id
  raise_if (not (is_in_progress event.event_status)) (validation "Event not in progress")
  pure event

unfoldable pub validate_event_not_started : Event → String → Action (Unit {0})
validate_event_not_started event message =
    raise_if (not (is_not_started event.event_status)) (validation message)

unfoldable pub validate_event_not_finished : Event → String → Action (Unit {0})
validate_event_not_finished event message =
    raise_if (is_finished event.event_status) (validation message)
