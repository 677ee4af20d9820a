-- ===== src/Home/Service.antt =====
-- app/services/event/home_service.py. The users are an argument, since no operation of the model
-- writes their table.
use madcamp_w2_decision_make.Prelude.{
  ℕ, String, Bool, Option, none, some, List, [], ◌∷◌, ◌==◌, if◌then◌else◌, map, str_eq,
}
use madcamp_w2_decision_make.Model.{Event, EventStatusType, MembershipStatusType}
use madcamp_w2_decision_make.Session.{Action, pure, ◌>>=◌}
use madcamp_w2_decision_make.Repositories.EventLists.{
  get_events_by_user_id, get_participant_counts_by_event_ids, get_membership_statuses_by_event_ids,
}
use madcamp_w2_decision_make.Detail.Groups.{User, email_of}

pub record EventListItemResponse : Type 0 where
  pub id : ℕ
  pub decision_subject : String
  pub event_status : EventStatusType
  pub admin_id : ℕ
  pub admin_name : Option String
  pub admin_email : Option String
  pub entrance_code : String
  pub participant_count : ℕ
  pub is_admin : Bool
  pub membership_status : Option MembershipStatusType

-- `participant_counts.get(event.id, 0)`
unfoldable pub get_count : ℕ → List (ℕ × ℕ) → ℕ
get_count key [] = 0
get_count key ((k, n) ∷ rest) = let other = get_count key rest in if k == key then n else other

abbrev pub or_status :
    Option MembershipStatusType → Option MembershipStatusType → Option MembershipStatusType
or_status none x = x
or_status (some s) x = some s

-- `membership_statuses.get(event.id)`, in which a later entry has replaced an earlier one.
unfoldable pub get_status : ℕ → List (ℕ × MembershipStatusType) → Option MembershipStatusType
get_status key [] = none
get_status key ((k, s) ∷ rest) = or_status (get_status key rest) (if k == key then some s else none)

-- `event.admin.name if event.admin.name else event.admin.email`: an empty name counts as none.
abbrev pub name_or : Option String → Option String → Option String
name_or none email = email
name_or (some name) email = if str_eq name "" then email else some name

abbrev pub admin_name_of : Option User → Option String
admin_name_of none = none
admin_name_of (some u) = name_or u.name u.email

abbrev pub list_item :
    (ℕ → Option User) → ℕ → Event → ℕ → Option MembershipStatusType → EventListItemResponse
list_item users user_id e participant_count membership_status = record {
  id = e.id;
  decision_subject = e.decision_subject;
  event_status = e.event_status;
  admin_id = e.admin_id;
  admin_name = admin_name_of (users e.admin_id);
  admin_email = email_of (users e.admin_id);
  entrance_code = e.entrance_code;
  participant_count = participant_count;
  is_admin = e.admin_id == user_id;
  membership_status = membership_status;
}

-- The two queries and the loop, after the early return for no events.
unfoldable pub list_items : (ℕ → Option User) → ℕ → List Event → Action (List EventListItemResponse)
list_items users user_id [] = pure []
list_items users user_id (e ∷ es) = do
  let event_ids = map (λ x. x.id) (e ∷ es)
  participant_counts ← get_participant_counts_by_event_ids event_ids
  membership_statuses ← get_membership_statuses_by_event_ids user_id event_ids
  pure (
      map
        (λ x.
          list_item users user_id x (get_count x.id participant_counts)
            (get_status x.id membership_statuses))
        (e ∷ es))

unfoldable pub get_events_participated : (ℕ → Option User) → ℕ → Action (List EventListItemResponse)
get_events_participated users user_id = do
  events ← get_events_by_user_id user_id
  list_items users user_id events
