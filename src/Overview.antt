-- ===== src/Overview.antt =====
-- app/services/event/overview_service.py. The users are an argument, since no operation of the model
-- writes their table; the admin of an event is one of them.
use madcamp_w2_decision_make.Prelude.{ℕ, String, Bool, Option, List, map, where_rows}
use madcamp_w2_decision_make.Model.{EventStatusType, MembershipStatusType, is_member_accepted}
use madcamp_w2_decision_make.Session.{
  Action, pure, query, or_raise, not_found, attribute, lookup, ◌>>=◌,
}
use madcamp_w2_decision_make.Repositories.Events
use madcamp_w2_decision_make.Repositories.Events.{count_accepted_members, get_membership_status}
use madcamp_w2_decision_make.Repositories.Votes.{is_option_in}
use madcamp_w2_decision_make.Detail.Groups.{User}

pub record AdminInfo : Type 0 where
  pub id : ℕ
  pub name : Option String
  pub email : String

-- The dictionary `event` is written out as its four entries.
pub record EventOverviewResponse : Type 0 where
  pub id : ℕ
  pub decision_subject : String
  pub event_status : EventStatusType
  pub entrance_code : String
  pub options : List (ℕ × String)
  pub admin : AdminInfo
  pub participant_count : ℕ
  pub membership_status : MembershipStatusType
  pub can_enter : Bool

-- The schema refuses an admin without an email.
unfoldable pub get_event_overview : (ℕ → Option User) → ℕ → ℕ → Action EventOverviewResponse
get_event_overview users event_id user_id = do
  found ← Events.get_by_id event_id
  event ← or_raise found (not_found "Event not found")
  options ← query (λ d. where_rows (is_option_in event_id) d.options)
  participant_count ← count_accepted_members event_id
  status ← get_membership_status user_id event_id
  membership_status ← or_raise status (not_found "Membership not found")
  admin ← or_raise (users event.admin_id) attribute
  email ← or_raise admin.email lookup
  pure record {
    id = event.id;
    decision_subject = event.decision_subject;
    event_status = event.event_status;
    entrance_code = event.entrance_code;
    options = map (λ o. (o.id, o.content)) options;
    admin = record { id = event.admin_id; name = admin.name; email = email };
    participant_count = participant_count;
    membership_status = membership_status;
    can_enter = is_member_accepted membership_status;
  }
