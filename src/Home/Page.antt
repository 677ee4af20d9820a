-- ===== src/Home/Page.antt =====
-- The home page and a direct reading of the tables.
use madcamp_w2_decision_make.Prelude.{
  ℕ, true, List, [], ◌∷◌, ◌≡◌, ◌≤◌, ◌∙◌, refl, Option, map, where_rows, contains, length, All-map,
  map-All, contains-keys, ◌==◌,
}
use madcamp_w2_decision_make.Model.{Database, Event}
use madcamp_w2_decision_make.Session.{Session, ok, pure}
use madcamp_w2_decision_make.Session.Runs.{bind-query}
use madcamp_w2_decision_make.Repositories.Events.{
  accepted_count, is_membership_of, membership_status_of,
}
use madcamp_w2_decision_make.Repositories.EventLists.{
  events_of_user, get_events_by_user_id, get_participant_counts_by_event_ids,
  get_membership_statuses_by_event_ids, participant_counts, membership_statuses,
}
use madcamp_w2_decision_make.Detail.Groups.{User, email_of}
use madcamp_w2_decision_make.Home.Service.{
  get_events_participated, list_items, list_item, EventListItemResponse, get_count, get_status,
  admin_name_of,
}
use madcamp_w2_decision_make.Home.Dictionaries.{
  get_count-participant_counts, get_status-membership_statuses,
}

-- No user has two memberships in one event.
abbrev pub OneMembership : ℕ → Database → Type 0
OneMembership user_id d =
    (k : ℕ) → length (where_rows (is_membership_of user_id k) d.memberships) ≤ 1

-- An event as the home page shows it: the number of its accepted members, whether the user is its
-- admin, and the status of the user's membership.
abbrev pub listed : (ℕ → Option User) → ℕ → Database → Event → EventListItemResponse
listed users user_id d e = record {
  id = e.id;
  decision_subject = e.decision_subject;
  event_status = e.event_status;
  admin_id = e.admin_id;
  admin_name = admin_name_of (users e.admin_id);
  admin_email = email_of (users e.admin_id);
  entrance_code = e.entrance_code;
  participant_count = accepted_count e.id d;
  is_admin = e.admin_id == user_id;
  membership_status = membership_status_of user_id e.id d;
}

item-listed :
    (users : ℕ → Option User) (user_id : ℕ) (ids : List ℕ) (d : Database) (e : Event)
    → OneMembership user_id d
    → contains e.id ids ≡ true
    → list_item users user_id e
        (get_count e.id (participant_counts ids d))
        (get_status e.id (membership_statuses user_id ids d))
      ≡ listed users user_id d e
item-listed users user_id ids d e one h = λ i.
    list_item users user_id e (get_count-participant_counts e.id ids d h i)
      (get_status-membership_statuses user_id e.id ids d h (one e.id) i)

list_items-run :
    (users : ℕ → Option User) (user_id : ℕ) (es : List Event) (s : Session)
    → OneMembership user_id s.working
    → list_items users user_id es s ≡ (ok (map (listed users user_id s.working) es), s)
unfolding list_items get_participant_counts_by_event_ids get_membership_statuses_by_event_ids pure
list_items-run users user_id [] s one = refl
list_items-run users user_id (e ∷ es) s one = bind-query _ _ ∙ bind-query _ _ ∙ (λ i. (
  ok (
      map-All _ (listed users user_id s.working) (e ∷ es)
        (All-map _ _ (e ∷ es)
          (λ x. item-listed users user_id (map (λ y. y.id) (e ∷ es)) s.working x one)
          (contains-keys (λ y. y.id) (e ∷ es)))
        i),
  s,
))

-- For a user with at most one membership in each event, get_events_participated returns the events
-- in which the user has one, each with its number of accepted members and the status of that
-- membership, and changes nothing.
pub get_events_participated-run :
    (users : ℕ → Option User) (user_id : ℕ) (s : Session)
    → OneMembership user_id s.working
    → get_events_participated users user_id s
      ≡ (ok (map (listed users user_id s.working) (events_of_user user_id s.working)), s)
unfolding get_events_participated get_events_by_user_id
get_events_participated-run users user_id s one =
    bind-query _ _ ∙ list_items-run users user_id (events_of_user user_id s.working) s one
