-- ===== src/Repositories/EventLists.antt =====
-- app/repositories/event_repository.py: the queries of the home page. A dictionary is a list of
-- its entries.
use madcamp_w2_decision_make.Prelude.{
  ℕ, Bool, List, [], ◌∷◌, ◌==◌, ◌&&◌, ◌+◌, if◌then◌else◌, where_rows, first_row, is_some, contains,
  map,
}
use madcamp_w2_decision_make.Model.{
  Database, Event, EventMembership, MembershipStatusType, is_member_accepted,
}
use madcamp_w2_decision_make.Session.{Action, query}
use madcamp_w2_decision_make.Repositories.Events.{is_membership_of}

-- The DISTINCT events that the join finds: those with a membership of the user.
abbrev pub has_member : ℕ → Database → Event → Bool
has_member user_id d e =
    is_some (first_row (where_rows (is_membership_of user_id e.id) d.memberships))

abbrev pub events_of_user : ℕ → Database → List Event
events_of_user user_id d = where_rows (has_member user_id d) d.events

unfoldable pub get_events_by_user_id : ℕ → Action (List Event)
get_events_by_user_id user_id = query (events_of_user user_id)

-- GROUP BY event_id with COUNT: one row more for an event.
unfoldable pub count_one : ℕ → List (ℕ × ℕ) → List (ℕ × ℕ)
count_one event_id [] = (event_id, 1) ∷ []
count_one event_id ((k, n) ∷ rest) =
    let others = count_one event_id rest in
    if k == event_id then (k, n + 1) ∷ rest else (k, n) ∷ others

unfoldable pub group_counts : List EventMembership → List (ℕ × ℕ)
group_counts [] = []
group_counts (m ∷ ms) = count_one m.event_id (group_counts ms)

abbrev pub is_accepted_among : List ℕ → EventMembership → Bool
is_accepted_among event_ids m =
    contains m.event_id event_ids && is_member_accepted m.membership_status

unfoldable pub participant_counts : List ℕ → Database → List (ℕ × ℕ)
participant_counts [] d = []
participant_counts (id ∷ ids) d =
    group_counts (where_rows (is_accepted_among (id ∷ ids)) d.memberships)

unfoldable pub get_participant_counts_by_event_ids : List ℕ → Action (List (ℕ × ℕ))
unfolding participant_counts
get_participant_counts_by_event_ids event_ids = query (participant_counts event_ids)

abbrev pub is_own_among : ℕ → List ℕ → EventMembership → Bool
is_own_among user_id event_ids m = m.user_id == user_id && contains m.event_id event_ids

-- The entries in the order in which they are put into the dictionary.
unfoldable pub membership_statuses : ℕ → List ℕ → Database → List (ℕ × MembershipStatusType)
membership_statuses user_id [] d = []
membership_statuses user_id (id ∷ ids) d =
    map (λ m. (m.event_id, m.membership_status))
      (where_rows (is_own_among user_id (id ∷ ids)) d.memberships)

unfoldable pub get_membership_statuses_by_event_ids :
    ℕ → List ℕ → Action (List (ℕ × MembershipStatusType))
unfolding membership_statuses
get_membership_statuses_by_event_ids user_id event_ids =
    query (membership_statuses user_id event_ids)
