-- ===== src/Repositories/Events.antt =====
-- app/repositories/event_repository.py.
use madcamp_w2_decision_make.Prelude.{
  ℕ, String, Bool, Option, none, some, List, [], ◌∷◌, ◌==◌, ◌&&◌, str_eq, find_by_id, update_by_id,
  where_rows, first_row, count_rows, true, not, is_some, ltb, ◌||◌, leb,
}
use madcamp_w2_decision_make.Model.{
  Database, Event, EventMembership, MembershipStatusType, is_member_accepted,
}
use madcamp_w2_decision_make.Session.{
  Action, pure, raise, multiple_results, query, write, utc_now, ◌>>=◌, ◌>>◌, uuid4, raise_if,
  integrity,
}

-- SQLAlchemy's `Result.scalar_one_or_none`: at most one row, or MultipleResultsFound.
unfoldable pub scalar_one_or_none : {R : Type 0} → List R → Action (Option R)
scalar_one_or_none [] = pure none
scalar_one_or_none (r ∷ []) = pure (some r)
scalar_one_or_none (r ∷ r' ∷ rows) = raise multiple_results

abbrev pub event_key : Event → ℕ
event_key e = e.id

-- Reads through the database, for statements.
unfoldable pub event_of : ℕ → Database → Option Event
event_of event_id d = find_by_id event_key event_id d.events

-- EventRepository.get_by_id, and get_event_with_all_relations without the joined rows, which are
-- read from their tables where they are used.
unfoldable pub get_by_id : ℕ → Action (Option Event)
unfolding event_of
get_by_id event_id = query (event_of event_id)

abbrev pub has_code : String → Event → Bool
has_code code e = str_eq e.entrance_code code

-- The column is unique. `upper` is Python's `str.upper`.
unfoldable pub get_by_entrance_code : (String → String) → String → Action (Option Event)
get_by_entrance_code upper code =
    query (λ d. first_row (where_rows (has_code (upper code)) d.events))

abbrev pub is_accepted_in : ℕ → EventMembership → Bool
is_accepted_in event_id m = m.event_id == event_id && is_member_accepted m.membership_status

-- How many ACCEPTED members an event has.
unfoldable pub accepted_count : ℕ → Database → ℕ
accepted_count event_id d = count_rows (is_accepted_in event_id) d.memberships

unfoldable pub count_accepted_members : ℕ → Action ℕ
unfolding accepted_count
count_accepted_members event_id = query (accepted_count event_id)

abbrev pub is_membership_of : ℕ → ℕ → EventMembership → Bool
is_membership_of user_id event_id m = m.user_id == user_id && m.event_id == event_id

abbrev pub status_of : Option EventMembership → Option MembershipStatusType
status_of none = none
status_of (some m) = some m.membership_status

-- The status of the first membership of a user in an event, for statements.
abbrev pub membership_status_of : ℕ → ℕ → Database → Option MembershipStatusType
membership_status_of user_id event_id d =
    status_of (first_row (where_rows (is_membership_of user_id event_id) d.memberships))

unfoldable pub get_membership_status : ℕ → ℕ → Action (Option MembershipStatusType)
unfolding scalar_one_or_none
get_membership_status user_id event_id = do
  rows ← query (λ d. where_rows (is_membership_of user_id event_id) d.memberships)
  membership ← scalar_one_or_none rows
  pure (status_of membership)

abbrev pub set_event : ℕ → (Event → Event) → Database → Database
set_event event_id f d = record d { events = update_by_id event_key event_id f d.events }

-- EventRepository.update_event: `f` is what the service assigned to the event before the flush.
unfoldable pub update_event : (Event → Event) → Event → Action Event
update_event f event = do
  now ← utc_now
  write (set_event event.id (λ e. record (f e) { updated_at = some now }))
  pure (record (f event) { updated_at = some now })

-- EventRepository.exists_by_entrance_code. The code is compared as it is, not in upper case.
unfoldable pub exists_by_entrance_code : String → Action Bool
exists_by_entrance_code code = do
  rows ← query (λ d. where_rows (has_code code) d.events)
  event ← scalar_one_or_none rows
  pure (is_some event)

-- The constraints of the table `events`, other than that of the unique code. `is_code` is the
-- database's test of the format of a code.
abbrev pub percent_in_range : Option ℕ → Bool
percent_in_range none = true
percent_in_range (some percent) = leb 1 percent && leb percent 100

abbrev pub requires : Bool → Option ℕ → Bool
requires auto limit = not auto || is_some limit

abbrev pub is_allowed : (String → Bool) → Event → Bool
is_allowed is_code e =
    is_code e.entrance_code
    && (ltb 0 e.max_membership
        && (requires e.assumption_is_auto_approved_by_votes e.assumption_min_votes_required
            && (requires e.criteria_is_auto_approved_by_votes e.criteria_min_votes_required
                && (requires e.conclusion_is_auto_approved_by_votes
                      e.conclusion_approval_threshold_percent
                    && percent_in_range e.conclusion_approval_threshold_percent))))

abbrev pub add_event : Event → Database → Database
add_event e d = record d { events = e ∷ d.events }

-- EventRepository.create_event: `e` without its id.
unfoldable pub create_event : (String → Bool) → (ℕ → Event) → Action Event
create_event is_code e = do
  id ← uuid4
  raise_if (not (is_allowed is_code (e id))) (integrity "ck_events")
  taken ← query (λ d. is_some (first_row (where_rows (has_code (e id).entrance_code) d.events)))
  raise_if taken (integrity "uq_events_entrance_code")
  write (add_event (e id))
  pure (e id)
