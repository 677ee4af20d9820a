-- ===== src/Repositories/Memberships.antt =====
-- app/repositories/membership_repository.py.
use madcamp_w2_decision_make.Prelude.{
  ℕ, Bool, Option, none, some, List, ◌∷◌, ◌==◌, ◌&&◌, if◌then◌else◌, is_some, find_by_id,
  update_by_id, where_rows, first_row,
}
use madcamp_w2_decision_make.Model.{
  Database, EventMembership, MembershipStatusType, is_member_pending,
}
use madcamp_w2_decision_make.Session.{
  Action, pure, raise_if, or_raise, integrity, invalid_request, query, write, uuid4, ◌>>=◌, ◌>>◌,
}
use madcamp_w2_decision_make.Repositories.Events.{is_membership_of, scalar_one_or_none}

abbrev pub membership_key : EventMembership → ℕ
membership_key m = m.id

unfoldable pub membership_of : ℕ → Database → Option EventMembership
membership_of membership_id d = find_by_id membership_key membership_id d.memberships

abbrev pub has_membership : ℕ → ℕ → Database → Bool
has_membership user_id event_id d =
    is_some (first_row (where_rows (is_membership_of user_id event_id) d.memberships))

abbrev pub add_membership : EventMembership → Database → Database
add_membership m d = record d { memberships = m ∷ d.memberships }

-- The flush of a new row: a fresh id, and the constraint uq_event_memberships_user_event.
unfoldable pub create_membership : ℕ → ℕ → MembershipStatusType → Option ℕ → Action EventMembership
create_membership user_id event_id status joined_at = do
  taken ← query (has_membership user_id event_id)
  raise_if taken (integrity "uq_event_memberships_user_event")
  id ← uuid4
  let membership : EventMembership = record {
    id = id;
    user_id = user_id;
    event_id = event_id;
    membership_status = status;
    joined_at = joined_at;
  }
  write (add_membership membership)
  pure membership

unfoldable pub get_by_user_and_event : ℕ → ℕ → Action (Option EventMembership)
get_by_user_and_event user_id event_id = do
  rows ← query (λ d. where_rows (is_membership_of user_id event_id) d.memberships)
  scalar_one_or_none rows

unfoldable pub get_by_id : ℕ → Action (Option EventMembership)
get_by_id membership_id = query (membership_of membership_id)

-- `db.refresh(membership)`
unfoldable pub refresh : EventMembership → Action EventMembership
refresh m = do row ← query (membership_of m.id); or_raise row invalid_request

abbrev pub is_pending_in : ℕ → EventMembership → Bool
is_pending_in event_id m = m.event_id == event_id && is_member_pending m.membership_status

unfoldable pub get_pending_by_event_id : ℕ → Action (List EventMembership)
get_pending_by_event_id event_id = query (λ d. where_rows (is_pending_in event_id) d.memberships)

abbrev pub is_in : ℕ → EventMembership → Bool
is_in event_id m = m.event_id == event_id

-- The order of the list (newest first) is that of the table.
unfoldable pub get_all_by_event_id : ℕ → Action (List EventMembership)
get_all_by_event_id event_id = query (λ d. where_rows (is_in event_id) d.memberships)

abbrev pub accept : ℕ → EventMembership → EventMembership
accept joined_at m = record m {
  membership_status = MembershipStatusType.accepted;
  joined_at = some joined_at;
}

abbrev pub reject : EventMembership → EventMembership
reject m = record m { membership_status = MembershipStatusType.rejected }

abbrev pub set_membership : ℕ → (EventMembership → EventMembership) → Database → Database
set_membership membership_id f d = record d {
  memberships = update_by_id membership_key membership_id f d.memberships;
}

-- UPDATE … WHERE id = :id AND status = 'PENDING' RETURNING …, on the row that has the id.
unfoldable pub update_if_pending :
    (EventMembership → EventMembership) → Option EventMembership → Action (Option EventMembership)
update_if_pending f none = pure none
update_if_pending f (some m) =
    if is_member_pending m.membership_status
    then write (set_membership m.id f) >> pure (some (f m))
    else pure none

unfoldable pub approve_membership_if_pending : ℕ → ℕ → Action (Option EventMembership)
unfolding update_if_pending
approve_membership_if_pending membership_id joined_at = do
  row ← query (membership_of membership_id)
  update_if_pending (accept joined_at) row

unfoldable pub reject_membership_if_pending : ℕ → Action (Option EventMembership)
unfolding update_if_pending
reject_membership_if_pending membership_id = do
  row ← query (membership_of membership_id)
  update_if_pending reject row
