-- ===== src/Home/Dictionaries.antt =====
-- The dictionaries of the home page against one query for each event.
use madcamp_w2_decision_make.Prelude.{
  ℕ, true, none, List, [], ◌∷◌, ◌≡◌, ◌≤◌, ◌∙◌, refl, ◌==◌, ◌+◌, if◌then◌else◌, map, where_rows,
  count_rows, first_row, contains, length, Bool-cases, inl, inr, arith,
}
use madcamp_w2_decision_make.Model.{Database, EventMembership}
use madcamp_w2_decision_make.Repositories.Events.{
  is_accepted_in, accepted_count, is_membership_of, status_of, membership_status_of,
}
use madcamp_w2_decision_make.Repositories.EventLists.{
  count_one, group_counts, is_accepted_among, participant_counts, is_own_among, membership_statuses,
}
use madcamp_w2_decision_make.Home.Service.{get_count, get_status}

get_count-count_one :
    (k id : ℕ) (m : List (ℕ × ℕ))
    → get_count k (count_one id m) ≡ get_count k m + (if id == k then 1 else 0)
unfolding get_count count_one
get_count-count_one k id [] = ground arith
get_count-count_one k id ((j, n) ∷ m) = ground (arith, get_count-count_one k id m)

get_count-group_counts :
    (k : ℕ) (ms : List EventMembership)
    → get_count k (group_counts ms) ≡ count_rows (λ m. m.event_id == k) ms
unfolding get_count group_counts
get_count-group_counts k [] = refl
get_count-group_counts k (m ∷ ms) =
    get_count-count_one k m.event_id (group_counts ms) ∙ ground (arith, get_count-group_counts k ms)

accepted_among :
    (k : ℕ) (ids : List ℕ) (ms : List EventMembership)
    → contains k ids ≡ true
    → count_rows (λ m. m.event_id == k) (where_rows (is_accepted_among ids) ms)
      ≡ count_rows (is_accepted_in k) ms
accepted_among k ids [] h = refl
accepted_among k ids (m ∷ ms) h = ground (arith, h, accepted_among k ids ms h)

-- For an event of the list.
pub get_count-participant_counts :
    (k : ℕ) (ids : List ℕ) (d : Database)
    → contains k ids ≡ true
    → get_count k (participant_counts ids d) ≡ accepted_count k d
unfolding participant_counts accepted_count
get_count-participant_counts k [] d h = absurd (ground (arith, h))
get_count-participant_counts k (id ∷ ids) d h =
    get_count-group_counts k (where_rows (is_accepted_among (id ∷ ids)) d.memberships)
    ∙ accepted_among k (id ∷ ids) d.memberships h

module _ (user_id k : ℕ) (ids : List ℕ) (listed : contains k ids ≡ true) where
  no_status :
      (ms : List EventMembership)
      → length (where_rows (is_membership_of user_id k) ms) ≤ 0
      → get_status k
          (map (λ m. (m.event_id, m.membership_status)) (where_rows (is_own_among user_id ids) ms))
        ≡ none
  unfolding get_status
  no_status [] h = refl
  no_status (m ∷ ms) h = ground (arith, listed, no_status ms)

  one_status :
      (ms : List EventMembership)
      → length (where_rows (is_membership_of user_id k) ms) ≤ 1
      → get_status k
          (map (λ m. (m.event_id, m.membership_status)) (where_rows (is_own_among user_id ids) ms))
        ≡ status_of (first_row (where_rows (is_membership_of user_id k) ms))
  unfolding get_status
  one_status [] h = refl
  one_status (m ∷ ms) h = elim (Bool-cases (is_membership_of user_id k m)) [
    | inl own ↦ ground (arith, own, listed, no_status ms)
    | inr other ↦ ground (arith, other, listed, one_status ms)
  ]

-- For an event of the list, in which the user has at most one membership.
pub get_status-membership_statuses :
    (user_id k : ℕ) (ids : List ℕ) (d : Database)
    → contains k ids ≡ true
    → length (where_rows (is_membership_of user_id k) d.memberships) ≤ 1
    → get_status k (membership_statuses user_id ids d) ≡ membership_status_of user_id k d
unfolding membership_statuses
get_status-membership_statuses user_id k [] d h one = absurd (ground (arith, h))
get_status-membership_statuses user_id k (id ∷ ids) d h one =
    one_status user_id k (id ∷ ids) h d.memberships one
