-- ===== src/Vote/Service.antt =====
-- app/services/event/vote_service.py. The texts of `detail` are left out of the errors.
use madcamp_w2_decision_make.Prelude.{
  ℕ, String, Bool, Option, none, some, List, [], ◌∷◌, ◌==◌, ◌&&◌, not, length, map, where_rows,
  to_set, same_set, if◌then◌else◌, leb,
}
use madcamp_w2_decision_make.Model.{
  Database, Event, Criterion, OptionVote, CriterionPriority, Value, is_in_progress, is_finished,
}
use madcamp_w2_decision_make.Session.{
  Action, pure, or_raise, raise_if, not_found, validation, query, utc_now, transaction, ◌>>=◌, ◌>>◌,
}
use madcamp_w2_decision_make.BaseService.{
  get_event_with_all_relations, validate_membership_accepted,
}
use madcamp_w2_decision_make.Repositories.Events.{count_accepted_members}
use madcamp_w2_decision_make.Repositories.Contents.{option_of, criterion_of}
use madcamp_w2_decision_make.Repositories.Votes.{
  get_user_option_vote, get_user_criterion_priorities, create_option_vote, delete_option_vote,
  create_criterion_priorities, delete_criterion_priorities, Count, count_voted_users,
  get_option_vote_counts, get_first_priority_criteria_counts, get_weighted_criteria_scores,
  is_option_in, is_criterion_in,
}
use madcamp_w2_decision_make.Idempotency
use madcamp_w2_decision_make.Proposal.Responses.{Body}

abbrev pub is_active_in : ℕ → Criterion → Bool
is_active_in event_id c = is_criterion_in event_id c && not c.is_deleted

-- The criteria of the event that are not deleted.
abbrev pub active_criteria : ℕ → Database → List Criterion
active_criteria event_id d = where_rows (is_active_in event_id) d.criteria

abbrev pub active_criterion_ids : ℕ → Database → List ℕ
active_criterion_ids event_id d = map (λ c. c.id) (active_criteria event_id d)

-- What a user sees of the own vote.
pub record VoteView : Type 0 where
  pub option_id : Option ℕ
  pub criterion_order : List ℕ
  pub created_at : Option ℕ
  pub updated_at : Option ℕ
  pub decision_subject : String
  pub options : List (ℕ × String)
  pub criteria : List (ℕ × String)

-- The latest of the times that are not None, if there is one.
abbrev pub latest : List (Option ℕ) → Option ℕ
latest [] = none
latest (none ∷ rest) = latest rest
latest (some t ∷ rest) = elim (latest rest) [
  | none ↦ some t
  | some u ↦ some (if leb u t then t else u)
]

abbrev pub or_else : Option ℕ → ℕ → ℕ
or_else none u = u
or_else (some t) u = t

abbrev pub vote_view :
    Event
    → List (ℕ × String)
    → List (ℕ × String)
    → Option OptionVote
    → List CriterionPriority
    → VoteView
vote_view event options criteria none priorities = record {
  option_id = none;
  criterion_order = [];
  created_at = none;
  updated_at = none;
  decision_subject = event.decision_subject;
  options = options;
  criteria = criteria;
}
vote_view event options criteria (some v) priorities = record {
  option_id = some v.option_id;
  criterion_order = map (λ p. p.criterion_id) priorities;
  created_at = some v.created_at;
  updated_at = some (or_else (latest (map (λ p. p.updated_at) priorities)) v.created_at);
  decision_subject = event.decision_subject;
  options = options;
  criteria = criteria;
}

unfoldable pub get_user_vote : ℕ → ℕ → Action VoteView
get_user_vote event_id user_id = do
  validate_membership_accepted user_id event_id
  event ← get_event_with_all_relations event_id
  options ← query (λ d. map (λ o. (o.id, o.content)) (where_rows (is_option_in event_id) d.options))
  criteria ← query (λ d. map (λ c. (c.id, c.content)) (active_criteria event_id d))
  option_vote ← get_user_option_vote event_id user_id
  criterion_priorities ← get_user_criterion_priorities event_id user_id
  pure (vote_view event options criteria option_vote criterion_priorities)

-- `for criterion_id in criterion_ids:` each criterion exists and is one of the event.
unfoldable pub validate_each : ℕ → List ℕ → Action (Unit {0})
validate_each event_id [] = pure tt
validate_each event_id (criterion_id ∷ rest) = query (criterion_of criterion_id) >>= λ found.
    or_raise found (not_found "Criterion not found") >>= λ criterion.
    raise_if (not (criterion.event_id == event_id)) (validation "Invalid criterion")
    >> validate_each event_id rest

-- The checks of the option.
unfoldable pub validate_option : ℕ → ℕ → Action (Unit {0})
validate_option event_id option_id = do
  found ← query (option_of option_id)
  option ← or_raise found (not_found "Option not found")
  raise_if (not (option.event_id == event_id)) (validation "Invalid option")

-- `not criterion_ids`
abbrev pub is_empty : List ℕ → Bool
is_empty ids = length ids == 0

-- The checks of the criteria: each active criterion once.
unfoldable pub validate_criteria : ℕ → List ℕ → Action (Unit {0})
validate_criteria event_id criterion_ids = do
  raise_if (is_empty criterion_ids) (validation "Invalid criterion_ids")
  raise_if (not (length criterion_ids == length (to_set criterion_ids)))
      (validation "Invalid criterion_ids")
  active ← query (active_criterion_ids event_id)
  raise_if (not (same_set (to_set criterion_ids) active)) (validation "Invalid criterion_ids")
  validate_each event_id criterion_ids

-- `if existing_option_vote: …`
unfoldable pub delete_existing : Option OptionVote → Action (Unit {0})
delete_existing none = pure tt
delete_existing (some v) = delete_option_vote v

-- The block of the transaction.
unfoldable pub replace_vote :
    ℕ → ℕ → List ℕ → ℕ → Option OptionVote → List CriterionPriority → Action OptionVote
replace_vote user_id option_id criterion_ids now existing priorities = do
  delete_existing existing
  delete_criterion_priorities priorities
  new_option_vote ← create_option_vote option_id user_id
  create_criterion_priorities user_id now 1 criterion_ids
  pure new_option_vote

pub record VoteResponse : Type 0 where
  pub option_id : ℕ
  pub criterion_order : List ℕ
  pub created_at : ℕ
  pub updated_at : ℕ

unfoldable pub execute_vote : ℕ → ℕ → ℕ → List ℕ → Action VoteResponse
execute_vote event_id user_id option_id criterion_ids = do
  event ← get_event_with_all_relations event_id
  validate_membership_accepted user_id event_id
  raise_if (not (is_in_progress event.event_status)) (validation "Event not in progress")
  validate_option event_id option_id
  validate_criteria event_id criterion_ids
  existing ← get_user_option_vote event_id user_id
  priorities ← get_user_criterion_priorities event_id user_id
  now ← utc_now
  new_option_vote ←
      transaction (replace_vote user_id option_id criterion_ids now existing priorities)
  pure record {
    option_id = new_option_vote.option_id;
    criterion_order = criterion_ids;
    created_at = new_option_vote.created_at;
    updated_at = now;
  }

-- `response.model_dump()`
abbrev pub dump_vote : VoteResponse → Body
dump_vote r =
    ("option_id", Value.uuid r.option_id)
    ∷ ("criterion_order", Value.uuids r.criterion_order)
    ∷ ("created_at", Value.number r.created_at)
    ∷ ("updated_at", Value.number r.updated_at)
    ∷ []

-- With the path and the hash of the request given.
unfoldable pub create_or_update_vote :
    ℕ → Option String → String → String → ℕ → ℕ → ℕ → List ℕ → Action Body
create_or_update_vote ttl key path request_hash event_id user_id option_id criterion_ids =
    Idempotency.wrap ttl key user_id "POST" path request_hash
      (execute_vote event_id user_id option_id criterion_ids >>= λ r. pure (dump_vote r))

pub record VoteResult : Type 0 where
  pub total_participants_count : ℕ
  pub voted_participants_count : ℕ
  pub option_vote_counts : List Count
  pub first_priority_criteria : List Count
  pub weighted_criteria : List Count

unfoldable pub get_vote_result : ℕ → ℕ → Action VoteResult
get_vote_result event_id user_id = do
  event ← get_event_with_all_relations event_id
  validate_membership_accepted user_id event_id
  raise_if (not (is_finished event.event_status)) (validation "Event not finished")
  total ← count_accepted_members event_id
  voted ← count_voted_users event_id
  options ← get_option_vote_counts event_id
  firsts ← get_first_priority_criteria_counts event_id
  weighted ← get_weighted_criteria_scores event_id
  pure record {
    total_participants_count = total;
    voted_participants_count = voted;
    option_vote_counts = options;
    first_priority_criteria = firsts;
    weighted_criteria = weighted;
  }
