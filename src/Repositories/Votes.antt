-- ===== src/Repositories/Votes.antt =====
-- app/repositories/vote_repository.py: final votes. An inner join on a primary key is a lookup of
-- the joined row. The constraints of app/models/vote.py stand where rows are inserted.
use madcamp_w2_decision_make.Prelude.{
  ℕ, String, Bool, false, Option, none, some, List, [], ◌∷◌, ◌==◌, ◌&&◌, ◌+◌, if◌then◌else◌,
  where_rows, count_rows, delete_rows, first_row, is_some, leb, ltb, map, length, to_set,
  order_by_asc, order_by_desc,
}
use madcamp_w2_decision_make.Model.{Database, OptionVote, CriterionPriority, OptionRow, Criterion}
use madcamp_w2_decision_make.Session.{
  Action, pure, raise_if, integrity, query, write, utc_now, uuid4, ◌>>=◌, ◌>>◌,
}
use madcamp_w2_decision_make.Repositories.Events.{scalar_one_or_none}
use madcamp_w2_decision_make.Repositories.Contents.{option_of, criterion_of}

abbrev pub option_in : ℕ → Option OptionRow → Bool
option_in event_id none = false
option_in event_id (some o) = o.event_id == event_id

abbrev pub criterion_in : ℕ → Option Criterion → Bool
criterion_in event_id none = false
criterion_in event_id (some c) = c.event_id == event_id

-- The final votes of an event: those joined with one of its options.
abbrev pub is_vote_in : ℕ → Database → OptionVote → Bool
is_vote_in event_id d v = option_in event_id (option_of v.option_id d)

abbrev pub is_user_vote : ℕ → ℕ → Database → OptionVote → Bool
is_user_vote event_id user_id d v = is_vote_in event_id d v && v.created_by == user_id

abbrev pub is_user_priority : ℕ → ℕ → Database → CriterionPriority → Bool
is_user_priority event_id user_id d p =
    criterion_in event_id (criterion_of p.criterion_id d) && p.created_by == user_id

abbrev pub rank_of : CriterionPriority → ℕ
rank_of p = p.priority_rank

abbrev pub user_option_votes : ℕ → ℕ → Database → List OptionVote
user_option_votes event_id user_id d = where_rows (is_user_vote event_id user_id d) d.option_votes

abbrev pub user_criterion_priorities : ℕ → ℕ → Database → List CriterionPriority
user_criterion_priorities event_id user_id d =
    order_by_asc rank_of (where_rows (is_user_priority event_id user_id d) d.criterion_priorities)

unfoldable pub get_user_option_vote : ℕ → ℕ → Action (Option OptionVote)
get_user_option_vote event_id user_id = do
  rows ← query (user_option_votes event_id user_id)
  scalar_one_or_none rows

unfoldable pub get_user_criterion_priorities : ℕ → ℕ → Action (List CriterionPriority)
get_user_criterion_priorities event_id user_id = query (user_criterion_priorities event_id user_id)

abbrev pub add_option_vote : OptionVote → Database → Database
add_option_vote v d = record d { option_votes = v ∷ d.option_votes }

abbrev pub is_same_vote : ℕ → ℕ → OptionVote → Bool
is_same_vote option_id user_id v = v.option_id == option_id && v.created_by == user_id

-- `created_at` is the server's default `now()`.
unfoldable pub create_option_vote : ℕ → ℕ → Action OptionVote
create_option_vote option_id user_id = do
  taken ←
      query (λ d. is_some (first_row (where_rows (is_same_vote option_id user_id) d.option_votes)))
  raise_if taken (integrity "uq_option_votes_option_user")
  now ← utc_now
  id ← uuid4
  let vote : OptionVote = record {
    id = id;
    option_id = option_id;
    created_at = now;
    created_by = user_id;
  }
  write (add_option_vote vote)
  pure vote

abbrev pub remove_option_vote : ℕ → Database → Database
remove_option_vote id d = record d { option_votes = delete_rows (λ v. v.id == id) d.option_votes }

unfoldable pub delete_option_vote : OptionVote → Action (Unit {0})
delete_option_vote v = write (remove_option_vote v.id)

abbrev pub add_priority : CriterionPriority → Database → Database
add_priority p d = record d { criterion_priorities = p ∷ d.criterion_priorities }

abbrev pub is_same_priority : ℕ → ℕ → CriterionPriority → Bool
is_same_priority criterion_id user_id p = p.criterion_id == criterion_id && p.created_by == user_id

-- One row of the flush, with the unique constraint and `priority_rank > 0`.
unfoldable pub create_criterion_priority : ℕ → ℕ → ℕ → ℕ → Action (Unit {0})
create_criterion_priority user_id now rank criterion_id = do
  taken ← query (λ d.
      is_some
        (first_row (where_rows (is_same_priority criterion_id user_id) d.criterion_priorities)))
  raise_if taken (integrity "uq_criterion_priorities_criterion_user")
  raise_if (leb rank 0) (integrity "ck_criterion_priorities_rank_positive")
  id ← uuid4
  write (
      add_priority record {
        id = id;
        criterion_id = criterion_id;
        created_by = user_id;
        priority_rank = rank;
        updated_at = some now;
      })

-- `enumerate(criterion_ids, start=…)`, and the flush of the rows in that order.
unfoldable pub create_criterion_priorities : ℕ → ℕ → ℕ → List ℕ → Action (Unit {0})
create_criterion_priorities user_id now index [] = pure tt
create_criterion_priorities user_id now index (criterion_id ∷ rest) =
    create_criterion_priority user_id now index criterion_id
    >> create_criterion_priorities user_id now (index + 1) rest

abbrev pub remove_priority : ℕ → Database → Database
remove_priority id d = record d {
  criterion_priorities = delete_rows (λ p. p.id == id) d.criterion_priorities;
}

unfoldable pub delete_criterion_priorities : List CriterionPriority → Action (Unit {0})
delete_criterion_priorities [] = pure tt
delete_criterion_priorities (p ∷ rest) =
    write (remove_priority p.id) >> delete_criterion_priorities rest

-- How many users have voted.
abbrev pub voted_users : ℕ → Database → ℕ
voted_users event_id d =
    length (to_set (map (λ v. v.created_by) (where_rows (is_vote_in event_id d) d.option_votes)))

unfoldable pub count_voted_users : ℕ → Action ℕ
count_voted_users event_id = query (voted_users event_id)

-- A row of a tally: the id and the content of an option or a criterion, and its number.
pub record Count : Type 0 where
  pub id : ℕ
  pub content : String
  pub count : ℕ

abbrev pub votes_for : ℕ → Database → ℕ
votes_for option_id d = count_rows (λ v. v.option_id == option_id) d.option_votes

abbrev pub is_option_in : ℕ → OptionRow → Bool
is_option_in event_id o = o.event_id == event_id

abbrev pub option_count : Database → OptionRow → Count
option_count d o = record { id = o.id; content = o.content; count = votes_for o.id d }

-- Every option of the event, an option without votes included.
abbrev pub option_counts : ℕ → Database → List Count
option_counts event_id d =
    order_by_asc (λ c. c.id) (map (option_count d) (where_rows (is_option_in event_id) d.options))

unfoldable pub get_option_vote_counts : ℕ → Action (List Count)
get_option_vote_counts event_id = query (option_counts event_id)

abbrev pub is_criterion_in : ℕ → Criterion → Bool
is_criterion_in event_id c = c.event_id == event_id

abbrev pub is_first_for : ℕ → CriterionPriority → Bool
is_first_for criterion_id p = p.criterion_id == criterion_id && p.priority_rank == 1

abbrev pub firsts_for : ℕ → Database → ℕ
firsts_for criterion_id d = count_rows (is_first_for criterion_id) d.criterion_priorities

abbrev pub is_first_in : ℕ → Database → Criterion → Bool
is_first_in event_id d c = is_criterion_in event_id c && ltb 0 (firsts_for c.id d)

abbrev pub first_count : Database → Criterion → Count
first_count d c = record { id = c.id; content = c.content; count = firsts_for c.id d }

-- The inner join has no row for a criterion that nobody ranks first.
abbrev pub first_counts : ℕ → Database → List Count
first_counts event_id d =
    order_by_desc (λ c. c.count)
      (map (first_count d) (where_rows (is_first_in event_id d) d.criteria))

unfoldable pub get_first_priority_criteria_counts : ℕ → Action (List Count)
get_first_priority_criteria_counts event_id = query (first_counts event_id)

-- CASE WHEN priority_rank = 1 THEN 3 …
abbrev pub weight : ℕ → ℕ
weight rank = if rank == 1 then 3 else (if rank == 2 then 2 else (if rank == 3 then 1 else 0))

abbrev pub sum_weights : List CriterionPriority → ℕ
sum_weights [] = 0
sum_weights (p ∷ ps) = weight p.priority_rank + sum_weights ps

abbrev pub is_priority_of : ℕ → CriterionPriority → Bool
is_priority_of criterion_id p = p.criterion_id == criterion_id

abbrev pub weighted_score : ℕ → Database → ℕ
weighted_score criterion_id d =
    sum_weights (where_rows (is_priority_of criterion_id) d.criterion_priorities)

abbrev pub is_ranked_in : ℕ → Database → Criterion → Bool
is_ranked_in event_id d c =
    is_criterion_in event_id c && ltb 0 (count_rows (is_priority_of c.id) d.criterion_priorities)

abbrev pub score_count : Database → Criterion → Count
score_count d c = record { id = c.id; content = c.content; count = weighted_score c.id d }

-- The inner join has no row for a criterion that nobody ranks.
abbrev pub score_counts : ℕ → Database → List Count
score_counts event_id d =
    order_by_desc (λ c. c.count)
      (map (score_count d) (where_rows (is_ranked_in event_id d) d.criteria))

unfoldable pub get_weighted_criteria_scores : ℕ → Action (List Count)
get_weighted_criteria_scores event_id = query (score_counts event_id)
