-- ===== src/Tests/Votes.antt =====
-- Final votes on an event with two options and two active criteria.
use madcamp_w2_decision_make.Prelude.{
  ◌∷◌, [], none, some, refl, arith, ℕ, true, false, ◌≡◌, Bool, find_by_id, ◌*◌, ◌+◌, ap, sum_of,
  ◌⊎◌,
}
use madcamp_w2_decision_make.Model.{
  OptionRow, Criterion, OptionVote, CriterionPriority, Database, EventStatusType, Event,
}
use madcamp_w2_decision_make.Session.{Session, ok, ◌>>=◌, Error, err}
use madcamp_w2_decision_make.Tests.{database, event, session}
use madcamp_w2_decision_make.Repositories.Votes.{
  weighted_score, get_weighted_criteria_scores, get_first_priority_criteria_counts,
  get_option_vote_counts, count_voted_users, Count,
}
use madcamp_w2_decision_make.Vote.Service.{
  get_vote_result, execute_vote, VoteResult, VoteView, get_user_vote,
}
use madcamp_w2_decision_make.Repositories.Contents.{option_of, criterion_of}
use madcamp_w2_decision_make.Repositories.Events.{
  event_of, membership_status_of, accepted_count, count_accepted_members, get_membership_status,
  scalar_one_or_none,
}
use madcamp_w2_decision_make.Vote.OneVote.{user_votes, OneVoteEach, execute_vote-OneVoteEach}
use madcamp_w2_decision_make.Vote.Checks.{vote_response, CanVote}
use madcamp_w2_decision_make.BaseService.{
  is_accepted_status, get_event_with_all_relations, validate_membership_accepted,
}
use madcamp_w2_decision_make.Vote.Outcomes.{execute_vote-outcomes}
use madcamp_w2_decision_make.Vote.Guards.{execute_vote-inv}
use madcamp_w2_decision_make.Session.Runs.{result-run, landed}
use madcamp_w2_decision_make.Vote.Tally.{ranked_by, weighted_score_lem}
use madcamp_w2_decision_make.Vote.RoundTrip.{execute_vote-get_user_vote, execute_vote-run}
use madcamp_w2_decision_make.Vote.Results.{Ordered, get_vote_result-inv}
use madcamp_w2_decision_make.Repositories.Events
use madcamp_w2_decision_make.Vote.Replace.{after_vote}

abbrev pub option : ℕ → OptionRow
option id = record { id = id; event_id = 1; content = "Pasta"; created_by = 10; updated_at = none }

abbrev pub criterion : ℕ → Bool → Criterion
criterion id is_deleted = record {
  id = id;
  event_id = 1;
  content = "Price";
  conclusion = none;
  is_deleted = is_deleted;
  is_modified = false;
  original_content = none;
  created_by = 10;
  updated_at = none;
  updated_by = none;
}

abbrev pub former_vote : OptionVote
former_vote = record { id = 60; option_id = 41; created_at = 2; created_by = 11 }

abbrev former_priority : CriterionPriority
former_priority = record {
  id = 61;
  criterion_id = 50;
  created_by = 11;
  priority_rank = 1;
  updated_at = some 2;
}

abbrev pub vote_database : EventStatusType → Database
vote_database status = record (database (record event { event_status = status }) []) {
  options = option 41 ∷ option 40 ∷ [];
  criteria = criterion 52 true ∷ criterion 51 false ∷ criterion 50 false ∷ [];
  option_votes = former_vote ∷ [];
  criterion_priorities = former_priority ∷ [];
}

abbrev vote_start : Session
vote_start = session (vote_database EventStatusType.in_progress)

abbrev finished : Session
finished = session (vote_database EventStatusType.finished)

can_vote :
    CanVote 1 11 40
      (51 ∷ 50 ∷ [])
      (record event { event_status = EventStatusType.in_progress })
      vote_start.working
unfolding event_of option_of criterion_of find_by_id
can_vote = record {
  event_found = refl;
  in_progress = refl;
  accepted = refl;
  one_membership = omega arith;
  option_belongs = refl;
  ranking = record {
    some_criterion = refl;
    no_repetition = refl;
    all_active = refl;
    belong = (refl, (refl, tt));
  };
  one_vote = omega arith;
}

one_vote_each : (status : EventStatusType) → OneVoteEach (vote_database status)
unfolding option_of find_by_id
one_vote_each status e u = ground arith

execute_vote-get_user_vote_example :
    (t : Session) × (v : VoteView) × (execute_vote 1 11 40 (51 ∷ 50 ∷ []) vote_start
      ≡ (ok (vote_response 40 (51 ∷ 50 ∷ []) 7), t))
    × (t.committed ≡ t.working)
    × (get_user_vote 1 11 t ≡ (ok v, t))
    × (v.option_id ≡ some 40)
    × (v.criterion_order ≡ 51 ∷ 50 ∷ [])
    × (v.created_at ≡ some 7)
    × (v.updated_at ≡ some 7)
execute_vote-get_user_vote_example =
    execute_vote-get_user_vote 1 11 40 (51 ∷ 50 ∷ []) event vote_start can_vote

vote_run :
    execute_vote 1 11 40 (51 ∷ 50 ∷ []) vote_start
    ≡ (ok (vote_response 40 (51 ∷ 50 ∷ []) 7), (execute_vote 1 11 40 (51 ∷ 50 ∷ []) vote_start).1)
vote_run =
    result-run (execute_vote 1 11 40 (51 ∷ 50 ∷ [])) vote_start
      (ap (λ x. x.0) (execute_vote-run 1 11 40 (51 ∷ 50 ∷ []) event vote_start can_vote))

execute_vote-inv_example : (e : Event) × CanVote 1 11 40 (51 ∷ 50 ∷ []) e vote_start.working
execute_vote-inv_example = execute_vote-inv 1 11 40 (51 ∷ 50 ∷ []) vote_start vote_run

execute_vote-OneVoteEach_example :
    (user_votes 1 11 (execute_vote 1 11 40 (51 ∷ 50 ∷ []) vote_start).1.committed ≡ 1)
    × OneVoteEach (execute_vote 1 11 40 (51 ∷ 50 ∷ []) vote_start).1.committed
execute_vote-OneVoteEach_example =
    execute_vote-OneVoteEach 1 11 40 (51 ∷ 50 ∷ []) vote_start vote_run
      (one_vote_each EventStatusType.in_progress)

-- A ranking with a repetition.
execute_vote-outcomes_example :
    ((e : Event) × CanVote 1 11 40 (50 ∷ 50 ∷ []) e vote_start.working
      × (execute_vote 1 11 40 (50 ∷ 50 ∷ []) vote_start ≡ (
        ok (vote_response 40 (50 ∷ 50 ∷ []) 7),
        landed (after_vote 1 11 40 (50 ∷ 50 ∷ []) 7 vote_start.working) vote_start,
      )))
    ⊎ ((x : Error) × (execute_vote 1 11 40 (50 ∷ 50 ∷ []) vote_start ≡ (err x, vote_start)))
execute_vote-outcomes_example = execute_vote-outcomes 1 11 40 (50 ∷ 50 ∷ []) vote_start

weighted_score_lem_example :
    weighted_score 50 (vote_database EventStatusType.finished)
    ≡ 3 * ranked_by 50 1 (vote_database EventStatusType.finished)
      + 2 * ranked_by 50 2 (vote_database EventStatusType.finished)
      + ranked_by 50 3 (vote_database EventStatusType.finished)
weighted_score_lem_example = weighted_score_lem 50 (vote_database EventStatusType.finished)

abbrev results : VoteResult
results = record {
  total_participants_count = 1;
  voted_participants_count = 1;
  option_vote_counts =
      record { id = 40; content = "Pasta"; count = 0 }
      ∷ record { id = 41; content = "Pasta"; count = 1 }
      ∷ [];
  first_priority_criteria = record { id = 50; content = "Price"; count = 1 } ∷ [];
  weighted_criteria = record { id = 50; content = "Price"; count = 3 } ∷ [];
}

results_run : get_vote_result 1 11 finished ≡ (ok results, finished)
unfolding get_vote_result get_weighted_criteria_scores get_first_priority_criteria_counts
    get_option_vote_counts count_voted_users count_accepted_members get_event_with_all_relations
    Events.get_by_id validate_membership_accepted get_membership_status scalar_one_or_none event_of
    option_of accepted_count find_by_id ◌>>=◌
results_run = refl

get_vote_result-inv_example :
    (e : Event) × (event_of 1 finished.working ≡ some e)
    × (e.event_status ≡ EventStatusType.finished)
    × (is_accepted_status (membership_status_of 11 1 finished.working) ≡ true)
    × (finished ≡ finished)
    × (1 ≡ accepted_count 1 finished.working)
    × (sum_of (λ (c : Count). c.count) results.option_vote_counts ≡ 1)
    × Ordered results.first_priority_criteria
    × Ordered results.weighted_criteria
unfolding find_by_id
get_vote_result-inv_example =
    get_vote_result-inv 1 11 finished results_run (refl, (refl, tt))
      (one_vote_each EventStatusType.finished)
