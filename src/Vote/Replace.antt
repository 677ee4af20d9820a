-- ===== src/Vote/Replace.antt =====
-- The transaction of a vote: it returns, and what it leaves in the tables.
use madcamp_w2_decision_make.Prelude.{
  ℕ, ◌+◌, ◌≤◌, ◌≡◌, refl, ◌∙◌, true, false, List, [], ◌∷◌, map, length, arith, All, All-map,
  first_row, where_rows, delete_ids, where_rows-delete_ids, contains-where_rows,
  contains-order_by_asc, where_rows-nil_of, to_set-Distinct, to_set, same_set,
}
use madcamp_w2_decision_make.Model.{Database, OptionVote, CriterionPriority}
use madcamp_w2_decision_make.Session.{Session, ok, ◌>>=◌, pure}
use madcamp_w2_decision_make.Session.Runs.{bind-ok}
use madcamp_w2_decision_make.Repositories.Contents.{option_of, criterion_of}
use madcamp_w2_decision_make.Repositories.Events.{scalar_one_or_none}
use madcamp_w2_decision_make.Repositories.Votes.{
  create_option_vote, delete_option_vote, delete_criterion_priorities, is_user_vote,
  is_user_priority, option_in, criterion_in, user_option_votes, user_criterion_priorities, rank_of,
  is_same_vote,
}
use madcamp_w2_decision_make.Vote.Service.{
  delete_existing, replace_vote, is_empty, active_criterion_ids,
}
use madcamp_w2_decision_make.Vote.Priorities.{
  priority_key, ranked, advance, Unranked, create_criterion_priorities-run,
}

abbrev pub vote_key : OptionVote → ℕ
vote_key v = v.id

-- A query of at most one row.
pub scalar_one_or_none-run :
    {R : Type 0} (rows : List R) (s : Session)
    → length rows ≤ 1
    → scalar_one_or_none rows s ≡ (ok (first_row rows), s)
unfolding scalar_one_or_none pure
scalar_one_or_none-run [] s h = refl
scalar_one_or_none-run (r ∷ []) s h = refl
scalar_one_or_none-run (r ∷ r' ∷ rows) s h = absurd (omega arith)

abbrev kept_votes : List OptionVote → List OptionVote → List OptionVote
kept_votes chosen rows = delete_ids vote_key (map vote_key chosen) rows

abbrev kept_priorities : List CriterionPriority → List CriterionPriority → List CriterionPriority
kept_priorities chosen rows = delete_ids priority_key (map priority_key chosen) rows

delete_existing-run :
    (chosen : List OptionVote) (s : Session)
    → length chosen ≤ 1
    → delete_existing (first_row chosen) s ≡ (
      ok tt,
      record s {
        working = record s.working { option_votes = kept_votes chosen s.working.option_votes };
      },
    )
unfolding delete_existing delete_option_vote ◌>>=◌
delete_existing-run [] s h = refl
delete_existing-run (v ∷ []) s h = refl
delete_existing-run (v ∷ w ∷ rest) s h = absurd (omega arith)

delete_criterion_priorities-run :
    (chosen : List CriterionPriority) (s : Session)
    → delete_criterion_priorities chosen s ≡ (
      ok tt,
      record s {
        working = record s.working {
          criterion_priorities = kept_priorities chosen s.working.criterion_priorities;
        };
      },
    )
unfolding delete_criterion_priorities ◌>>=◌
delete_criterion_priorities-run [] s = refl
delete_criterion_priorities-run (p ∷ rest) s = delete_criterion_priorities-run rest _

abbrev pub cast_vote : ℕ → ℕ → ℕ → ℕ → OptionVote
cast_vote user_id option_id now id = record {
  id = id;
  option_id = option_id;
  created_at = now;
  created_by = user_id;
}

create_option_vote-run :
    (option_id user_id : ℕ) (s : Session)
    → where_rows (is_same_vote option_id user_id) s.working.option_votes ≡ []
    → create_option_vote option_id user_id s ≡ (
      ok (cast_vote user_id option_id s.clock s.working.next_id),
      record s {
        working = record s.working {
          option_votes =
              cast_vote user_id option_id s.clock s.working.next_id ∷ s.working.option_votes;
          next_id = s.working.next_id + 1;
        };
      },
    )
unfolding create_option_vote ◌>>=◌
create_option_vote-run option_id user_id s free = ground (arith, free)

-- The database after the vote.
abbrev pub after_vote : ℕ → ℕ → ℕ → List ℕ → ℕ → Database → Database
after_vote event_id user_id option_id criterion_ids now d = record d {
  option_votes =
      cast_vote user_id option_id now d.next_id
      ∷ kept_votes (user_option_votes event_id user_id d) d.option_votes;
  criterion_priorities =
      ranked user_id now 1 (d.next_id + 1) criterion_ids
        (kept_priorities (user_criterion_priorities event_id user_id d) d.criterion_priorities);
  next_id = advance user_id now (d.next_id + 1) criterion_ids;
}

module _ (event_id user_id : ℕ) (d : Database) where
  -- The votes of the user in the event are gone.
  pub kept_votes-nil :
      where_rows
        (is_user_vote event_id user_id d)
        (kept_votes (user_option_votes event_id user_id d) d.option_votes)
      ≡ []
  kept_votes-nil =
      where_rows-delete_ids vote_key _ _ d.option_votes
        (contains-where_rows vote_key _ d.option_votes)

  -- So are the priorities.
  pub kept_priorities-nil :
      where_rows
        (is_user_priority event_id user_id d)
        (kept_priorities (user_criterion_priorities event_id user_id d) d.criterion_priorities)
      ≡ []
  kept_priorities-nil = where_rows-delete_ids priority_key _ _ d.criterion_priorities (
      All-map _ _ _ (λ p k t. contains-order_by_asc priority_key p.id rank_of _ ∙ k t)
        (contains-where_rows priority_key _ d.criterion_priorities))

  pub no_same_vote :
      (option_id : ℕ) (rows : List OptionVote)
      → option_in event_id (option_of option_id d) ≡ true
      → where_rows (is_user_vote event_id user_id d) rows ≡ []
      → where_rows (is_same_vote option_id user_id) rows ≡ []
  no_same_vote option_id rows inside =
      where_rows-nil_of _ (is_user_vote event_id user_id d) rows
        λ v same. ground (arith, same, inside)

  pub no_same_priority :
      (now : ℕ) (criterion_ids : List ℕ) (rows : List CriterionPriority)
      → All (λ c. criterion_in event_id (criterion_of c d) ≡ true) criterion_ids
      → where_rows (is_user_priority event_id user_id d) rows ≡ []
      → All (Unranked user_id now rows) criterion_ids
  no_same_priority now criterion_ids rows inside none_left =
      All-map _ _ criterion_ids
        (λ c k.
          where_rows-nil_of _ (is_user_priority event_id user_id d) rows
            (λ p same. ground (arith, same, k)) none_left)
        inside

-- What the criteria of a vote must be: each active criterion of the event, once.
pub record Ranking (event_id : ℕ) (criterion_ids : List ℕ) (d : Database) : Type 0 where
  pub some_criterion : is_empty criterion_ids ≡ false
  pub no_repetition : length criterion_ids ≡ length (to_set criterion_ids)
  pub all_active : same_set (to_set criterion_ids) (active_criterion_ids event_id d) ≡ true
  pub belong : All (λ c. criterion_in event_id (criterion_of c d) ≡ true) criterion_ids

module _ (event_id user_id option_id : ℕ) (criterion_ids : List ℕ) where
  -- With the checks passed, the transaction's block returns.
  pub replace_vote-run :
      (s : Session)
      → option_in event_id (option_of option_id s.working) ≡ true
      → Ranking event_id criterion_ids s.working
      → length (user_option_votes event_id user_id s.working) ≤ 1
      → replace_vote user_id option_id criterion_ids s.clock
          (first_row (user_option_votes event_id user_id s.working))
          (user_criterion_priorities event_id user_id s.working)
          s
        ≡ (
          ok (cast_vote user_id option_id s.clock s.working.next_id),
          record s {
            working = after_vote event_id user_id option_id criterion_ids s.clock s.working;
          },
        )
  unfolding replace_vote pure
  replace_vote-run s inside ranking single =
      bind-ok _ _ (delete_existing-run _ s single)
      ∙ bind-ok _ _ (delete_criterion_priorities-run _ _)
      ∙ bind-ok _ _ (
          create_option_vote-run option_id user_id _ (
            no_same_vote event_id user_id s.working option_id _ inside
              (kept_votes-nil event_id user_id s.working)))
      ∙ bind-ok _ _ (
          create_criterion_priorities-run user_id s.clock 1 criterion_ids _ (omega arith)
            (to_set-Distinct criterion_ids ranking.no_repetition)
            (no_same_priority event_id user_id s.working s.clock criterion_ids _ ranking.belong
              (kept_priorities-nil event_id user_id s.working)))
      ∙ refl
