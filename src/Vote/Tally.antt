-- ===== src/Vote/Tally.antt =====
-- The numbers of a tally: sums of votes and of weights.
use madcamp_w2_decision_make.Prelude.{
  ℕ, ◌≡◌, refl, ◌+◌, ◌*◌, ◌≤◌, [], ◌∷◌, List, find_by_id, count_rows, Bool, where_rows, Keyed, ◌==◌,
  ◌&&◌, none, length, sum_of, arith, to_set, map, if◌then◌else◌, sym, contains, ==_refl,
  contains-to_set, ltb, ap, sum_of-order_by_asc, ◌∙◌, length-where_rows,
}
use madcamp_w2_decision_make.Repositories.Votes.{
  weighted_score, sum_weights, is_priority_of, option_in, votes_for, is_option_in, is_vote_in,
  is_user_vote, Count, option_count, option_counts, voted_users,
}
use madcamp_w2_decision_make.Model.{OptionVote, CriterionPriority, Database, OptionRow}
use madcamp_w2_decision_make.Repositories.Contents.{option_key, option_of}
use madcamp_w2_decision_make.Vote.OneVote.{OneVoteEach}

abbrev pub is_ranked : ℕ → ℕ → CriterionPriority → Bool
is_ranked criterion_id rank p = p.criterion_id == criterion_id && p.priority_rank == rank

-- The users who rank a criterion at a rank.
abbrev pub ranked_by : ℕ → ℕ → Database → ℕ
ranked_by criterion_id rank d = count_rows (is_ranked criterion_id rank) d.criterion_priorities

sum_weights_lem :
    (c : ℕ) (ps : List CriterionPriority)
    → sum_weights (where_rows (is_priority_of c) ps)
      ≡ 3 * count_rows (is_ranked c 1) ps
        + 2 * count_rows (is_ranked c 2) ps
        + count_rows (is_ranked c 3) ps
sum_weights_lem c [] = refl
sum_weights_lem c (p ∷ ps) = ground (arith, sum_weights_lem c ps)

-- The weighted score of a criterion is three for each user who ranks it first, two for each who
-- ranks it second, and one for each who ranks it third.
pub weighted_score_lem :
    (criterion_id : ℕ) (d : Database)
    → weighted_score criterion_id d
      ≡ 3 * ranked_by criterion_id 1 d + 2 * ranked_by criterion_id 2 d + ranked_by criterion_id 3 d
weighted_score_lem criterion_id d = sum_weights_lem criterion_id d.criterion_priorities

split_by_option :
    (e : ℕ) (o : OptionRow) (os : List OptionRow) (vs : List OptionVote)
    → find_by_id option_key o.id os ≡ none
    → count_rows (λ v. option_in e (find_by_id option_key v.option_id (o ∷ os))) vs
      ≡ (if o.event_id == e then count_rows (λ v. v.option_id == o.id) vs else 0)
        + count_rows (λ v. option_in e (find_by_id option_key v.option_id os)) vs
unfolding find_by_id
split_by_option e o os [] fresh = ground arith
split_by_option e o os (v ∷ vs) fresh = ground (arith, fresh, split_by_option e o os vs fresh)

no_option :
    (e : ℕ) (vs : List OptionVote)
    → count_rows (λ v. option_in e (find_by_id option_key v.option_id [])) vs ≡ 0
unfolding find_by_id
no_option e [] = refl
no_option e (v ∷ vs) = no_option e vs

-- The votes for the options of an event are the votes in the event.
sum-votes :
    (e : ℕ) (d : Database) (os : List OptionRow)
    → Keyed option_key os
    → sum_of (λ o. votes_for o.id d) (where_rows (is_option_in e) os)
      ≡ count_rows (λ v. option_in e (find_by_id option_key v.option_id os)) d.option_votes
unfolding find_by_id
sum-votes e d [] h = sym (no_option e d.option_votes)
sum-votes e d (o ∷ os) (fresh, h) =
    ground (arith, split_by_option e o os d.option_votes fresh, sum-votes e d os h)

contains_voter :
    (u : ℕ) (vs : List OptionVote)
    → contains u (map (λ v. v.created_by) vs) ≡ ltb 0 (count_rows (λ v. v.created_by == u) vs)
contains_voter u [] = refl
contains_voter u (v ∷ vs) = ground (arith, contains_voter u vs)

voters_below :
    (v : OptionVote) (vs : List OptionVote)
    → ((u : ℕ) → count_rows (λ w. w.created_by == u) (v ∷ vs) ≤ 1)
    → (u : ℕ) → count_rows (λ w. w.created_by == u) vs ≤ 1
voters_below v vs h u = ground (arith, h u)

unique_voters :
    (vs : List OptionVote)
    → ((u : ℕ) → count_rows (λ v. v.created_by == u) vs ≤ 1)
    → length (to_set (map (λ v. v.created_by) vs)) ≡ length vs
unique_voters [] h = refl
unique_voters (v ∷ vs) h = ground (
  arith,
  h v.created_by,
  ==_refl v.created_by,
  contains_voter v.created_by vs,
  contains-to_set v.created_by (map (λ w. w.created_by) vs),
  unique_voters vs (voters_below v vs h),
)

-- In the event, each vote has another voter.
voters_differ :
    (e : ℕ) (d : Database)
    → OneVoteEach d
    → (u : ℕ) → count_rows (λ v. v.created_by == u) (where_rows (is_vote_in e d) d.option_votes) ≤ 1
voters_differ e d one u = omega (arith, one e u, narrowed d.option_votes)
  where
    narrowed :
        (vs : List OptionVote)
        → count_rows (λ v. v.created_by == u) (where_rows (is_vote_in e d) vs)
          ≡ count_rows (is_user_vote e u d) vs
    narrowed [] = refl
    narrowed (v ∷ vs) = ground (arith, narrowed vs)

counted_options :
    (d : Database) (os : List OptionRow)
    → sum_of (λ (c : Count). c.count) (map (option_count d) os) ≡ sum_of (λ o. votes_for o.id d) os
counted_options d [] = refl
counted_options d (o ∷ os) = ap (λ n. votes_for o.id d + n) (counted_options d os)

-- Where no two options have one id and no user two votes in an event, the counts of the options of
-- an event add up to the number of users who have voted in it.
pub option_counts-voted_users :
    (event_id : ℕ) (d : Database)
    → Keyed option_key d.options
    → OneVoteEach d
    → sum_of (λ (c : Count). c.count) (option_counts event_id d) ≡ voted_users event_id d
unfolding option_of
option_counts-voted_users event_id d keyed one =
    sum_of-order_by_asc (λ (c : Count). c.id) (λ (c : Count). c.count)
      (map (option_count d) (where_rows (is_option_in event_id) d.options))
    ∙ counted_options d (where_rows (is_option_in event_id) d.options)
    ∙ sum-votes event_id d d.options keyed
    ∙ sym (length-where_rows (is_vote_in event_id d) d.option_votes)
    ∙ sym (
        unique_voters (where_rows (is_vote_in event_id d) d.option_votes)
          (voters_differ event_id d one))
