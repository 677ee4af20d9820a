-- ===== src/Vote/Results.antt =====
-- The tally of the results of an event.
use mathlib.Core.Path.{subst}
use madcamp_w2_decision_make.Prelude.{
  ℕ, ◌≡◌, refl, List, not, Descending, false, arith, Keyed, some, true, sum_of, sym, ap,
  order_by_desc-Descending, map, where_rows,
}
use madcamp_w2_decision_make.Vote.Service.{get_vote_result, VoteResult}
use madcamp_w2_decision_make.Session.{Session, ok}
use madcamp_w2_decision_make.Repositories.Votes.{
  Count, get_weighted_criteria_scores, get_first_priority_criteria_counts, get_option_vote_counts,
  count_voted_users, first_count, is_first_in, score_count, is_ranked_in,
}
use madcamp_w2_decision_make.Model.{EventStatusType, is_finished, Event}
use madcamp_w2_decision_make.Repositories.Events.{
  count_accepted_members, event_of, membership_status_of, accepted_count,
}
use madcamp_w2_decision_make.Repositories.Contents.{option_key}
use madcamp_w2_decision_make.Vote.OneVote.{OneVoteEach}
use madcamp_w2_decision_make.BaseService.{is_accepted_status}
use madcamp_w2_decision_make.Session.Runs.{after_check, after_raise_if, after_query, pure-inv}
use madcamp_w2_decision_make.Vote.Guards.{
  get_event_with_all_relations-inv, validate_membership_accepted-inv,
}
use madcamp_w2_decision_make.Vote.Tally.{option_counts-voted_users}

is_finished-is :
    (st : EventStatusType) → not (is_finished st) ≡ false → st ≡ EventStatusType.finished
is_finished-is EventStatusType.finished h = refl
is_finished-is EventStatusType.not_started h = absurd (ground arith)
is_finished-is EventStatusType.paused h = absurd (ground arith)
is_finished-is EventStatusType.in_progress h = absurd (ground arith)

-- The counts are in descending order.
abbrev pub Ordered : List Count → Type 0
Ordered counts = Descending (λ (c : Count). c.count) counts

module _ (event_id user_id : ℕ) (s : Session) where
  -- The results are only returned to accepted members of a finished event, and without a change to
  -- the session. The participants are the accepted members, each list of criteria is in descending
  -- order, and where no two options have one id and no user two votes in an event, the counts of
  -- the options add up to the number of the users who voted.
  pub get_vote_result-inv :
      {r : VoteResult} {t : Session}
      → get_vote_result event_id user_id s ≡ (ok r, t)
      → Keyed option_key s.working.options
      → OneVoteEach s.working
      → (e : Event) × (event_of event_id s.working ≡ some e)
        × (e.event_status ≡ EventStatusType.finished)
        × (is_accepted_status (membership_status_of user_id event_id s.working) ≡ true)
        × (t ≡ s)
        × (r.total_participants_count ≡ accepted_count event_id s.working)
        × (sum_of (λ (c : Count). c.count) r.option_vote_counts ≡ r.voted_participants_count)
        × Ordered r.first_priority_criteria
        × Ordered r.weighted_criteria
  unfolding get_vote_result get_weighted_criteria_scores get_first_priority_criteria_counts
      get_option_vote_counts count_voted_users count_accepted_members
  get_vote_result-inv {r} {t} h keyed one =
      after_check _ _ _ (get_event_with_all_relations-inv event_id s) h λ e found h₁.
        after_check _ _ _ (validate_membership_accepted-inv event_id s user_id) h₁ λ _ member h₂.
          let (going, h₃) = after_raise_if _ _ _ h₂ in
          let h₄ = after_query _ _ (after_query _ _ h₃) in
          let (result, same) = pure-inv (after_query _ _ (after_query _ _ (after_query _ _ h₄))) in
          (
            e,
            found,
            is_finished-is e.event_status going,
            member.1,
            same,
            sym (ap (λ x. x.total_participants_count) result),
            subst
                (λ (x : VoteResult).
                  sum_of (λ (c : Count). c.count) x.option_vote_counts ≡ x.voted_participants_count)
                result (option_counts-voted_users event_id s.working keyed one),
            subst (λ (x : VoteResult). Ordered x.first_priority_criteria) result
                (order_by_desc-Descending (λ (c : Count). c.count)
                  (map (first_count s.working)
                    (where_rows (is_first_in event_id s.working) s.working.criteria))),
            subst (λ (x : VoteResult). Ordered x.weighted_criteria) result
                (order_by_desc-Descending (λ (c : Count). c.count)
                  (map (score_count s.working)
                    (where_rows (is_ranked_in event_id s.working) s.working.criteria))),
          )
