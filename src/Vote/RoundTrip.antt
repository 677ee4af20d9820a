-- ===== src/Vote/RoundTrip.antt =====
-- A vote that the rules allow is cast, and is what the user then sees.
use madcamp_w2_decision_make.Session.{Session, raise_if, pure, ok, validation}
use madcamp_w2_decision_make.Vote.Checks.{
  CanVote, vote_response, get_event_with_all_relations-run, validate_membership_accepted-run,
  validate_option-run, validate_criteria-run,
}
use madcamp_w2_decision_make.Prelude.{
  where_rows-one, ℕ, List, map, All, ◌≡◌, some, ◌∷◌, [], not, arith, ◌∙◌, order_by_asc-All, ==_refl,
  refl, All-map, ap, order_by_asc, ◌++◌,
}
use madcamp_w2_decision_make.Model.{CriterionPriority, Event, is_in_progress}
use madcamp_w2_decision_make.Vote.Service.{execute_vote, or_else, latest, get_user_vote, VoteView}
use madcamp_w2_decision_make.Session.Runs.{landed, bind-ok, bind-query, transaction-ok, utc_now-run}
use madcamp_w2_decision_make.Repositories.Votes.{
  user_option_votes, get_user_criterion_priorities, get_user_option_vote, user_criterion_priorities,
  rank_of, is_user_priority, is_user_vote,
}
use madcamp_w2_decision_make.Vote.Replace.{
  after_vote, cast_vote, scalar_one_or_none-run, replace_vote-run, kept_votes-nil,
  kept_priorities-nil,
}
use madcamp_w2_decision_make.Vote.Priorities.{criterion_id_of, order_by_asc-ranked, ranked-All}
use madcamp_w2_decision_make.Repositories.Contents.{option_of, criterion_of}
use madcamp_w2_decision_make.Repositories.Events.{scalar_one_or_none, event_of}

-- Once every time that is not None is the same, so is the latest.
latest-same :
    (now : ℕ) (ps : List CriterionPriority)
    → All (λ p. p.updated_at ≡ some now) ps
    → or_else (latest (map (λ p. p.updated_at) ps)) now ≡ now
latest-same now [] h = refl
latest-same now (p ∷ ps) (q, h) = ground (arith, q, latest-same now ps h)

module _ (event_id user_id option_id : ℕ) (criterion_ids : List ℕ) (e : Event) (s : Session) where
  abbrev voted : Session
  voted = landed (after_vote event_id user_id option_id criterion_ids s.clock s.working) s

  pub execute_vote-run :
      CanVote event_id user_id option_id criterion_ids e s.working
      → execute_vote event_id user_id option_id criterion_ids s
        ≡ (ok (vote_response option_id criterion_ids s.clock), voted)
  unfolding execute_vote get_user_criterion_priorities get_user_option_vote raise_if pure
  execute_vote-run can =
      bind-ok _ _ (get_event_with_all_relations-run event_id s e can.event_found)
      ∙ bind-ok _ _
          (validate_membership_accepted-run event_id s user_id can.one_membership can.accepted)
      ∙ bind-ok _ _ open_for_votes
      ∙ bind-ok _ _ (validate_option-run event_id s option_id can.option_belongs)
      ∙ bind-ok _ _ (validate_criteria-run event_id s criterion_ids can.ranking)
      ∙ bind-ok _ _ (bind-query _ _ ∙ scalar_one_or_none-run _ s can.one_vote)
      ∙ bind-query _ _
      ∙ bind-ok _ _ (utc_now-run s)
      ∙ bind-ok _ _ (
          transaction-ok _ (
            replace_vote-run event_id user_id option_id criterion_ids s can.option_belongs
              can.ranking can.one_vote))
      ∙ refl
    where
      open_for_votes :
          raise_if (not (is_in_progress e.event_status)) (validation "Event not in progress") s
          ≡ (ok tt, s)
      open_for_votes = ground (arith, can.in_progress)

  -- The user's rows after the vote.
  own_vote :
      CanVote event_id user_id option_id criterion_ids e s.working
      → user_option_votes event_id user_id voted.working
        ≡ cast_vote user_id option_id s.clock s.working.next_id ∷ []
  unfolding option_of
  own_vote can =
      where_rows-one (is_user_vote event_id user_id s.working) _ _
        (ground (arith, can.option_belongs, ==_refl user_id))
        (kept_votes-nil event_id user_id s.working)

  own_order :
      CanVote event_id user_id option_id criterion_ids e s.working
      → map criterion_id_of (user_criterion_priorities event_id user_id voted.working)
        ≡ criterion_ids
  unfolding criterion_of
  own_order can =
      order_by_asc-ranked user_id s.clock (is_user_priority event_id user_id s.working) 1 _
        criterion_ids _ (rw (kept_priorities-nil event_id user_id s.working) tt)
        (λ i n.
          All-map _ _ criterion_ids (λ c k. ground (arith, k, ==_refl user_id)) can.ranking.belong)
      ∙ ap (λ l. map criterion_id_of (order_by_asc rank_of l) ++ criterion_ids)
          (kept_priorities-nil event_id user_id s.working)

  own_times :
      CanVote event_id user_id option_id criterion_ids e s.working
      → All
          (λ p. p.updated_at ≡ some s.clock)
          (user_criterion_priorities event_id user_id voted.working)
  unfolding criterion_of
  own_times can = order_by_asc-All rank_of _ _ (
      ranked-All user_id s.clock (is_user_priority event_id user_id s.working) _ 1 _ criterion_ids _
        (λ i n c. refl) (rw (kept_priorities-nil event_id user_id s.working) tt))

  -- While the event is in progress, an accepted member who names an option of the event and ranks
  -- each of its active criteria once, and who has at most one vote so far, always succeeds: the vote
  -- is committed, and get_user_vote then shows exactly that option and that order, at that time.
  pub execute_vote-get_user_vote :
      CanVote event_id user_id option_id criterion_ids e s.working
      → (t : Session) × (v : VoteView) × (execute_vote event_id user_id option_id criterion_ids s
          ≡ (ok (vote_response option_id criterion_ids s.clock), t))
        × (t.committed ≡ t.working)
        × (get_user_vote event_id user_id t ≡ (ok v, t))
        × (v.option_id ≡ some option_id)
        × (v.criterion_order ≡ criterion_ids)
        × (v.created_at ≡ some s.clock)
        × (v.updated_at ≡ some s.clock)
  unfolding event_of get_user_vote get_user_option_vote get_user_criterion_priorities
      scalar_one_or_none pure
  execute_vote-get_user_vote can = (
    voted,
    _,
    execute_vote-run can,
    refl,
    bind-ok _ _
          (validate_membership_accepted-run event_id voted user_id can.one_membership can.accepted)
        ∙ bind-ok _ _ (get_event_with_all_relations-run event_id voted e can.event_found)
        ∙ bind-query _ _
        ∙ bind-query _ _
        ∙ bind-ok _ _ (bind-query _ _ ∙ ap (λ l. scalar_one_or_none l voted) (own_vote can))
        ∙ bind-query _ _
        ∙ refl,
    refl,
    own_order can,
    refl,
    ap some (latest-same s.clock _ (own_times can)),
  )
