-- ===== src/Detail/Page.antt =====
-- get_event_detail and the direct reading of the tables.
use madcamp_w2_decision_make.Prelude.{ℕ, true, ◌≡◌, ◌∙◌, ◌≤◌, Option, some, map, where_rows, length}
use madcamp_w2_decision_make.Model.{Event}
use madcamp_w2_decision_make.Session.{Session, ok, pure}
use madcamp_w2_decision_make.Session.Runs.{bind-ok, bind-query}
use madcamp_w2_decision_make.BaseService.{is_accepted_status}
use madcamp_w2_decision_make.Repositories.Events.{
  event_of, membership_status_of, is_membership_of, count_accepted_members,
}
use madcamp_w2_decision_make.Repositories.Votes.{is_criterion_in, count_voted_users}
use madcamp_w2_decision_make.Repositories.ProposalVotes.{assumption_votes, criterion_votes}
use madcamp_w2_decision_make.Repositories.ProposalLists.{
  assumption_proposals_in, criteria_proposals_in, get_assumption_proposals_by_event_id,
  get_criteria_proposals_by_event_id, get_user_votes_on_proposals,
}
use madcamp_w2_decision_make.Detail.Groups.{User, on_assumption, on_criterion}
use madcamp_w2_decision_make.Detail.Service.{get_event_detail, is_assumption_in}
use madcamp_w2_decision_make.Detail.Conclusions.{collect_conclusions-run}
use madcamp_w2_decision_make.Vote.Checks.{
  get_event_with_all_relations-run, validate_membership_accepted-run,
}
use madcamp_w2_decision_make.Detail.Reading.{page_of}
use madcamp_w2_decision_make.Detail.Shown.{creations_shown, assumption_shown, criteria_shown}

-- For an accepted member of an event, who has at most one membership in it, get_event_detail
-- returns the direct reading of the tables and changes nothing: each assumption and criterion of the
-- event comes with the proposals to change or delete it, newest first, and with the times at which
-- the first proposed of its applied changes, and of its applied deletions, were applied; the
-- proposals for new ones come apart; and each proposal has its number of votes and whether the
-- user's is one of them.
pub get_event_detail-run :
    (users : ℕ → Option User) (event_id user_id : ℕ) (e : Event) (s : Session)
    → event_of event_id s.working ≡ some e
    → length (where_rows (is_membership_of user_id event_id) s.working.memberships) ≤ 1
    → is_accepted_status (membership_status_of user_id event_id s.working) ≡ true
    → get_event_detail users event_id user_id s
      ≡ (ok (page_of users user_id s.working e event_id), s)
unfolding get_event_detail get_assumption_proposals_by_event_id get_criteria_proposals_by_event_id
    get_user_votes_on_proposals count_accepted_members count_voted_users pure
get_event_detail-run users event_id user_id e s found one accepted =
    let cs = where_rows (is_criterion_in event_id) s.working.criteria in
    bind-ok _ _ (get_event_with_all_relations-run event_id s e found)
    ∙ bind-query _ _
    ∙ bind-query _ _
    ∙ bind-query _ _
    ∙ bind-ok _ _ (validate_membership_accepted-run event_id s user_id one accepted)
    ∙ bind-query _ _
    ∙ bind-query _ _
    ∙ bind-query _ _
    ∙ bind-query _ _
    ∙ bind-ok _ _ (collect_conclusions-run cs s)
    ∙ bind-query _ _
    ∙ bind-query _ _
    ∙ bind-query _ _
    ∙ bind-query _ _
    ∙ (λ i. (
      ok record (page_of users user_id s.working e event_id) {
        assumptions =
            map (λ a. assumption_shown users user_id s.working event_id a i)
              (where_rows (is_assumption_in event_id) s.working.assumptions);
        criteria = criteria_shown users user_id s.working event_id cs i;
        assumption_creation_proposals =
            creations_shown users user_id s.working on_assumption assumption_votes
              (assumption_proposals_in event_id s.working) i;
        criteria_creation_proposals =
            creations_shown users user_id s.working on_criterion criterion_votes
              (criteria_proposals_in event_id s.working) i;
      },
      s,
    ))
