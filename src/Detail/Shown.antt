-- ===== src/Detail/Shown.antt =====
-- The parts of the response of get_event_detail against the direct reading of the tables.
use madcamp_w2_decision_make.Prelude.{
  ℕ, Bool, true, ◌≡◌, ◌∙◌, ap, Option, some, List, [], map, where_rows, contains, All, All-map,
  All-zip, All-where_rows, map-All, contains-keys,
}
use madcamp_w2_decision_make.Model.{
  Database, Assumption, Criterion, Proposal, CriteriaProposal, AssumptionProposal,
}
use madcamp_w2_decision_make.Repositories.ProposalVotes.{
  VoteTable, vote_count_of, assumption_votes, criterion_votes, conclusion_votes,
}
use madcamp_w2_decision_make.Repositories.ProposalLists.{
  assumption_proposals_in, criteria_proposals_in, conclusion_proposals_on, voted_among,
}
use madcamp_w2_decision_make.Detail.Groups.{
  User, ProposalInfo, Targeted, on_assumption, on_criterion, get_list, get_applied, group_proposals,
  applied_at_map, proposal_info, empty_groups,
}
use madcamp_w2_decision_make.Detail.Service.{
  conclusion_info, ids_of, all_conclusions, assumption_with_proposals, criterion_with_proposals,
}
use madcamp_w2_decision_make.Detail.Grouping.{
  changes, creates, get_list-group_proposals, creations-group_proposals,
}
use madcamp_w2_decision_make.Detail.Times.{
  is_modification, is_deletion, modified-applied_at_map, deleted-applied_at_map,
}
use madcamp_w2_decision_make.Detail.Voted.{contains-voted_among}
use madcamp_w2_decision_make.Detail.Conclusions.{
  collected, get_list-collected, all_conclusions-collected,
}
use madcamp_w2_decision_make.Detail.Reading.{
  shown, shown_conclusion, shown_assumption, shown_criterion, applied_time,
}

module _ (users : ℕ → Option User) (user_id : ℕ) (d : Database) where
  module _ {C : Type 0} (kind : Targeted C) (votes : VoteTable) (ps : List (Proposal C)) where
    abbrev info : Proposal C → ProposalInfo
    info = proposal_info kind users votes (voted_among votes (ids_of ps) user_id d) d

    info-shown :
        (p : Proposal C)
        → contains p.id (ids_of ps) ≡ true
        → info p ≡ shown users user_id d kind votes p
    unfolding proposal_info
    info-shown p h =
        ap
          (λ b. record (proposal_info kind users votes [] d p) {
            vote_info = record { vote_count = vote_count_of votes p.id d; has_voted = b };
          })
          (contains-voted_among votes p.id user_id (ids_of ps) d h)

    all_shown :
        (q : Proposal C → Bool)
        → map info (where_rows q ps) ≡ map (shown users user_id d kind votes) (where_rows q ps)
    all_shown q =
        map-All _ _ (where_rows q ps)
          (All-where_rows _ q ps (All-map _ _ ps info-shown (contains-keys (λ p. p.id) ps)))

    group_shown :
        (id : ℕ)
        → get_list (some id) (group_proposals kind info ps empty_groups).by_id
          ≡ map (shown users user_id d kind votes) (where_rows (changes kind id) ps)
    unfolding get_list
    group_shown id =
        get_list-group_proposals kind info id ps empty_groups ∙ all_shown (changes kind id)

    pub creations_shown :
        (group_proposals kind info ps empty_groups).creation_proposals
        ≡ map (shown users user_id d kind votes) (where_rows (creates kind) ps)
    creations_shown = creations-group_proposals kind info ps empty_groups ∙ all_shown (creates kind)

    modified_shown :
        (id : ℕ)
        → (get_applied (some id) (applied_at_map kind ps [])).modified_at
          ≡ applied_time users user_id d kind is_modification id ps
    unfolding get_applied
    modified_shown id = modified-applied_at_map kind id ps []

    deleted_shown :
        (id : ℕ)
        → (get_applied (some id) (applied_at_map kind ps [])).deleted_at
          ≡ applied_time users user_id d kind is_deletion id ps
    unfolding get_applied
    deleted_shown id = deleted-applied_at_map kind id ps []

  module _ (event_id : ℕ) where
    abbrev assumption_list : List AssumptionProposal
    assumption_list = assumption_proposals_in event_id d

    abbrev criteria_list : List CriteriaProposal
    criteria_list = criteria_proposals_in event_id d

    pub assumption_shown :
        (a : Assumption)
        → assumption_with_proposals
            (group_proposals on_assumption
              (info on_assumption assumption_votes assumption_list)
              assumption_list
              empty_groups).by_id
            (applied_at_map on_assumption assumption_list [])
            a
          ≡ shown_assumption users user_id d event_id a
    assumption_shown a = λ i. record (shown_assumption users user_id d event_id a) {
      modified_at = modified_shown on_assumption assumption_votes assumption_list a.id i;
      deleted_at = deleted_shown on_assumption assumption_votes assumption_list a.id i;
      proposals = group_shown on_assumption assumption_votes assumption_list a.id i;
    }

    -- The conclusion proposals of a criterion, as the loop over the criteria shows them.
    conclusions_shown :
        (cs : List Criterion) (c : Criterion)
        → (get_list (some c.id) (collected cs d) ≡ conclusion_proposals_on c.id d)
          × All
              (λ p. contains p.id (ids_of (all_conclusions (collected cs d))) ≡ true)
              (conclusion_proposals_on c.id d)
        → map
            (conclusion_info users
              (voted_among conclusion_votes (ids_of (all_conclusions (collected cs d))) user_id d)
              d)
            (get_list (some c.id) (collected cs d))
          ≡ map (shown_conclusion users user_id d) (conclusion_proposals_on c.id d)
    conclusions_shown cs c (at, known) =
        ap (map _) at
        ∙ map-All _ _ (conclusion_proposals_on c.id d) (
            All-map _ _ _
              (λ p h.
                ap
                  (λ b. record (conclusion_info users [] d p) {
                    vote_info = record {
                      vote_count = vote_count_of conclusion_votes p.id d;
                      has_voted = b;
                    };
                  })
                  (contains-voted_among conclusion_votes p.id user_id _ d h))
              known)

    criterion_shown :
        (cs : List Criterion) (c : Criterion)
        → (get_list (some c.id) (collected cs d) ≡ conclusion_proposals_on c.id d)
          × All
              (λ p. contains p.id (ids_of (all_conclusions (collected cs d))) ≡ true)
              (conclusion_proposals_on c.id d)
        → criterion_with_proposals
            (group_proposals on_criterion
              (info on_criterion criterion_votes criteria_list)
              criteria_list
              empty_groups).by_id
            (applied_at_map on_criterion criteria_list [])
            (map (
              conclusion_info users
                (voted_among conclusion_votes (ids_of (all_conclusions (collected cs d))) user_id d)
                d))
            (collected cs d)
            c
          ≡ shown_criterion users user_id d event_id c
    criterion_shown cs c known = λ i. record (shown_criterion users user_id d event_id c) {
      modified_at = modified_shown on_criterion criterion_votes criteria_list c.id i;
      deleted_at = deleted_shown on_criterion criterion_votes criteria_list c.id i;
      proposals = group_shown on_criterion criterion_votes criteria_list c.id i;
      conclusion_proposals = conclusions_shown cs c known i;
    }

    pub criteria_shown :
        (cs : List Criterion)
        → map
            (criterion_with_proposals
              (group_proposals on_criterion
                (info on_criterion criterion_votes criteria_list)
                criteria_list
                empty_groups).by_id
              (applied_at_map on_criterion criteria_list [])
              (map (
                conclusion_info users
                  (voted_among conclusion_votes
                    (ids_of (all_conclusions (collected cs d)))
                    user_id
                    d)
                  d))
              (collected cs d))
            cs
          ≡ map (shown_criterion users user_id d event_id) cs
    criteria_shown cs = map-All _ _ cs (
        All-map _ _ cs (criterion_shown cs)
          (All-zip _ _ cs (get_list-collected cs d) (all_conclusions-collected cs d)))
