-- ===== src/Repositories/ProposalLists.antt =====
-- app/repositories/proposal/: the lists of proposals for a page, newest first, and the votes of a
-- user on the proposals of a list. The joined rows are read from their tables where they are used.
use madcamp_w2_decision_make.Prelude.{
  ℕ, Bool, List, [], ◌∷◌, ◌==◌, ◌&&◌, where_rows, map, contains, order_by_desc,
}
use madcamp_w2_decision_make.Model.{
  Database, Proposal, AssumptionProposal, CriteriaProposal, ConclusionProposal, ProposalVote,
}
use madcamp_w2_decision_make.Session.{Action, query}
use madcamp_w2_decision_make.Repositories.ProposalVotes.{VoteTable}

-- ORDER BY created_at DESC
abbrev pub newest_first : {C : Type 0} → List (Proposal C) → List (Proposal C)
newest_first ps = order_by_desc (λ p. p.created_at) ps

abbrev pub assumption_proposals_in : ℕ → Database → List AssumptionProposal
assumption_proposals_in event_id d =
    newest_first (where_rows (λ p. p.columns.event_id == event_id) d.assumption_proposals)

abbrev pub criteria_proposals_in : ℕ → Database → List CriteriaProposal
criteria_proposals_in event_id d =
    newest_first (where_rows (λ p. p.columns.event_id == event_id) d.criteria_proposals)

abbrev pub conclusion_proposals_on : ℕ → Database → List ConclusionProposal
conclusion_proposals_on criterion_id d =
    newest_first (where_rows (λ p. p.columns.criterion_id == criterion_id) d.conclusion_proposals)

unfoldable pub get_assumption_proposals_by_event_id : ℕ → Action (List AssumptionProposal)
get_assumption_proposals_by_event_id event_id = query (assumption_proposals_in event_id)

unfoldable pub get_criteria_proposals_by_event_id : ℕ → Action (List CriteriaProposal)
get_criteria_proposals_by_event_id event_id = query (criteria_proposals_in event_id)

unfoldable pub get_conclusion_proposals_by_criterion_id : ℕ → Action (List ConclusionProposal)
get_conclusion_proposals_by_criterion_id criterion_id = query (conclusion_proposals_on criterion_id)

-- The keys of the dictionary that the query of a user's votes returns.
abbrev pub is_vote_among : List ℕ → ℕ → ProposalVote → Bool
is_vote_among ids user_id v = contains v.proposal_id ids && v.created_by == user_id

unfoldable pub voted_among : VoteTable → List ℕ → ℕ → Database → List ℕ
voted_among votes [] user_id d = []
voted_among votes (id ∷ ids) user_id d =
    map (λ v. v.proposal_id) (where_rows (is_vote_among (id ∷ ids) user_id) (votes.rows d))

-- get_user_votes_on_assumption_proposals and the two like it, at their tables of votes.
unfoldable pub get_user_votes_on_proposals : VoteTable → List ℕ → ℕ → Action (List ℕ)
unfolding voted_among
get_user_votes_on_proposals votes ids user_id = query (voted_among votes ids user_id)
