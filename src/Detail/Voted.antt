-- ===== src/Detail/Voted.antt =====
-- Which proposals of a list a user has voted on, in get_event_detail: the keys of the dictionary of
-- the user's votes against a look at the table for each proposal.
use madcamp_w2_decision_make.Prelude.{
  ℕ, true, ◌≡◌, refl, List, [], ◌∷◌, map, where_rows, first_row, is_some, contains, arith,
}
use madcamp_w2_decision_make.Model.{Database, ProposalVote}
use madcamp_w2_decision_make.Repositories.ProposalVotes.{VoteTable, has_voted, is_vote_of}
use madcamp_w2_decision_make.Repositories.ProposalLists.{is_vote_among, voted_among}

proposals_voted :
    (id user_id : ℕ) (ids : List ℕ) (vs : List ProposalVote)
    → contains id ids ≡ true
    → contains id (map (λ v. v.proposal_id) (where_rows (is_vote_among ids user_id) vs))
      ≡ is_some (first_row (where_rows (is_vote_of id user_id) vs))
proposals_voted id user_id ids [] h = refl
proposals_voted id user_id ids (v ∷ vs) h = ground (arith, h, proposals_voted id user_id ids vs h)

-- For a proposal of the list.
pub contains-voted_among :
    (votes : VoteTable) (id user_id : ℕ) (ids : List ℕ) (d : Database)
    → contains id ids ≡ true
    → contains id (voted_among votes ids user_id d) ≡ has_voted votes id user_id d
unfolding voted_among
contains-voted_among votes id user_id [] d h = absurd (ground (arith, h))
contains-voted_among votes id user_id (x ∷ ids) d h =
    proposals_voted id user_id (x ∷ ids) (votes.rows d) h
