-- ===== src/Repositories/ProposalVotes.antt =====
-- app/repositories/proposal/: the votes on proposals.
use madcamp_w2_decision_make.Prelude.{
  ℕ, count_rows, ◌∷◌, List, Bool, Option, String, is_some, ◌==◌, ◌&&◌, delete_by_id, first_row,
  where_rows,
}
use madcamp_w2_decision_make.Model.{Database, ProposalVote}
use madcamp_w2_decision_make.Session.{
  Action, write, query, ◌>>=◌, ◌>>◌, raise_if, integrity, utc_now, uuid4, pure,
}
use madcamp_w2_decision_make.Repositories.Events.{scalar_one_or_none}

-- A table of votes on proposals, with the name of its unique constraint on proposal and voter.
pub record VoteTable : Type 0 where
  pub rows : Database → List ProposalVote
  pub put : List ProposalVote → Database → Database
  pub one_vote_each : String

abbrev pub assumption_votes : VoteTable
assumption_votes = record {
  rows = λ d. d.assumption_proposal_votes;
  put = λ l d. record d { assumption_proposal_votes = l };
  one_vote_each = "uq_assumption_proposal_votes_proposal_user";
}

abbrev pub criterion_votes : VoteTable
criterion_votes = record {
  rows = λ d. d.criterion_proposal_votes;
  put = λ l d. record d { criterion_proposal_votes = l };
  one_vote_each = "uq_criterion_proposal_votes_proposal_user";
}

abbrev pub conclusion_votes : VoteTable
conclusion_votes = record {
  rows = λ d. d.conclusion_proposal_votes;
  put = λ l d. record d { conclusion_proposal_votes = l };
  one_vote_each = "uq_conclusion_proposal_votes_proposal_user";
}

abbrev pub vote_key : ProposalVote → ℕ
vote_key v = v.id

abbrev pub is_vote_on : ℕ → ProposalVote → Bool
is_vote_on proposal_id v = v.proposal_id == proposal_id

abbrev pub is_vote_of : ℕ → ℕ → ProposalVote → Bool
is_vote_of proposal_id user_id v = v.proposal_id == proposal_id && v.created_by == user_id

module _ (votes : VoteTable) where
  -- How many votes a proposal has.
  abbrev pub vote_count_of : ℕ → Database → ℕ
  vote_count_of proposal_id d = count_rows (is_vote_on proposal_id) (votes.rows d)

  -- How many of them are a given user's.
  abbrev pub votes_by : ℕ → ℕ → Database → ℕ
  votes_by proposal_id user_id d = count_rows (is_vote_of proposal_id user_id) (votes.rows d)

  -- `db.refresh(proposal, ['votes'])` and then `len(proposal.votes)`.
  unfoldable pub count_votes : ℕ → Action ℕ
  count_votes proposal_id = query (vote_count_of proposal_id)

  unfoldable pub get_user_vote : ℕ → ℕ → Action (Option ProposalVote)
  get_user_vote proposal_id user_id = do
    rows ← query (λ d. where_rows (is_vote_of proposal_id user_id) (votes.rows d))
    scalar_one_or_none rows

  abbrev pub add_vote : ProposalVote → Database → Database
  add_vote v d = votes.put (v ∷ votes.rows d) d

  abbrev pub has_voted : ℕ → ℕ → Database → Bool
  has_voted proposal_id user_id d =
      is_some (first_row (where_rows (is_vote_of proposal_id user_id) (votes.rows d)))

  unfoldable pub create_proposal_vote : ℕ → ℕ → Action ProposalVote
  create_proposal_vote proposal_id user_id = do
    taken ← query (has_voted proposal_id user_id)
    raise_if taken (integrity votes.one_vote_each)
    now ← utc_now
    id ← uuid4
    let vote : ProposalVote = record {
      id = id;
      proposal_id = proposal_id;
      created_at = now;
      created_by = user_id;
    }
    write (add_vote vote)
    pure vote

  unfoldable pub delete_proposal_vote : ProposalVote → Action (Unit {0})
  delete_proposal_vote v = write (λ d. votes.put (delete_by_id vote_key v.id (votes.rows d)) d)
