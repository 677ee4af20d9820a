-- ===== src/Proposal/VoteUseCase.antt =====
-- proposal/core/vote_usecase.py: VoteUseCase, with its callbacks as arguments. A callback that
-- checks a row returns it.
use madcamp_w2_decision_make.Prelude.{ℕ, String, Option}
use madcamp_w2_decision_make.Session.{Action, ◌>>=◌, ◌>>◌, transaction, pure}
use madcamp_w2_decision_make.Model.{Event, Proposal, ProposalVote}

-- The responses of the vote methods: AssumptionProposalVoteResponse and its siblings.
pub record VoteResponse : Type 0 where
  pub message : String
  pub vote_id : ℕ
  pub proposal_id : ℕ
  pub vote_count : ℕ

module _ {C : Type 0} (event_id proposal_id user_id : ℕ) (validate_event_fn : ℕ → Action Event)
    (get_proposal_fn : ℕ → Action (Option (Proposal C)))
    (validate_proposal_pending_fn : Option (Proposal C) → ℕ → Action (Proposal C)) where
  -- `count_votes_fn` is the refresh of `proposal.votes` with the `len` that follows.
  unfoldable pub create_vote :
      (ℕ → ℕ → Action (Unit {0}))
      → (ℕ → ℕ → Action ProposalVote)
      → (Proposal C → Event → Action (Unit {0}))
      → (ℕ → Action ℕ)
      → Action VoteResponse
  create_vote check_duplicate_fn create_vote_fn auto_approve_fn count_votes_fn = do
    event ← validate_event_fn event_id
    found ← get_proposal_fn proposal_id
    proposal ← validate_proposal_pending_fn found event_id
    check_duplicate_fn proposal_id user_id
    created_vote ←
        transaction (
          create_vote_fn proposal_id user_id >>= λ vote.
          auto_approve_fn proposal event >> pure vote)
    vote_count ← count_votes_fn proposal.id
    pure (record {
      message = "Vote created successfully";
      vote_id = created_vote.id;
      proposal_id = proposal_id;
      vote_count = vote_count;
    })

  unfoldable pub delete_vote :
      (ℕ → ℕ → Action ProposalVote)
      → (ProposalVote → Action (Unit {0}))
      → (Proposal C → Event → Action (Unit {0}))
      → (ℕ → Action ℕ)
      → Action VoteResponse
  delete_vote get_vote_fn delete_vote_fn auto_approve_fn count_votes_fn = do
    event ← validate_event_fn event_id
    found ← get_proposal_fn proposal_id
    proposal ← validate_proposal_pending_fn found event_id
    vote ← get_vote_fn proposal_id user_id
    transaction (delete_vote_fn vote >> auto_approve_fn proposal event)
    vote_count ← count_votes_fn proposal.id
    pure (record {
      message = "Vote deleted successfully";
      vote_id = vote.id;
      proposal_id = proposal_id;
      vote_count = vote_count;
    })
