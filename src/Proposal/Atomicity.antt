-- ===== src/Proposal/Atomicity.antt =====
-- The use cases of proposal/core/ when they raise, for any callbacks that leave the commit to the
-- transaction.
use madcamp_w2_decision_make.Prelude.{ℕ, Option}
use madcamp_w2_decision_make.Session.{Action}
use madcamp_w2_decision_make.Model.{ProposalStatusType, Event, Proposal, ProposalVote}
use madcamp_w2_decision_make.Session.Atomic.{
  Uncommitting, Total, Atomic, Uncommitting-bind, Uncommitting-if, Atomic-bind, Atomic-then,
  Uncommitting-utc_now, Uncommitting-raise_if, Uncommitting-or_raise, Atomic-transaction,
  Total-bind, Uncommitting-pure, Total-pure,
}
use madcamp_w2_decision_make.Proposal.ApprovalUseCase.{decide_block, update_status, decide}
use madcamp_w2_decision_make.Proposal.VoteUseCase.{delete_vote, create_vote}

module _ {C : Type 0} (event_id proposal_id user_id : ℕ) (validate_event_fn : ℕ → Action Event)
    (get_proposal_fn : ℕ → Action (Option (Proposal C)))
    (validate_proposal_pending_fn : Option (Proposal C) → ℕ → Action (Proposal C))
    (auto_approve_fn : Proposal C → Event → Action (Unit {0})) (count_votes_fn : ℕ → Action ℕ)
    (ev : (i : ℕ) → Uncommitting (validate_event_fn i))
    (gp : (i : ℕ) → Uncommitting (get_proposal_fn i))
    (vp : (o : Option (Proposal C)) (i : ℕ) → Uncommitting (validate_proposal_pending_fn o i))
    (aa : (p : Proposal C) (e : Event) → Uncommitting (auto_approve_fn p e))
    (cv : (i : ℕ) → Total (count_votes_fn i)) where
  pub create_vote-Atomic :
      (check_duplicate_fn : ℕ → ℕ → Action (Unit {0}))
      (create_vote_fn : ℕ → ℕ → Action ProposalVote)
      → ((i j : ℕ) → Uncommitting (check_duplicate_fn i j))
      → ((i j : ℕ) → Uncommitting (create_vote_fn i j))
      → Atomic (
          create_vote event_id proposal_id user_id validate_event_fn get_proposal_fn
            validate_proposal_pending_fn check_duplicate_fn create_vote_fn auto_approve_fn
            count_votes_fn)
  unfolding create_vote
  create_vote-Atomic check_duplicate_fn create_vote_fn cd cr = Atomic-bind _ _ (ev event_id) λ e.
      Atomic-bind _ _ (gp proposal_id) λ o. Atomic-bind _ _ (vp o event_id) λ p.
        Atomic-bind _ _ (cd proposal_id user_id) λ u.
          Atomic-then _ _
            (Atomic-transaction _ (
              Uncommitting-bind _ _ (cr proposal_id user_id)
                λ v. Uncommitting-bind _ _ (aa p e) λ w. Uncommitting-pure v))
            λ v. Total-bind _ _ (cv p.id) λ n. Total-pure _

  pub delete_vote-Atomic :
      (get_vote_fn : ℕ → ℕ → Action ProposalVote)
      (delete_vote_fn : ProposalVote → Action (Unit {0}))
      → ((i j : ℕ) → Uncommitting (get_vote_fn i j))
      → ((v : ProposalVote) → Uncommitting (delete_vote_fn v))
      → Atomic (
          delete_vote event_id proposal_id user_id validate_event_fn get_proposal_fn
            validate_proposal_pending_fn get_vote_fn delete_vote_fn auto_approve_fn count_votes_fn)
  unfolding delete_vote
  delete_vote-Atomic get_vote_fn delete_vote_fn gv dv = Atomic-bind _ _ (ev event_id) λ e.
      Atomic-bind _ _ (gp proposal_id) λ o. Atomic-bind _ _ (vp o event_id) λ p.
        Atomic-bind _ _ (gv proposal_id user_id) λ v.
          Atomic-then _ _ (Atomic-transaction _ (Uncommitting-bind _ _ (dv v) λ w. aa p e))
            λ u. Total-bind _ _ (cv p.id) λ n. Total-pure _

module _ {C R : Type 0} (event_id proposal_id : ℕ) (status : ProposalStatusType) (user_id : ℕ)
    (verify_admin_fn : ℕ → ℕ → Action Event) (get_proposal_fn : ℕ → Action (Option (Proposal C)))
    (belongs_fn : Proposal C → ℕ → Action (Unit {0}))
    (approve_fn : ℕ → ℕ → Action (Option (Proposal C)))
    (reject_fn : ℕ → Action (Option (Proposal C)))
    (apply_fn : Proposal C → Event → Action (Unit {0}))
    (outbox_fn : Proposal C → Event → ProposalStatusType → Action (Unit {0}))
    (response_fn : Proposal C → ℕ → Action R) where
  pub decide_block-Uncommitting :
      ((i j : ℕ) → Uncommitting (approve_fn i j))
      → ((i : ℕ) → Uncommitting (reject_fn i))
      → ((p : Proposal C) (e : Event) → Uncommitting (apply_fn p e))
      → ((p : Proposal C) (e : Event) → Uncommitting (outbox_fn p e status))
      → (p : Proposal C) (e : Event)
      → Uncommitting (
          decide_block event_id proposal_id status user_id verify_admin_fn get_proposal_fn
            belongs_fn approve_fn reject_fn apply_fn outbox_fn response_fn p e)
  unfolding decide_block decide
  decide_block-Uncommitting ap rj al ob p e =
      Uncommitting-bind _ _
        (Uncommitting-if _ _ _
          (Uncommitting-bind _ _ Uncommitting-utc_now (λ now. ap proposal_id now)) (rj proposal_id))
        λ o. Uncommitting-bind _ _ (Uncommitting-or_raise o _) λ u.
          Uncommitting-bind _ _ (Uncommitting-if _ _ _ (al u e) (Uncommitting-pure tt))
            λ w. Uncommitting-bind _ _ (ob u e) λ x. Uncommitting-pure u

  pub update_status-Atomic :
      ((i j : ℕ) → Uncommitting (verify_admin_fn i j))
      → ((i : ℕ) → Uncommitting (get_proposal_fn i))
      → ((p : Proposal C) (i : ℕ) → Uncommitting (belongs_fn p i))
      → ((p : Proposal C) (e : Event)
          → Uncommitting (
              decide_block event_id proposal_id status user_id verify_admin_fn get_proposal_fn
                belongs_fn approve_fn reject_fn apply_fn outbox_fn response_fn p e))
      → ((p : Proposal C) (i : ℕ) → Total (response_fn p i))
      → Atomic (
          update_status event_id proposal_id status user_id verify_admin_fn get_proposal_fn
            belongs_fn approve_fn reject_fn apply_fn outbox_fn response_fn)
  unfolding update_status
  update_status-Atomic va gp bl db br = Atomic-bind _ _ (Uncommitting-raise_if _ _) λ w.
      Atomic-bind _ _ (va event_id user_id) λ e. Atomic-bind _ _ (gp proposal_id) λ o.
        Atomic-bind _ _ (Uncommitting-or_raise o _) λ p.
          Atomic-bind _ _ (bl p event_id)
            λ x. Atomic-then _ _ (Atomic-transaction _ (db p e)) λ u. br u user_id
