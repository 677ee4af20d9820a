-- ===== src/Proposal/AssumptionVotes.antt =====
-- What a vote on a proposal of an assumption does to the table of votes.
use madcamp_w2_decision_make.Model.{
  Database, AssumptionProposal, ProposalVote, Event, is_proposal_pending,
}
use madcamp_w2_decision_make.Proposal.AutoApproval.{
  apply_approved, check_and_auto_approve, approve_and_apply, is_reached,
}
use madcamp_w2_decision_make.Proposal.Assumptions.{
  auto_approved_outbox, apply_assumption_proposal, auto_approve_assumption, create_assumption_vote,
  get_assumption_proposal_by_id, create_assumption_proposal_vote,
}
use madcamp_w2_decision_make.Repositories.Proposals.{
  update_if_pending, update_proposal_generic, approve_proposal_if_pending_generic, assumption_table,
  accept, get_proposal_by_id_generic, proposal_of, proposal_key,
}
use madcamp_w2_decision_make.Prelude.{
  refl, List, Option, ℕ, some, not, none, ◌≡◌, ◌∷◌, arith, ◌+◌, count_rows, ==_refl, sym, ap, ◌∙◌,
  key-find,
}
use madcamp_w2_decision_make.Session.Leaves.{
  Leaves, Leaves-pure, Leaves-bind, Leaves-utc_now, Leaves-query, Leaves-write, Leaves-if,
  Leaves-run,
}
use madcamp_w2_decision_make.Repositories.ProposalVotes.{
  count_votes, create_proposal_vote, assumption_votes, votes_by, vote_count_of, is_vote_of,
  is_vote_on,
}
use madcamp_w2_decision_make.Session.{Session, ◌>>=◌, ok}
use madcamp_w2_decision_make.Proposal.VoteUseCase.{create_vote, VoteResponse}
use madcamp_w2_decision_make.Session.Runs.{
  after, after_query, after_check, pure-inv, transaction-inv,
}
use madcamp_w2_decision_make.BaseService.Inversion.{validate_event_in_progress-inv}
use madcamp_w2_decision_make.Proposal.AssumptionGuards.{
  validate_proposal_pending-inv, check_duplicate_vote-inv, Open,
}
use madcamp_w2_decision_make.Proposal.AssumptionLeaves.{
  outbox-Leaves, vote_outbox-Leaves, apply_category-Leaves,
}

-- The part of the database that holds the votes.
abbrev votes : Database → List ProposalVote
votes d = d.assumption_proposal_votes

apply-Leaves : (p : AssumptionProposal) (e : Event) → Leaves votes (apply_assumption_proposal p e)
unfolding apply_assumption_proposal update_proposal_generic
apply-Leaves p e =
    Leaves-bind _ _
      (apply_category-Leaves votes (λ d. refl) (λ e d. refl) (λ i f d. refl) (λ a d. refl) _ p)
      λ target. Leaves-bind _ _ Leaves-utc_now λ now. Leaves-write _ (λ d. refl)

update_if_pending-Leaves :
    (f : AssumptionProposal → AssumptionProposal) (o : Option AssumptionProposal)
    → Leaves votes (update_if_pending assumption_table f o)
unfolding update_if_pending
update_if_pending-Leaves f none = Leaves-pure none
update_if_pending-Leaves f (some p) =
    Leaves-if (is_proposal_pending p.proposal_status) _ _
      (Leaves-bind _ _ (Leaves-write _ (λ d. refl)) λ u. Leaves-pure _) (Leaves-pure none)

apply_approved-Leaves :
    (p : AssumptionProposal) (e : Event) (n : ℕ) (o : Option AssumptionProposal)
    → Leaves votes (
        apply_approved p e n
          (approve_proposal_if_pending_generic assumption_table)
          apply_assumption_proposal
          auto_approved_outbox
          o)
unfolding apply_approved auto_approved_outbox
apply_approved-Leaves p e n none = Leaves-pure tt
apply_approved-Leaves p e n (some q) = Leaves-bind _ _ (apply-Leaves q e) λ x.
    Leaves-bind _ _
      (outbox-Leaves votes (λ d. refl) (λ e d. refl) (λ i f d. refl) (λ a d. refl) _ _ _)
      λ y. Leaves-pure tt

auto_approve-Leaves :
    (p : AssumptionProposal) (e : Event) → Leaves votes (auto_approve_assumption p e)
unfolding auto_approve_assumption check_and_auto_approve approve_and_apply count_votes
    approve_proposal_if_pending_generic
auto_approve-Leaves p e = Leaves-bind _ _ (Leaves-query _) λ n.
    Leaves-if (not (is_proposal_pending p.proposal_status)) _ _ (Leaves-pure tt) (
      Leaves-if (not e.assumption_is_auto_approved_by_votes) _ _ (Leaves-pure tt) (
        Leaves-if (is_reached n e.assumption_min_votes_required none none) _ _
          (Leaves-bind _ _ Leaves-utc_now λ now.
            Leaves-bind _ _
              (Leaves-bind _ _ (Leaves-query _) (update_if_pending-Leaves (accept now)))
              (apply_approved-Leaves p e n))
          (Leaves-pure tt)))

create_proposal_vote-inv :
    (pid uid : ℕ) (s : Session) {t : Session} {v : ProposalVote}
    → create_proposal_vote assumption_votes pid uid s ≡ (ok v, t)
    → (votes t.working ≡ v ∷ votes s.working) × (v.proposal_id ≡ pid) × (v.created_by ≡ uid)
unfolding create_proposal_vote ◌>>=◌
create_proposal_vote-inv pid uid s h = ground arith

create_assumption_vote-inv :
    (pid uid : ℕ) (s : Session) {t : Session} {v : ProposalVote}
    → create_assumption_vote pid uid s ≡ (ok v, t)
    → (votes t.working ≡ v ∷ votes s.working) × (v.proposal_id ≡ pid) × (v.created_by ≡ uid)
unfolding create_assumption_vote get_assumption_proposal_by_id get_proposal_by_id_generic
create_assumption_vote-inv pid uid s {t} {v} h = after _ _ h λ w s₁ p₁ h₁.
    let (added, on, by) = create_proposal_vote-inv pid uid s p₁ in
    after _ _ (after_query _ _ h₁) λ x s₂ p₂ h₂.
      let (same, still) = pure-inv h₂ in
      let left =
        Leaves-run votes _
          (vote_outbox-Leaves votes (λ d. refl) (λ e d. refl) (λ i f d. refl) (λ a d. refl) _ pid _)
          p₂ in
      (cc (same, still, left, added), cc (same, on), cc (same, by))

counted :
    (pid uid : ℕ) (w : ProposalVote) (old new : List ProposalVote)
    → new ≡ w ∷ old
    → w.proposal_id ≡ pid
    → w.created_by ≡ uid
    → count_rows (is_vote_of pid uid) old ≡ 0
    → (count_rows (is_vote_of pid uid) new ≡ 1)
      × (count_rows (is_vote_on pid) new ≡ count_rows (is_vote_on pid) old + 1)
counted pid uid w old new at on by zero_votes =
    ground (arith, at, on, by, zero_votes, ==_refl pid, ==_refl uid)

opened_id :
    (event_id proposal_id : ℕ) (p : AssumptionProposal) (d : Database)
    → Open event_id proposal_id p d
    → p.id ≡ proposal_id
unfolding proposal_of
opened_id event_id proposal_id p d opened =
    key-find proposal_key proposal_id p d.assumption_proposals opened.found

module _ (event_id proposal_id user_id : ℕ) (s : Session) where
  -- A vote on a proposal of an assumption that returns leaves the user with exactly one vote on the
  -- proposal and the proposal with one vote more, both committed, and reports the new number of
  -- votes, also when the vote has the proposal approved and applied.
  pub create_assumption_proposal_vote-votes :
      {r : VoteResponse} {t : Session}
      → create_assumption_proposal_vote event_id proposal_id user_id s ≡ (ok r, t)
      → (votes_by assumption_votes proposal_id user_id t.committed ≡ 1)
        × (vote_count_of assumption_votes proposal_id t.committed
            ≡ vote_count_of assumption_votes proposal_id s.working + 1)
        × (r.vote_count ≡ vote_count_of assumption_votes proposal_id t.committed)
  unfolding create_assumption_proposal_vote create_vote get_assumption_proposal_by_id
      get_proposal_by_id_generic count_votes
  create_assumption_proposal_vote-votes {r} {t} h =
      after_check _ _ _ (validate_event_in_progress-inv event_id s) h λ e p₁ h₁.
        after_check _ _ _ (validate_proposal_pending-inv event_id proposal_id user_id s _ refl)
          (after_query _ _ h₁)
          λ p opened h₂.
            after_check _ _ _ (check_duplicate_vote-inv event_id proposal_id user_id s) h₂
              λ x unvoted h₃. after _ _ h₃ λ v s₄ p₄ h₄.
                let (s₅, p₅, landing) = transaction-inv _ p₄ in
                after _ _ p₅ λ w s₆ p₆ h₆.
                  let (added, on, by) = create_assumption_vote-inv proposal_id user_id s p₆ in
                  after _ _ h₆ λ y s₇ p₇ h₇.
                    let left = Leaves-run votes _ (auto_approve-Leaves p e) p₇ in
                    let (same, still) = pure-inv h₇ in
                    let (result, ending) = pure-inv (after_query _ _ h₄) in
                    let own = opened_id event_id proposal_id p s.working opened in
                    let at : votes t.committed ≡ w ∷ votes s.working =
                      cc (ending, landing, still, left, added) in
                    let (one, more) = counted proposal_id user_id w _ _ at on by unvoted in
                    (one, more, sym (ap (λ x. x.vote_count) result) ∙ cc (landing, own))
