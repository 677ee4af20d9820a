-- ===== src/Proposal/AutoApproval.antt =====
-- proposal/core/auto_approval.py: AutoApprovalChecker.
use madcamp_w2_decision_make.Model.{Proposal, Event, is_proposal_pending}
use madcamp_w2_decision_make.Prelude.{
  ℕ, Option, Bool, if◌then◌else◌, some, leb, not, none, false, ◌==◌, ◌&&◌,
}
use madcamp_w2_decision_make.Session.{Action, pure, ◌>>=◌, utc_now, ◌>>◌}
use madcamp_w2_decision_make.Proposal.Percent.{reaches}

-- The vote counts against the minimum, or else the percentage against the threshold.
unfoldable pub is_reached : ℕ → Option ℕ → Option ℕ → Option ℕ → Bool
is_reached vote_count (some min_votes_required) threshold total_members =
    leb min_votes_required vote_count
is_reached vote_count none none total_members = false
is_reached vote_count none (some threshold) none = false
is_reached vote_count none (some threshold) (some total_members) =
    not (total_members == 0) && reaches vote_count total_members threshold

module _ {C : Type 0} (proposal : Proposal C) (event : Event) (vote_count : ℕ)
    (approve_if_pending_fn : ℕ → ℕ → Action (Option (Proposal C)))
    (apply_proposal_fn : Proposal C → Event → Action (Unit {0}))
    (create_outbox_event_fn : Proposal C → Event → Action (Unit {0})) where
  -- `if approved_proposal:` with its block. The refresh reads relations that only later code uses.
  unfoldable pub apply_approved : Option (Proposal C) → Action (Unit {0})
  apply_approved none = pure tt
  apply_approved (some approved_proposal) = do
    apply_proposal_fn approved_proposal event
    create_outbox_event_fn approved_proposal event

  unfoldable pub approve_and_apply : Action (Unit {0})
  approve_and_apply = do
    accepted_at ← utc_now
    approved_proposal ← approve_if_pending_fn proposal.id accepted_at
    apply_approved approved_proposal

  unfoldable pub check_and_auto_approve : Option ℕ → Option ℕ → Option ℕ → Bool → Action (Unit {0})
  check_and_auto_approve min_votes_required approval_threshold_percent total_members
        is_auto_approved =
      if not (is_proposal_pending proposal.proposal_status)
      then pure tt
      else if not is_auto_approved
      then pure tt
      else if is_reached vote_count min_votes_required approval_threshold_percent total_members
      then approve_and_apply
      else pure tt
