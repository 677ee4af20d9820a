-- ===== src/Proposal/ApprovalUseCase.antt =====
-- proposal/core/approval_usecase.py: ApprovalUseCase, with its callbacks as arguments.
use madcamp_w2_decision_make.Prelude.{ℕ, Bool, String, true, false, Option, if◌then◌else◌, not}
use madcamp_w2_decision_make.Model.{ProposalStatusType, Event, Proposal, is_proposal_accepted}
use madcamp_w2_decision_make.Session.{
  Action, ◌>>=◌, ◌>>◌, raise_if, or_raise, conflict, utc_now, pure, validation, not_found,
  transaction,
}

abbrev pub is_decision : ProposalStatusType → Bool
is_decision ProposalStatusType.accepted = true
is_decision ProposalStatusType.rejected = true
is_decision _ = false

-- The conflict that a failed conditional UPDATE reports. Only `votes` is refreshed, so the status
-- is the one that was loaded before.
abbrev pub status_conflict : ProposalStatusType → String
status_conflict ProposalStatusType.accepted = "Proposal already accepted"
status_conflict ProposalStatusType.rejected = "Proposal already rejected"
status_conflict _ = "Proposal status changed"

module _ {C R : Type 0} (event_id proposal_id : ℕ) (status : ProposalStatusType) (user_id : ℕ)
    (verify_admin_fn : ℕ → ℕ → Action Event) (get_proposal_fn : ℕ → Action (Option (Proposal C)))
    (validate_proposal_belongs_to_event_fn : Proposal C → ℕ → Action (Unit {0}))
    (approve_if_pending_fn : ℕ → ℕ → Action (Option (Proposal C)))
    (reject_if_pending_fn : ℕ → Action (Option (Proposal C)))
    (apply_proposal_fn : Proposal C → Event → Action (Unit {0}))
    (create_outbox_event_fn : Proposal C → Event → ProposalStatusType → Action (Unit {0}))
    (build_response_fn : Proposal C → ℕ → Action R) where
  unfoldable pub decide : Action (Option (Proposal C))
  decide =
      if is_proposal_accepted status
      then (utc_now >>= λ accepted_at. approve_if_pending_fn proposal_id accepted_at)
      else reject_if_pending_fn proposal_id

  -- The transaction of update_status.
  unfoldable pub decide_block : Proposal C → Event → Action (Proposal C)
  decide_block proposal event = do
    outcome ← decide
    updated ← or_raise outcome (conflict (status_conflict proposal.proposal_status))
    if is_proposal_accepted status then apply_proposal_fn updated event else pure tt
    create_outbox_event_fn updated event status
    pure updated

  unfoldable pub update_status : Action R
  update_status = do
    raise_if (not (is_decision status)) (validation "Invalid status")
    event ← verify_admin_fn event_id user_id
    found ← get_proposal_fn proposal_id
    proposal ← or_raise found (not_found "Proposal not found")
    validate_proposal_belongs_to_event_fn proposal event_id
    updated ← transaction (decide_block proposal event)
    build_response_fn updated user_id
