-- ===== src/Proposal/AssumptionsSettled.antt =====
-- Sequences of requests on proposals of assumptions, and the proposals that were decided.
use madcamp_w2_decision_make.Prelude.{
  List, ℕ, ◌∷◌, [], ◌≡◌, false, Option, String, some, not, none, refl,
}
use madcamp_w2_decision_make.Session.{Session, request, multiple_results}
use madcamp_w2_decision_make.Proposal.Assumptions.{
  validate_proposal_pending, check_duplicate_vote, validate_proposal_belongs_to_event,
  decision_outbox, build_response, create_assumption_proposal_vote, delete_assumption_proposal_vote,
  execute_update_assumption_proposal_status, apply_assumption_proposal, auto_approve_assumption,
  modify_target, apply_category, change_target, modify, vote_outbox, auto_approved_outbox,
  mark_applied, get_assumption_proposal_by_id, create_assumption_vote, get_assumption_vote,
  delete_assumption_vote,
}
use madcamp_w2_decision_make.Repositories.Events
use madcamp_w2_decision_make.Model.{
  ProposalStatusType, is_proposal_pending, Database, ProposalCategoryType, AssumptionProposal,
  Event, Assumption, Value, ProposalVote, is_proposal_accepted,
}
use madcamp_w2_decision_make.Repositories.Contents.{create_assumption, update_assumption}
use madcamp_w2_decision_make.Proposal.AutoApproval.{
  apply_approved, check_and_auto_approve, approve_and_apply, is_reached,
}
use madcamp_w2_decision_make.Repositories.Outbox.{create_outbox_event}
use madcamp_w2_decision_make.Repositories.Proposals.{
  proposal_of, assumption_table, approve_proposal_if_pending_generic, get_proposal_by_id_generic,
}
use madcamp_w2_decision_make.Proposal.Settled.{HasStatus, update-Keeps, approve-Keeps, reject-Keeps}
use madcamp_w2_decision_make.Session.Keeps.{
  Keeps, Keeps-bind, Keeps-pure, Keeps-or_raise, Keeps-query, Keeps-utc_now, Keeps-if, Keeps-write,
  Keeps-uuid4, Both, keeps_rules, Keeps-raise, Keeps-request, Keeps-raise_if, Keeps-transaction,
}
use madcamp_w2_decision_make.Repositories.ProposalVotes.{
  count_votes, get_user_vote, delete_proposal_vote, create_proposal_vote, assumption_votes,
}
use madcamp_w2_decision_make.BaseService.{
  verify_admin, validate_event_in_progress, get_event_with_all_relations,
}
use madcamp_w2_decision_make.Repositories.Events.{scalar_one_or_none}
use madcamp_w2_decision_make.Proposal.VoteUseCase.{delete_vote, create_vote}
use madcamp_w2_decision_make.Proposal.ApprovalUseCase.{update_status, decide_block, decide}

-- The requests: a vote, its withdrawal, and a decision of the admin.
pub data Request : Type 0 where
  vote : ℕ → ℕ → ℕ → Request
  withdraw : ℕ → ℕ → ℕ → Request
  decide_status : ℕ → ℕ → ProposalStatusType → ℕ → Request

-- The session after a request, whether it returned or raised.
unfoldable pub serve : Request → Session → Session
serve (Request.vote e p u) s = (request (create_assumption_proposal_vote e p u) s).1
serve (Request.withdraw e p u) s = (request (delete_assumption_proposal_vote e p u) s).1
serve (Request.decide_status e p st u) s =
    (request (execute_update_assumption_proposal_status e p st u) s).1

unfoldable pub serve_all : List Request → Session → Session
serve_all [] s = s
serve_all (r ∷ rs) s = serve_all rs (serve r s)

module _ (i : ℕ) (st : ProposalStatusType) (decided : is_proposal_pending st ≡ false) where
  abbrev Decided : Database → Type 0
  Decided = HasStatus assumption_table i st

  outbox-Keeps :
      (event_type : String) (payload : List (String × Value)) (event_id : ℕ)
      → Keeps Decided (create_outbox_event event_type payload event_id)
  unfolding create_outbox_event proposal_of
  outbox-Keeps event_type payload event_id = Keeps-bind _ _ Keeps-utc_now λ now.
      Keeps-bind _ _ (Keeps-uuid4 (λ d h. h))
        λ id. Keeps-bind _ _ (Keeps-write _ (λ d h. h)) λ u. Keeps-pure _

  change_target-Keeps :
      (f : Assumption → Assumption) (o : Option Assumption) (u : ℕ)
      → Keeps Decided (change_target f o u)
  unfolding change_target update_assumption proposal_of
  change_target-Keeps f none u = Keeps-pure none
  change_target-Keeps f (some a) u =
      Keeps-bind _ _ (Keeps-bind _ _ Keeps-utc_now λ now. Keeps-write _ (λ d h. h))
        λ x. Keeps-pure _

  modify_target-Keeps :
      (o : Option Assumption) (content : Option String) (u : ℕ)
      → Keeps Decided (modify_target o content u)
  unfolding modify_target
  modify_target-Keeps none content u = Keeps-pure none
  modify_target-Keeps (some a) content u =
      Keeps-bind _ _ (Keeps-or_raise _ _) λ text. change_target-Keeps (modify text) (some a) u

  create_assumption-Keeps :
      (e : ℕ) (content : Option String) (u : ℕ) → Keeps Decided (create_assumption e content u)
  unfolding create_assumption proposal_of
  create_assumption-Keeps e content u = Keeps-bind _ _ (Keeps-or_raise _ _) λ text.
      Keeps-bind _ _ (Keeps-uuid4 (λ d h. h))
        λ id. Keeps-bind _ _ (Keeps-write _ (λ d h. h)) λ x. Keeps-pure _

  apply_category-Keeps :
      (c : ProposalCategoryType) (p : AssumptionProposal) → Keeps Decided (apply_category c p)
  unfolding apply_category
  apply_category-Keeps ProposalCategoryType.creation p =
      Keeps-bind _ _ (create_assumption-Keeps _ _ _) λ a. Keeps-pure _
  apply_category-Keeps ProposalCategoryType.modification p =
      Keeps-bind _ _ (Keeps-query _) λ o. modify_target-Keeps o _ _
  apply_category-Keeps ProposalCategoryType.deletion p =
      Keeps-bind _ _ (Keeps-query _) λ o. change_target-Keeps _ o _

  apply-Keeps : (p : AssumptionProposal) (e : Event) → Keeps Decided (apply_assumption_proposal p e)
  unfolding apply_assumption_proposal
  apply-Keeps p e = Keeps-bind _ _ (apply_category-Keeps _ p) λ target.
      Keeps-bind _ _ Keeps-utc_now λ now.
        update-Keeps assumption_table (λ l d. refl) i st (mark_applied target now) p (λ q. refl)
          (λ q. refl)

  vote_outbox-Keeps :
      (t : String) (j : ℕ) (o : Option AssumptionProposal) → Keeps Decided (vote_outbox t j o)
  unfolding vote_outbox
  vote_outbox-Keeps t j none = Keeps-pure tt
  vote_outbox-Keeps t j (some p) = Keeps-bind _ _ (outbox-Keeps _ _ _) λ x. Keeps-pure tt

  apply_approved-Keeps :
      (p : AssumptionProposal) (e : Event) (n : ℕ) (o : Option AssumptionProposal)
      → Keeps Decided (
          apply_approved p e n
            (approve_proposal_if_pending_generic assumption_table)
            apply_assumption_proposal
            auto_approved_outbox
            o)
  unfolding apply_approved auto_approved_outbox
  apply_approved-Keeps p e n none = Keeps-pure tt
  apply_approved-Keeps p e n (some q) =
      Keeps-bind _ _ (apply-Keeps q e) λ x. Keeps-bind _ _ (outbox-Keeps _ _ _) λ y. Keeps-pure tt

  auto_approve-Keeps :
      (p : AssumptionProposal) (e : Event) → Keeps Decided (auto_approve_assumption p e)
  unfolding auto_approve_assumption check_and_auto_approve approve_and_apply count_votes
  auto_approve-Keeps p e = Keeps-bind _ _ (Keeps-query _) λ n.
      Keeps-if (not (is_proposal_pending p.proposal_status)) _ _ (λ h. Keeps-pure tt)
        λ h.
          Keeps-if (not e.assumption_is_auto_approved_by_votes) _ _ (λ h. Keeps-pure tt)
            λ h.
              Keeps-if (is_reached n e.assumption_min_votes_required none none) _ _
                (λ h. Keeps-bind _ _ Keeps-utc_now λ now.
                  Keeps-bind _ _
                    (approve-Keeps assumption_table (λ l d. refl) i st p.id now decided)
                    (apply_approved-Keeps p e n))
                λ h. Keeps-pure tt

  scalar_one_or_none-Keeps : {R : Type 0} (rows : List R) → Keeps Decided (scalar_one_or_none rows)
  unfolding scalar_one_or_none
  scalar_one_or_none-Keeps [] = Keeps-pure none
  scalar_one_or_none-Keeps (r ∷ []) = Keeps-pure (some r)
  scalar_one_or_none-Keeps (r ∷ r' ∷ rows) = Keeps-raise multiple_results

  get_user_vote-Keeps : (u v : ℕ) → Keeps Decided (get_user_vote assumption_votes u v)
  unfolding get_user_vote
  get_user_vote-Keeps u v = Keeps-bind _ _ (Keeps-query _) scalar_one_or_none-Keeps

  validate_event-Keeps : (e : ℕ) → Keeps Decided (validate_event_in_progress e)
  unfolding validate_event_in_progress get_event_with_all_relations Events.get_by_id
  validate_event-Keeps e = search keeps_rules

  verify_admin-Keeps : (e u : ℕ) → Keeps Decided (verify_admin e u)
  unfolding verify_admin Events.get_by_id
  verify_admin-Keeps e u = search keeps_rules

  get_proposal-Keeps : (j : ℕ) → Keeps Decided (get_assumption_proposal_by_id j)
  unfolding get_assumption_proposal_by_id get_proposal_by_id_generic
  get_proposal-Keeps j = Keeps-query _

  validate_proposal_pending-Keeps :
      (o : Option AssumptionProposal) (e : ℕ) → Keeps Decided (validate_proposal_pending o e)
  unfolding validate_proposal_pending
  validate_proposal_pending-Keeps o e = search keeps_rules depth 9

  create_vote-Keeps : (j u : ℕ) → Keeps Decided (create_proposal_vote assumption_votes j u)
  unfolding create_proposal_vote proposal_of
  create_vote-Keeps j u = Keeps-bind _ _ (Keeps-query _) λ taken.
      Keeps-bind _ _ (Keeps-raise_if _ _) λ x. Keeps-bind _ _ Keeps-utc_now λ now.
        Keeps-bind _ _ (Keeps-uuid4 (λ d h. h))
          λ id. Keeps-bind _ _ (Keeps-write _ (λ d h. h)) λ y. Keeps-pure _

  delete_vote-Keeps : (v : ProposalVote) → Keeps Decided (delete_proposal_vote assumption_votes v)
  unfolding delete_proposal_vote proposal_of
  delete_vote-Keeps v = Keeps-write _ (λ d h. h)

  vote-Keeps : (e p u : ℕ) → Keeps Decided (create_assumption_proposal_vote e p u)
  unfolding create_assumption_proposal_vote create_vote check_duplicate_vote create_assumption_vote
      count_votes
  vote-Keeps e p u = Keeps-bind _ _ (validate_event-Keeps e) λ event.
      Keeps-bind _ _ (get_proposal-Keeps p) λ found.
        Keeps-bind _ _ (validate_proposal_pending-Keeps found e) λ q.
          Keeps-bind _ _ (Keeps-bind _ _ (get_user_vote-Keeps p u) λ o. Keeps-raise_if _ _) λ x.
            Keeps-bind _ _
              (Keeps-transaction _ (
                Keeps-bind _ _
                  (Keeps-bind _ _ (create_vote-Keeps p u) λ v.
                    Keeps-bind _ _ (get_proposal-Keeps p)
                      λ o. Keeps-bind _ _ (vote_outbox-Keeps _ p o) λ y. Keeps-pure v)
                  λ v. Keeps-bind _ _ (auto_approve-Keeps q event) λ y. Keeps-pure v))
              λ v. Keeps-bind _ _ (Keeps-query _) λ n. Keeps-pure _

  withdraw-Keeps : (e p u : ℕ) → Keeps Decided (delete_assumption_proposal_vote e p u)
  unfolding delete_assumption_proposal_vote delete_vote get_assumption_vote delete_assumption_vote
      count_votes
  withdraw-Keeps e p u = Keeps-bind _ _ (validate_event-Keeps e) λ event.
      Keeps-bind _ _ (get_proposal-Keeps p) λ found.
        Keeps-bind _ _ (validate_proposal_pending-Keeps found e) λ q.
          Keeps-bind _ _ (Keeps-bind _ _ (get_user_vote-Keeps p u) λ o. Keeps-or_raise _ _) λ v.
            Keeps-bind _ _
              (Keeps-transaction _ (
                Keeps-bind _ _
                  (Keeps-bind _ _ (get_proposal-Keeps v.proposal_id)
                    λ o. Keeps-bind _ _ (delete_vote-Keeps v) λ x. vote_outbox-Keeps _ _ o)
                  λ x. auto_approve-Keeps q event))
              λ x. Keeps-bind _ _ (Keeps-query _) λ n. Keeps-pure _

  decide-Keeps :
      (e p : ℕ) (to : ProposalStatusType) (u : ℕ)
      → Keeps Decided (execute_update_assumption_proposal_status e p to u)
  unfolding execute_update_assumption_proposal_status update_status decide_block decide
      validate_proposal_belongs_to_event decision_outbox build_response count_votes
  decide-Keeps e p to u = Keeps-bind _ _ (Keeps-raise_if _ _) λ x.
      Keeps-bind _ _ (verify_admin-Keeps e u) λ event. Keeps-bind _ _ (get_proposal-Keeps p) λ o.
        Keeps-bind _ _ (Keeps-or_raise _ _) λ q. Keeps-bind _ _ (Keeps-raise_if _ _) λ y.
          Keeps-bind _ _
            (Keeps-transaction _ (
              Keeps-bind _ _
                (Keeps-if (is_proposal_accepted to) _ _
                  (λ h.
                    Keeps-bind _ _ Keeps-utc_now
                      λ now. approve-Keeps assumption_table (λ l d. refl) i st p now decided)
                  (λ h. reject-Keeps assumption_table (λ l d. refl) i st p decided))
                λ outcome. Keeps-bind _ _ (Keeps-or_raise _ _) λ v.
                  Keeps-bind _ _
                    (Keeps-if (is_proposal_accepted to) _ _ (λ h. apply-Keeps v event)
                      (λ h. Keeps-pure tt))
                    λ z.
                      Keeps-bind _ _ (Keeps-bind _ _ (outbox-Keeps _ _ _) λ w. Keeps-pure tt)
                        λ w. Keeps-pure v))
            λ v.
              Keeps-bind _ _ (Keeps-query _) λ n. Keeps-bind _ _ (Keeps-query _) λ b. Keeps-pure _

  serve-Decided : (r : Request) (s : Session) → Both Decided s → Both Decided (serve r s)
  unfolding serve
  serve-Decided (Request.vote e p u) s h = (Keeps-request _ (vote-Keeps e p u)).at s h
  serve-Decided (Request.withdraw e p u) s h = (Keeps-request _ (withdraw-Keeps e p u)).at s h
  serve-Decided (Request.decide_status e p to u) s h =
      (Keeps-request _ (decide-Keeps e p to u)).at s h

  -- A proposal of an assumption that was decided, so that its status is not PENDING, keeps that
  -- status through every sequence of votes, withdrawals and decisions, on this proposal and on
  -- others, whether they return or raise.
  pub serve_all-HasStatus :
      (rs : List Request) (s : Session)
      → Both (HasStatus assumption_table i st) s
      → Both (HasStatus assumption_table i st) (serve_all rs s)
  unfolding serve_all
  serve_all-HasStatus [] s h = h
  serve_all-HasStatus (r ∷ rs) s h = serve_all-HasStatus rs (serve r s) (serve-Decided r s h)
