-- ===== src/Proposal/AssumptionDecision.antt =====
-- What a decision on a proposal of an assumption does to the proposal.
use madcamp_w2_decision_make.Repositories.Proposals.{
  proposal_of, update_proposal_generic, assumption_table, proposal_key, set_proposal,
  get_proposal_by_id_generic, approve_proposal_if_pending_generic,
  reject_proposal_if_pending_generic, accept, reject,
}
use madcamp_w2_decision_make.Proposal.Assumptions.{
  decision_outbox, mark_applied, apply_assumption_proposal, apply_category,
  execute_update_assumption_proposal_status, get_assumption_proposal_by_id,
  validate_proposal_belongs_to_event, build_response,
}
use madcamp_w2_decision_make.Prelude.{
  Option, find_by_id, ℕ, update_by_id, List, ◌≡◌, some, none, ◌∷◌, arith, [], refl, key-find, true,
  find-update_self, if◌then◌else◌, ◌∙◌, ap,
}
use madcamp_w2_decision_make.Model.{
  AssumptionProposal, ProposalCategoryType, Database, ProposalStatusType, Event,
  is_proposal_accepted,
}
use madcamp_w2_decision_make.Session.Leaves.{
  Leaves, Leaves-bind, Leaves-utc_now, Leaves-write, Leaves-pure, Leaves-run, Leaves-if,
}
use madcamp_w2_decision_make.Proposal.AssumptionLeaves.{apply_category-Leaves, outbox-Leaves}
use madcamp_w2_decision_make.Session.{Session, ◌>>=◌, utc_now, ok}
use madcamp_w2_decision_make.Proposal.ApprovalUseCase.{
  is_decision, update_status, decide_block, decide,
}
use madcamp_w2_decision_make.Proposal.AssumptionGuards.{approve-inv, reject-inv}
use madcamp_w2_decision_make.Repositories.ProposalVotes.{count_votes}
use madcamp_w2_decision_make.Proposal.Responses.{Body}
use madcamp_w2_decision_make.Session.Runs.{
  after_raise_if, after_check, after_or_raise, after_query, after, transaction-inv, pure-inv,
}
use madcamp_w2_decision_make.BaseService.Inversion.{verify_admin-inv}

abbrev pub status_in : Option AssumptionProposal → Option ProposalStatusType
status_in none = none
status_in (some p) = some p.proposal_status

-- The status of the proposal `i`, if it is there.
abbrev pub status_of_proposal : ℕ → Database → Option ProposalStatusType
status_of_proposal i d = status_in (proposal_of assumption_table i d)

-- A change that leaves ids and statuses leaves the status.
update-status :
    (i j : ℕ) (f : AssumptionProposal → AssumptionProposal) (rows : List AssumptionProposal)
    → ((p : AssumptionProposal) → (f p).id ≡ p.id)
    → ((p : AssumptionProposal) → (f p).proposal_status ≡ p.proposal_status)
    → status_in (find_by_id proposal_key i (update_by_id proposal_key j f rows))
      ≡ status_in (find_by_id proposal_key i rows)
unfolding find_by_id update_by_id
update-status i j f [] ids statuses = refl
update-status i j f (p ∷ rows) ids statuses =
    ground (arith, ids p, statuses p, update-status i j f rows ids statuses)

mark_applied-Leaves :
    (i : ℕ) (target : Option ℕ) (at : ℕ) (p : AssumptionProposal)
    → Leaves
        (status_of_proposal i)
        (update_proposal_generic assumption_table (mark_applied target at) p)
unfolding update_proposal_generic proposal_of
mark_applied-Leaves i target at p = Leaves-write _ λ d.
    update-status i p.id (mark_applied target at) d.assumption_proposals (λ q. refl) (λ q. refl)

outbox-status :
    (i user_id : ℕ) (p : AssumptionProposal) (e : Event) (st : ProposalStatusType)
    → Leaves (status_of_proposal i) (decision_outbox user_id p e st)
unfolding decision_outbox proposal_of
outbox-status i user_id p e st =
    Leaves-bind _ _
      (outbox-Leaves (status_of_proposal i) (λ d. refl) (λ e d. refl) (λ i f d. refl) (λ a d. refl)
        _ _ _)
      λ x. Leaves-pure tt

category-status :
    (i : ℕ) (c : ProposalCategoryType) (p : AssumptionProposal)
    → Leaves (status_of_proposal i) (apply_category c p)
unfolding proposal_of
category-status i c p =
    apply_category-Leaves (status_of_proposal i) (λ d. refl) (λ e d. refl) (λ i f d. refl)
      (λ a d. refl) c p

apply-status :
    (i : ℕ) (p : AssumptionProposal) (e : Event)
    → Leaves (status_of_proposal i) (apply_assumption_proposal p e)
unfolding apply_assumption_proposal
apply-status i p e =
    Leaves-bind _ _ (category-status i _ p)
      λ target. Leaves-bind _ _ Leaves-utc_now λ now. mark_applied-Leaves i target now p

set-status :
    (i : ℕ) (f : AssumptionProposal → AssumptionProposal) (p : AssumptionProposal) (d : Database)
    → proposal_of assumption_table i d ≡ some p
    → (f p).id ≡ p.id
    → status_of_proposal i (set_proposal assumption_table p.id f d) ≡ some (f p).proposal_status
unfolding proposal_of
set-status i f p d found keep =
    let own = key-find proposal_key i p d.assumption_proposals found in
    let changed = find-update_self proposal_key i f p d.assumption_proposals found (keep ∙ own) in
    cc own

-- The conditional UPDATE leaves the row with the status asked for.
decided_status :
    (i : ℕ) (status : ProposalStatusType) (s t : Session) (o : Option AssumptionProposal)
    (u : AssumptionProposal)
    → is_decision status ≡ true
    → (if is_proposal_accepted status
          then (utc_now >>= λ at. approve_proposal_if_pending_generic assumption_table i at)
          else reject_proposal_if_pending_generic assumption_table i)
        s
      ≡ (ok o, t)
    → o ≡ some u
    → status_of_proposal i t.working ≡ some status
unfolding ◌>>=◌
decided_status i ProposalStatusType.accepted s t o u known h some_u =
    let (p, found, waiting, same, there) =
      approve-inv i s.clock s t u (h ∙ λ k. (ok (some_u k), t)) in
    ap (status_of_proposal i) there ∙ set-status i (accept s.clock) p s.working found refl
decided_status i ProposalStatusType.rejected s t o u known h some_u =
    let (p, found, waiting, same, there) = reject-inv i s t u (h ∙ λ k. (ok (some_u k), t)) in
    ap (status_of_proposal i) there ∙ set-status i reject p s.working found refl
decided_status i ProposalStatusType.pending s t o u known h some_u = absurd (ground arith)
decided_status i ProposalStatusType.deleted s t o u known h some_u = absurd (ground arith)

module _ (event_id proposal_id : ℕ) (status : ProposalStatusType) (user_id : ℕ) (s : Session) where
  -- After a decision on a proposal of an assumption that returns, the committed proposal has the
  -- status that was asked for, also when an approval was applied to the assumptions.
  pub execute_update_assumption_proposal_status-status :
      {b : Body} {t : Session}
      → execute_update_assumption_proposal_status event_id proposal_id status user_id s ≡ (ok b, t)
      → status_of_proposal proposal_id t.committed ≡ some status
  unfolding execute_update_assumption_proposal_status update_status get_assumption_proposal_by_id
      get_proposal_by_id_generic validate_proposal_belongs_to_event decide_block decide
      build_response count_votes
  execute_update_assumption_proposal_status-status {b} {t} h =
      let (asked, h₁) = after_raise_if _ _ _ h in
      after_check _ _ _ (verify_admin-inv event_id s user_id) h₁ λ e p₁ h₂.
        let (p, found, h₃) = after_or_raise _ _ _ (after_query _ _ h₂) in
        let (here, h₄) = after_raise_if _ _ _ h₃ in
        after _ _ h₄ λ u s₅ p₅ h₅.
          let (s₆, p₆, landing) = transaction-inv _ p₅ in
          after _ _ p₆ λ o s₇ p₇ h₇.
            let (v, some_v, h₈) = after_or_raise _ _ _ h₇ in
            let known : is_decision status ≡ true = ground (arith, asked) in
            let set = decided_status proposal_id status s s₇ o v known p₇ some_v in
            after _ _ h₈ λ x s₉ p₉ h₉. after _ _ h₉ λ y s₁ p₁₀ h₁₀.
              let applied =
                Leaves-run (status_of_proposal proposal_id) _
                  (Leaves-if (is_proposal_accepted status) _ _ (apply-status proposal_id v e)
                    (Leaves-pure tt))
                  p₉ in
              let noted =
                Leaves-run (status_of_proposal proposal_id) _
                  (outbox-status proposal_id user_id v e status) p₁₀ in
              let (same, still) = pure-inv h₁₀ in
              let (result, ending) = pure-inv (after_query _ _ (after_query _ _ h₅)) in
              cc (ending, landing, still, noted, applied, set)
