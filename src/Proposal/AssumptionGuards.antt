-- ===== src/Proposal/AssumptionGuards.antt =====
-- What must have held when a request on a proposal of an assumption returns.
use madcamp_w2_decision_make.Repositories.Proposals.{
  approve_proposal_if_pending_generic, reject_proposal_if_pending_generic, update_if_pending,
  assumption_table, proposal_of, set_proposal, reject, accept, get_proposal_by_id_generic,
}
use madcamp_w2_decision_make.Prelude.{
  ℕ, not, Option, ◌≡◌, List, false, some, arith, is_some, none, [], refl, ◌∷◌, ◌∙◌, ap, length,
  true, sym, if◌then◌else◌, length-where_rows,
}
use madcamp_w2_decision_make.Model.{
  ProposalStatusType, AssumptionProposal, Database, is_proposal_pending, ProposalVote, Event,
  EventStatusType, is_proposal_accepted,
}
use madcamp_w2_decision_make.Session.{◌>>=◌, Session, ok, utc_now}
use madcamp_w2_decision_make.Proposal.Assumptions.{
  validate_proposal_pending, check_duplicate_vote, create_assumption_proposal_vote,
  get_assumption_proposal_by_id, execute_update_assumption_proposal_status,
  validate_proposal_belongs_to_event, build_response,
}
use madcamp_w2_decision_make.Repositories.Events.{scalar_one_or_none, event_of}
use madcamp_w2_decision_make.Repositories.ProposalVotes.{
  get_user_vote, votes_by, assumption_votes, count_votes, is_vote_of,
}
use madcamp_w2_decision_make.Proposal.VoteUseCase.{create_vote, VoteResponse}
use madcamp_w2_decision_make.Session.Runs.{
  raise_if-inv, Passes, after_or_raise, after_query, after_raise_if, pure-inv, after_check, after,
  transaction-inv,
}
use madcamp_w2_decision_make.BaseService.Inversion.{
  validate_event_in_progress-inv, verify_admin-inv,
}
use madcamp_w2_decision_make.Proposal.ApprovalUseCase.{
  is_decision, update_status, decide_block, decide,
}
use madcamp_w2_decision_make.Proposal.Responses.{Body}

-- The proposal that a request names, as the request needs it.
pub record Open (event_id proposal_id : ℕ) (p : AssumptionProposal) (d : Database) : Type 0 where
  pub found : proposal_of assumption_table proposal_id d ≡ some p
  pub belongs : p.columns.event_id ≡ event_id
  pub waiting : p.proposal_status ≡ ProposalStatusType.pending

pending-is :
    (st : ProposalStatusType)
    → not (is_proposal_pending st) ≡ false
    → st ≡ ProposalStatusType.pending
pending-is ProposalStatusType.pending h = refl
pending-is ProposalStatusType.accepted h = absurd (ground arith)
pending-is ProposalStatusType.rejected h = absurd (ground arith)
pending-is ProposalStatusType.deleted h = absurd (ground arith)

update_if_pending-inv :
    (f : AssumptionProposal → AssumptionProposal) (o : Option AssumptionProposal) (s t : Session)
    (u : AssumptionProposal)
    → update_if_pending assumption_table f o s ≡ (ok (some u), t)
    → (p : AssumptionProposal) × (o ≡ some p)
      × (p.proposal_status ≡ ProposalStatusType.pending)
      × (u ≡ f p)
      × (t.working ≡ set_proposal assumption_table p.id f s.working)
unfolding update_if_pending ◌>>=◌
update_if_pending-inv f none s t u h = absurd (ground arith)
update_if_pending-inv f (some p) s t u h = (p, refl, ground arith, ground arith, ground arith)

pub approve-inv :
    (proposal_id at : ℕ) (s t : Session) (u : AssumptionProposal)
    → approve_proposal_if_pending_generic assumption_table proposal_id at s ≡ (ok (some u), t)
    → (p : AssumptionProposal) × (proposal_of assumption_table proposal_id s.working ≡ some p)
      × (p.proposal_status ≡ ProposalStatusType.pending)
      × (u ≡ accept at p)
      × (t.working ≡ set_proposal assumption_table p.id (accept at) s.working)
unfolding approve_proposal_if_pending_generic
approve-inv proposal_id at s t u h = update_if_pending-inv _ _ s t u (after_query _ _ h)

pub reject-inv :
    (proposal_id : ℕ) (s t : Session) (u : AssumptionProposal)
    → reject_proposal_if_pending_generic assumption_table proposal_id s ≡ (ok (some u), t)
    → (p : AssumptionProposal) × (proposal_of assumption_table proposal_id s.working ≡ some p)
      × (p.proposal_status ≡ ProposalStatusType.pending)
      × (u ≡ reject p)
      × (t.working ≡ set_proposal assumption_table p.id reject s.working)
unfolding reject_proposal_if_pending_generic
reject-inv proposal_id s t u h = update_if_pending-inv _ _ s t u (after_query _ _ h)

module _ (event_id proposal_id user_id : ℕ) (s : Session) where
  pub validate_proposal_pending-inv :
      (o : Option AssumptionProposal)
      → proposal_of assumption_table proposal_id s.working ≡ o
      → Passes (validate_proposal_pending o event_id) s (λ p. Open event_id proposal_id p s.working)
  unfolding validate_proposal_pending
  validate_proposal_pending-inv o at p t h =
      let (q, some_q, h₁) = after_or_raise _ _ _ h in
      let (here, h₂) = after_raise_if _ _ _ h₁ in
      let (waiting, h₃) = after_raise_if _ _ _ h₂ in
      let (same, still) = pure-inv h₃ in
      (
        record {
          found = at ∙ some_q ∙ ap some same;
          belongs = ground (arith, same, here);
          waiting = pending-is _ (ground (arith, same, waiting));
        },
        still,
      )

  no_vote :
      (rows : List ProposalVote) (t : Session) (o : Option ProposalVote) (u : Session)
      → scalar_one_or_none rows t ≡ (ok o, u)
      → is_some o ≡ false
      → (rows ≡ []) × (u ≡ t)
  unfolding scalar_one_or_none ◌>>=◌
  no_vote [] t o u h none_there = (refl, ground arith)
  no_vote (r ∷ []) t o u h none_there = absurd (ground arith)
  no_vote (r ∷ r' ∷ rows) t o u h none_there = absurd (ground arith)

  pub check_duplicate_vote-inv :
      Passes
        (check_duplicate_vote proposal_id user_id)
        s
        (λ x. votes_by assumption_votes proposal_id user_id s.working ≡ 0)
  unfolding check_duplicate_vote get_user_vote
  check_duplicate_vote-inv x t h = after _ _ h λ o u p q.
      let (none_there, still) = raise_if-inv _ _ q in
      let (no_rows, same) = no_vote _ s o u (after_query _ _ p) none_there in
      (
        sym (length-where_rows (is_vote_of proposal_id user_id) s.working.assumption_proposal_votes)
            ∙ ap length no_rows,
        still ∙ same,
      )

  -- A vote on a proposal of an assumption that returns was cast while the event was in progress, on
  -- a PENDING proposal of that event, and by a user who had no vote on it.
  pub create_assumption_proposal_vote-inv :
      {r : VoteResponse} {t : Session}
      → create_assumption_proposal_vote event_id proposal_id user_id s ≡ (ok r, t)
      → (e : Event) × (p : AssumptionProposal) × (event_of event_id s.working ≡ some e)
        × (e.event_status ≡ EventStatusType.in_progress)
        × Open event_id proposal_id p s.working
        × (votes_by assumption_votes proposal_id user_id s.working ≡ 0)
  unfolding create_assumption_proposal_vote create_vote get_assumption_proposal_by_id
      get_proposal_by_id_generic
  create_assumption_proposal_vote-inv h =
      after_check _ _ _ (validate_event_in_progress-inv event_id s) h λ e p₁ h₁.
        after_check _ _ _ (validate_proposal_pending-inv _ refl) (after_query _ _ h₁) λ p opened h₂.
          after_check _ _ _ check_duplicate_vote-inv h₂
            λ x unvoted h₃. (e, p, p₁.0, p₁.1, opened, unvoted)

-- The row that the conditional UPDATE decides was pending, and gets the status asked for.
decided_row :
    (proposal_id : ℕ) (status : ProposalStatusType) (s t : Session) (o : Option AssumptionProposal)
    (u : AssumptionProposal)
    → is_decision status ≡ true
    → (if is_proposal_accepted status
          then (utc_now >>= λ at.
              approve_proposal_if_pending_generic assumption_table proposal_id at)
          else reject_proposal_if_pending_generic assumption_table proposal_id)
        s
      ≡ (ok o, t)
    → o ≡ some u
    → (p : AssumptionProposal) × (proposal_of assumption_table proposal_id s.working ≡ some p)
      × (p.proposal_status ≡ ProposalStatusType.pending)
      × (u.proposal_status ≡ status)
unfolding ◌>>=◌
decided_row proposal_id ProposalStatusType.accepted s t o u known h some_u =
    let (p, found, waiting, same, there) =
      approve-inv proposal_id s.clock s t u (h ∙ λ i. (ok (some_u i), t)) in
    (p, found, waiting, ap (λ x. x.proposal_status) same)
decided_row proposal_id ProposalStatusType.rejected s t o u known h some_u =
    let (p, found, waiting, same, there) =
      reject-inv proposal_id s t u (h ∙ λ i. (ok (some_u i), t)) in
    (p, found, waiting, ap (λ x. x.proposal_status) same)
decided_row proposal_id ProposalStatusType.pending s t o u known h some_u = absurd (ground arith)
decided_row proposal_id ProposalStatusType.deleted s t o u known h some_u = absurd (ground arith)

module _ (event_id proposal_id : ℕ) (status : ProposalStatusType) (user_id : ℕ) (s : Session) where
  -- A decision on a proposal of an assumption that returns is an approval or a rejection, asked by
  -- the admin of the event, of a PENDING proposal of that event, and what it did is committed.
  pub execute_update_assumption_proposal_status-inv :
      {b : Body} {t : Session}
      → execute_update_assumption_proposal_status event_id proposal_id status user_id s ≡ (ok b, t)
      → (is_decision status ≡ true)
        × (e : Event) × (p : AssumptionProposal) × (event_of event_id s.working ≡ some e)
        × (e.admin_id ≡ user_id)
        × Open event_id proposal_id p s.working
        × (t.committed ≡ t.working)
  unfolding execute_update_assumption_proposal_status update_status get_assumption_proposal_by_id
      get_proposal_by_id_generic validate_proposal_belongs_to_event decide_block decide
      build_response count_votes
  execute_update_assumption_proposal_status-inv {b} {t} h =
      let (asked, h₁) = after_raise_if _ _ _ h in
      after_check _ _ _ (verify_admin-inv event_id s user_id) h₁ λ e p₁ h₂.
        let (p, found, h₃) = after_or_raise _ _ _ (after_query _ _ h₂) in
        let (here, h₄) = after_raise_if _ _ _ h₃ in
        after _ _ h₄ λ u s₅ p₅ h₅.
          let (s₆, p₆, landing) = transaction-inv _ p₅ in
          after _ _ p₆ λ o s₇ p₇ h₇.
            let (v, some_v, h₈) = after_or_raise _ _ _ h₇ in
            let known : is_decision status ≡ true = ground (arith, asked) in
            let (q, found', waiting, changed) =
              decided_row proposal_id status s s₇ o v known p₇ some_v in
            let (result, ending) = pure-inv (after_query _ _ (after_query _ _ h₅)) in
            (
              known,
              e,
              p,
              p₁.0,
              p₁.1,
              record {
                found = found;
                belongs = ground (arith, here);
                waiting = ground (arith, found, found', waiting);
              },
              cc (ending, landing),
            )
