-- ===== src/Repositories/Proposals.antt =====
-- app/repositories/proposal/: the generic queries of ProposalRepositoryGeneric, over a table of
-- proposals that stands for the argument `proposal_class`. The methods of the three repositories
-- are these at their tables.
use madcamp_w2_decision_make.Model.{
  ConclusionColumns, Proposal, AssumptionColumns, CriteriaColumns, Database, ProposalStatusType,
  is_proposal_pending,
}
use madcamp_w2_decision_make.Prelude.{
  Option, ℕ, String, ◌∷◌, List, find_by_id, update_by_id, some, if◌then◌else◌, none,
}
use madcamp_w2_decision_make.Session.{Action, query, pure, write, ◌>>◌, ◌>>=◌, utc_now, uuid4}

-- A table of proposals: its rows, and the database with other rows in it.
pub record ProposalTable (C : Type 0) : Type 0 where
  pub rows : Database → List (Proposal C)
  pub put : List (Proposal C) → Database → Database

abbrev pub assumption_table : ProposalTable AssumptionColumns
assumption_table = record {
  rows = λ d. d.assumption_proposals;
  put = λ l d. record d { assumption_proposals = l };
}

abbrev pub criteria_table : ProposalTable CriteriaColumns
criteria_table = record {
  rows = λ d. d.criteria_proposals;
  put = λ l d. record d { criteria_proposals = l };
}

abbrev pub conclusion_table : ProposalTable ConclusionColumns
conclusion_table = record {
  rows = λ d. d.conclusion_proposals;
  put = λ l d. record d { conclusion_proposals = l };
}

module _ {C : Type 0} where
  abbrev pub proposal_key : Proposal C → ℕ
  proposal_key p = p.id

  abbrev pub accept : ℕ → Proposal C → Proposal C
  accept at p = record p { proposal_status = ProposalStatusType.accepted; accepted_at = some at }

  abbrev pub reject : Proposal C → Proposal C
  reject p = record p { proposal_status = ProposalStatusType.rejected }

module _ {C : Type 0} (table : ProposalTable C) where
  unfoldable pub proposal_of : ℕ → Database → Option (Proposal C)
  proposal_of proposal_id d = find_by_id proposal_key proposal_id (table.rows d)

  abbrev pub set_proposal : ℕ → (Proposal C → Proposal C) → Database → Database
  set_proposal proposal_id f d =
      table.put (update_by_id proposal_key proposal_id f (table.rows d)) d

  abbrev pub add_proposal : Proposal C → Database → Database
  add_proposal p d = table.put (p ∷ table.rows d) d

  -- The flush of a new PENDING proposal.
  unfoldable pub create_proposal_generic : Option String → ℕ → C → Action (Proposal C)
  create_proposal_generic content created_by columns = do
    now ← utc_now
    id ← uuid4
    let proposal : Proposal C = record {
      id = id;
      proposal_status = ProposalStatusType.pending;
      proposal_content = content;
      created_at = now;
      created_by = created_by;
      accepted_at = none;
      applied_at = none;
      columns = columns;
    }
    write (add_proposal proposal)
    pure proposal

  unfoldable pub get_proposal_by_id_generic : ℕ → Action (Option (Proposal C))
  get_proposal_by_id_generic proposal_id = query (proposal_of proposal_id)

  -- `f` is what the service assigned to the proposal before the flush.
  unfoldable pub update_proposal_generic :
      (Proposal C → Proposal C) → Proposal C → Action (Unit {0})
  update_proposal_generic f p = write (set_proposal p.id f)

  -- UPDATE … WHERE id = :id AND status = 'PENDING' RETURNING …, on the row that has the id.
  unfoldable pub update_if_pending :
      (Proposal C → Proposal C) → Option (Proposal C) → Action (Option (Proposal C))
  update_if_pending f none = pure none
  update_if_pending f (some p) =
      if is_proposal_pending p.proposal_status
      then write (set_proposal p.id f) >> pure (some (f p))
      else pure none

  unfoldable pub approve_proposal_if_pending_generic : ℕ → ℕ → Action (Option (Proposal C))
  unfolding update_if_pending
  approve_proposal_if_pending_generic proposal_id accepted_at = do
    row ← query (proposal_of proposal_id)
    update_if_pending (accept accepted_at) row

  unfoldable pub reject_proposal_if_pending_generic : ℕ → Action (Option (Proposal C))
  unfolding update_if_pending
  reject_proposal_if_pending_generic proposal_id = do
    row ← query (proposal_of proposal_id)
    update_if_pending reject row
