-- ===== src/Repositories/Effects.antt =====
-- The repositories against the commit of the session.
use madcamp_w2_decision_make.Repositories.Proposals.{
  update_if_pending, reject_proposal_if_pending_generic, approve_proposal_if_pending_generic,
  ProposalTable, reject, accept,
}
use madcamp_w2_decision_make.Repositories.ProposalVotes.{get_user_vote, VoteTable}
use madcamp_w2_decision_make.Session.Atomic.{
  uncommitting_rules, Uncommitting, Uncommitting-bind, Uncommitting-pure, Uncommitting-query,
  Uncommitting-raise,
}
use madcamp_w2_decision_make.Repositories.Outbox.{create_outbox_event}
use madcamp_w2_decision_make.Repositories.Events.{scalar_one_or_none}
use madcamp_w2_decision_make.Prelude.{String, List, ℕ, Option, some, none, ◌∷◌, []}
use madcamp_w2_decision_make.Model.{Proposal, Value}
use madcamp_w2_decision_make.Session.{multiple_results}

pub create_outbox_event-Uncommitting :
    (event_type : String) (payload : List (String × Value)) (event_id : ℕ)
    → Uncommitting (create_outbox_event event_type payload event_id)
unfolding create_outbox_event
create_outbox_event-Uncommitting event_type payload event_id = search uncommitting_rules

update_if_pending-Uncommitting :
    {C : Type 0} (table : ProposalTable C) (f : Proposal C → Proposal C) (o : Option (Proposal C))
    → Uncommitting (update_if_pending table f o)
unfolding update_if_pending
update_if_pending-Uncommitting table f none = search uncommitting_rules
update_if_pending-Uncommitting table f (some p) = search uncommitting_rules

pub approve_if_pending-Uncommitting :
    {C : Type 0} (table : ProposalTable C) (i at : ℕ)
    → Uncommitting (approve_proposal_if_pending_generic table i at)
unfolding approve_proposal_if_pending_generic
approve_if_pending-Uncommitting table i at =
    Uncommitting-bind _ _ (Uncommitting-query _) (update_if_pending-Uncommitting table (accept at))

pub reject_if_pending-Uncommitting :
    {C : Type 0} (table : ProposalTable C) (i : ℕ)
    → Uncommitting (reject_proposal_if_pending_generic table i)
unfolding reject_proposal_if_pending_generic
reject_if_pending-Uncommitting table i =
    Uncommitting-bind _ _ (Uncommitting-query _) (update_if_pending-Uncommitting table reject)

pub ruleset effect_rules = (uncommitting_rules, create_outbox_event-Uncommitting)

pub scalar_one_or_none-Uncommitting :
    {R : Type 0} (rows : List R) → Uncommitting (scalar_one_or_none rows)
unfolding scalar_one_or_none
scalar_one_or_none-Uncommitting [] = Uncommitting-pure none
scalar_one_or_none-Uncommitting (r ∷ []) = Uncommitting-pure (some r)
scalar_one_or_none-Uncommitting (r ∷ r' ∷ rows) = Uncommitting-raise multiple_results

pub get_user_vote-Uncommitting :
    (votes : VoteTable) (i j : ℕ) → Uncommitting (get_user_vote votes i j)
unfolding get_user_vote
get_user_vote-Uncommitting votes i j =
    Uncommitting-bind _ _ (Uncommitting-query _) scalar_one_or_none-Uncommitting
