-- ===== src/Proposal/AssumptionLeaves.antt =====
-- What the effects of a vote or a decision on a proposal of an assumption leave as it was.
use madcamp_w2_decision_make.Prelude.{◌≡◌, ℕ, Option, String, List, some, none}
use madcamp_w2_decision_make.Proposal.Assumptions.{
  vote_outbox, change_target, modify_target, modify, apply_category,
}
use madcamp_w2_decision_make.Repositories.Contents.{
  set_assumption, add_assumption, update_assumption, create_assumption,
}
use madcamp_w2_decision_make.Model.{
  Database, OutboxEvent, Assumption, ProposalCategoryType, AssumptionProposal, Value,
}
use madcamp_w2_decision_make.Session.{use_id}
use madcamp_w2_decision_make.Repositories.Outbox.{add_outbox, create_outbox_event}
use madcamp_w2_decision_make.Session.Leaves.{
  Leaves, Leaves-pure, Leaves-bind, Leaves-query, Leaves-utc_now, Leaves-or_raise, Leaves-write,
  Leaves-uuid4,
}

-- A part of the database that has nothing to do with ids, outbox events and assumptions.
module _ {κ} {X : Type κ} (part : Database → X)
    (use_id_lem : (d : Database) → part (use_id d) ≡ part d)
    (add_outbox_lem : (e : OutboxEvent) (d : Database) → part (add_outbox e d) ≡ part d)
    (set_assumption_lem : (i : ℕ) (f : Assumption → Assumption) (d : Database)
      → part (set_assumption i f d) ≡ part d)
    (add_assumption_lem : (a : Assumption) (d : Database)
      → part (add_assumption a d) ≡ part d) where
  pub outbox-Leaves :
      (event_type : String) (payload : List (String × Value)) (event_id : ℕ)
      → Leaves part (create_outbox_event event_type payload event_id)
  unfolding create_outbox_event
  outbox-Leaves event_type payload event_id = Leaves-bind _ _ Leaves-utc_now λ now.
      Leaves-bind _ _ (Leaves-uuid4 use_id_lem)
        λ id. Leaves-bind _ _ (Leaves-write _ (add_outbox_lem _)) λ u. Leaves-pure _

  pub vote_outbox-Leaves :
      (t : String) (j : ℕ) (o : Option AssumptionProposal) → Leaves part (vote_outbox t j o)
  unfolding vote_outbox
  vote_outbox-Leaves t j none = Leaves-pure tt
  vote_outbox-Leaves t j (some p) = Leaves-bind _ _ (outbox-Leaves _ _ _) λ x. Leaves-pure tt

  pub change_target-Leaves :
      (f : Assumption → Assumption) (o : Option Assumption) (u : ℕ)
      → Leaves part (change_target f o u)
  unfolding change_target update_assumption
  change_target-Leaves f none u = Leaves-pure none
  change_target-Leaves f (some a) u =
      Leaves-bind _ _
        (Leaves-bind _ _ Leaves-utc_now λ now. Leaves-write _ (set_assumption_lem _ _))
        λ x. Leaves-pure _

  pub modify_target-Leaves :
      (o : Option Assumption) (content : Option String) (u : ℕ)
      → Leaves part (modify_target o content u)
  unfolding modify_target
  modify_target-Leaves none content u = Leaves-pure none
  modify_target-Leaves (some a) content u =
      Leaves-bind _ _ (Leaves-or_raise _ _) λ text. change_target-Leaves (modify text) (some a) u

  pub create_assumption-Leaves :
      (e : ℕ) (content : Option String) (u : ℕ) → Leaves part (create_assumption e content u)
  unfolding create_assumption
  create_assumption-Leaves e content u = Leaves-bind _ _ (Leaves-or_raise _ _) λ text.
      Leaves-bind _ _ (Leaves-uuid4 use_id_lem)
        λ id. Leaves-bind _ _ (Leaves-write _ (add_assumption_lem _)) λ x. Leaves-pure _

  pub apply_category-Leaves :
      (c : ProposalCategoryType) (p : AssumptionProposal) → Leaves part (apply_category c p)
  unfolding apply_category
  apply_category-Leaves ProposalCategoryType.creation p =
      Leaves-bind _ _ (create_assumption-Leaves _ _ _) λ a. Leaves-pure _
  apply_category-Leaves ProposalCategoryType.modification p =
      Leaves-bind _ _ (Leaves-query _) λ o. modify_target-Leaves o _ _
  apply_category-Leaves ProposalCategoryType.deletion p =
      Leaves-bind _ _ (Leaves-query _) λ o. change_target-Leaves _ o _
