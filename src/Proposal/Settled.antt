-- ===== src/Proposal/Settled.antt =====
-- The conditional UPDATEs on a proposal that was decided.
use madcamp_w2_decision_make.Repositories.Proposals.{
  ProposalTable, proposal_of, update_if_pending, set_proposal, proposal_key,
  reject_proposal_if_pending_generic, approve_proposal_if_pending_generic, update_proposal_generic,
  accept, reject,
}
use madcamp_w2_decision_make.Prelude.{
  List, ℕ, ◌≡◌, Option, some, update_by_id, false, Bool-cases, ◌==◌, inl, inr, arith, none,
  find-update_self, true, Bool, key-find, ◌∙◌, if◌then◌else◌, ap, find_by_id, find-update_ne, refl,
}
use madcamp_w2_decision_make.Model.{Proposal, ProposalStatusType, Database, is_proposal_pending}
use madcamp_w2_decision_make.Session.{◌>>◌, pure, ◌>>=◌, Session, Action, write}
use madcamp_w2_decision_make.Session.Keeps.{Both, Keeps, Keeps-write}

-- The proposal `i` is in the table, with the status `st`.
abbrev pub HasStatus : {C : Type 0} → ProposalTable C → ℕ → ProposalStatusType → Database → Type 0
HasStatus {C = C} table i st d =
    (p : Proposal C) × (proposal_of table i d ≡ some p) × (p.proposal_status ≡ st)

-- A table reads the rows that were put into it.
abbrev pub IsTable : {C : Type 0} → ProposalTable C → Type 0
IsTable {C = C} table = (l : List (Proposal C)) (d : Database) → table.rows (table.put l d) ≡ l

if-Both {ℓ} :
    {A : Type ℓ} (Q : Database → Type 0) (c : Bool) (m n : Action A) (s : Session)
    → (c ≡ true → Both Q (m s).1)
    → (c ≡ false → Both Q (n s).1)
    → Both Q ((if c then m else n) s).1
if-Both Q true m n s on off = on refl
if-Both Q false m n s on off = off refl

module _ {C : Type 0} (table : ProposalTable C) (law : IsTable table) (i : ℕ)
    (st : ProposalStatusType) where
  update-HasStatus :
      (j : ℕ) (f : Proposal C → Proposal C) (d : Database)
      → ((p : Proposal C) → (f p).id ≡ p.id)
      → (i ≡ j
          → (p : Proposal C) → proposal_of table i d ≡ some p
          → p.proposal_status ≡ st
          → (f p).proposal_status ≡ st)
      → HasStatus table i st d
      → HasStatus table i st (set_proposal table j f d)
  unfolding proposal_of
  update-HasStatus j f d keep good (p, found, same) =
      let rows = law (update_by_id proposal_key j f (table.rows d)) d in
      elim (Bool-cases (i == j)) [
        | inl h ↦
            let at : i ≡ j = ground (arith, h) in
            (
              f p,
              cc (
                rows,
                at,
                find-update_self proposal_key i f p (table.rows d) found
                    (keep p ∙ key-find proposal_key i p (table.rows d) found),
              ),
              good at p found same,
            )
        | inr h ↦ (
          p,
          ap (find_by_id proposal_key i) rows
              ∙ find-update_ne proposal_key i j f (table.rows d) keep (ground (arith, h))
              ∙ found,
          same,
        )
      ]

  -- A pending row is not the decided one.
  clash :
      (j : ℕ) (p q : Proposal C) (d : Database)
      → is_proposal_pending st ≡ false
      → is_proposal_pending p.proposal_status ≡ true
      → proposal_of table j d ≡ some p
      → i ≡ p.id
      → proposal_of table i d ≡ some q
      → q.proposal_status ≡ st
      → ⊥
  unfolding proposal_of
  clash j p q d decided waiting at same found status =
      let own = key-find proposal_key j p (table.rows d) at in
      let twin : some q ≡ some p = cc (own, at, same, found) in
      ground (arith, twin, decided, waiting, status)

  update_if_pending-Both :
      (f : Proposal C → Proposal C) (j : ℕ) (o : Option (Proposal C)) (s : Session)
      → ((p : Proposal C) → (f p).id ≡ p.id)
      → is_proposal_pending st ≡ false
      → proposal_of table j s.working ≡ o
      → Both (HasStatus table i st) s
      → Both (HasStatus table i st) (update_if_pending table f o s).1
  unfolding update_if_pending ◌>>=◌
  update_if_pending-Both f j none s keep decided at h = h
  update_if_pending-Both f j (some p) s keep decided at h =
      if-Both (HasStatus table i st) (is_proposal_pending p.proposal_status)
        (write (set_proposal table p.id f) >> pure (some (f p))) (pure none) s
        (λ waiting. (
          update-HasStatus p.id f s.working keep
              (λ same q found status.
                absurd (clash j p q s.working decided waiting at same found status))
              h.0,
          h.1,
        ))
        (λ refused. h)

  pub approve-Keeps :
      (j at : ℕ)
      → is_proposal_pending st ≡ false
      → Keeps (HasStatus table i st) (approve_proposal_if_pending_generic table j at)
  unfolding approve_proposal_if_pending_generic ◌>>=◌
  approve-Keeps j at decided = record {
    at = λ s h.
        update_if_pending-Both (accept at) j (proposal_of table j s.working) s (λ p. refl) decided
          refl h;
  }

  pub reject-Keeps :
      (j : ℕ)
      → is_proposal_pending st ≡ false
      → Keeps (HasStatus table i st) (reject_proposal_if_pending_generic table j)
  unfolding reject_proposal_if_pending_generic ◌>>=◌
  reject-Keeps j decided = record {
    at = λ s h.
        update_if_pending-Both reject j (proposal_of table j s.working) s (λ p. refl) decided refl
          h;
  }

  -- An update of a row that leaves its id and status.
  pub update-Keeps :
      (f : Proposal C → Proposal C) (p : Proposal C)
      → ((q : Proposal C) → (f q).id ≡ q.id)
      → ((q : Proposal C) → (f q).proposal_status ≡ q.proposal_status)
      → Keeps (HasStatus table i st) (update_proposal_generic table f p)
  unfolding update_proposal_generic
  update-Keeps f p keep status =
      Keeps-write _ λ d. update-HasStatus p.id f d keep (λ at q found same. status q ∙ same)
