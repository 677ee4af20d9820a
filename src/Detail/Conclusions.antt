-- ===== src/Detail/Conclusions.antt =====
-- The conclusion proposals that get_event_detail collects for the criteria of the event.
use madcamp_w2_decision_make.Prelude.{
  ℕ, true, ◌≡◌, ◌∙◌, refl, ap, some, List, [], ◌∷◌, ◌++◌, ◌==◌, contains, All, All-map, Bool-cases,
  inl, inr, arith, ==_refl, contains-keys,
}
use madcamp_w2_decision_make.Model.{Database, Criterion, ConclusionProposal}
use madcamp_w2_decision_make.Session.{Session, ok, pure}
use madcamp_w2_decision_make.Session.Runs.{bind-ok, bind-query}
use madcamp_w2_decision_make.Repositories.ProposalLists.{
  conclusion_proposals_on, get_conclusion_proposals_by_criterion_id,
}
use madcamp_w2_decision_make.Detail.Groups.{get_list}
use madcamp_w2_decision_make.Detail.Service.{
  Conclusions, collect_conclusions, all_conclusions, ids_of,
}

abbrev pub collected : List Criterion → Database → Conclusions
collected [] d = []
collected (c ∷ cs) d = (some c.id, conclusion_proposals_on c.id d) ∷ collected cs d

pub collect_conclusions-run :
    (cs : List Criterion) (s : Session)
    → collect_conclusions cs s ≡ (ok (collected cs s.working), s)
unfolding collect_conclusions get_conclusion_proposals_by_criterion_id pure
collect_conclusions-run [] s = refl
collect_conclusions-run (c ∷ cs) s =
    bind-query _ _ ∙ bind-ok _ _ (collect_conclusions-run cs s) ∙ refl

next_entry :
    (d : Database) (x c : Criterion) (m : Conclusions)
    → get_list (some c.id) m ≡ conclusion_proposals_on c.id d
    → get_list (some c.id) ((some x.id, conclusion_proposals_on x.id d) ∷ m)
      ≡ conclusion_proposals_on c.id d
unfolding get_list
next_entry d x c m h = elim (Bool-cases (x.id == c.id)) [
  | inl e ↦ rw e (ap (λ i. conclusion_proposals_on i d) (ground (arith, e)))
  | inr e ↦ rw e h
]

-- The entry of a criterion has its proposals.
pub get_list-collected :
    (cs : List Criterion) (d : Database)
    → All (λ c. get_list (some c.id) (collected cs d) ≡ conclusion_proposals_on c.id d) cs
unfolding get_list
get_list-collected [] d = tt
get_list-collected (x ∷ cs) d = (
  rw (==_refl x.id) refl,
  All-map _ _ cs (λ c. next_entry d x c (collected cs d)) (get_list-collected cs d),
)

contains_left :
    (i : ℕ) (ps qs : List ConclusionProposal)
    → contains i (ids_of ps) ≡ true
    → contains i (ids_of (ps ++ qs)) ≡ true
contains_left i [] qs h = absurd (ground (arith, h))
contains_left i (p ∷ ps) qs h = ground (arith, h, contains_left i ps qs)

contains_right :
    (i : ℕ) (ps qs : List ConclusionProposal)
    → contains i (ids_of qs) ≡ true
    → contains i (ids_of (ps ++ qs)) ≡ true
contains_right i [] qs h = h
contains_right i (p ∷ ps) qs h = ground (arith, contains_right i ps qs h)

-- The proposals of a criterion are among all that were collected.
pub all_conclusions-collected :
    (cs : List Criterion) (d : Database)
    → All
        (λ c.
          All
            (λ p. contains p.id (ids_of (all_conclusions (collected cs d))) ≡ true)
            (conclusion_proposals_on c.id d))
        cs
unfolding all_conclusions
all_conclusions-collected [] d = tt
all_conclusions-collected (x ∷ cs) d = (
  All-map _ _ (conclusion_proposals_on x.id d) (λ p. contains_left p.id _ _)
      (contains-keys (λ p. p.id) (conclusion_proposals_on x.id d)),
  All-map _ _ cs (λ c. All-map _ _ (conclusion_proposals_on c.id d) (λ p. contains_right p.id _ _))
      (all_conclusions-collected cs d),
)
