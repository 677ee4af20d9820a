-- ===== src/Detail/Grouping.antt =====
-- The dictionaries of get_event_detail against direct selections from the list of proposals.
use mathlib.Core.List.{append_assoc, append-nil}
use madcamp_w2_decision_make.Prelude.{
  ℕ, Bool, true, false, ◌≡◌, ◌∙◌, refl, sym, ap, Option, none, some, List, [], ◌∷◌, ◌++◌, ◌&&◌, map,
  where_rows, not, Bool-cases, inl, inr, arith,
}
use madcamp_w2_decision_make.Model.{Proposal, ProposalCategoryType}
use madcamp_w2_decision_make.Detail.Groups.{
  Targeted, ProposalInfo, Grouped, same_key, is_creation, append_to, get_list, add_proposal,
  group_proposals,
}

pub same_key_trans : (k key i : Option ℕ) → same_key k key ≡ true → same_key k i ≡ same_key key i
same_key_trans none none i h = refl
same_key_trans none (some y) i h = absurd (ground (arith, h))
same_key_trans (some x) none i h = absurd (ground (arith, h))
same_key_trans (some x) (some y) none h = refl
same_key_trans (some x) (some y) (some z) h = ground (arith, h)

get_list-append_to_same {ℓ} :
    {A : Type ℓ} (i key : Option ℕ) (x : A) (m : List (Option ℕ × List A))
    → same_key key i ≡ true
    → get_list i (append_to key x m) ≡ get_list i m ++ (x ∷ [])
unfolding get_list append_to
get_list-append_to_same i key x [] h = ground (arith, h)
get_list-append_to_same i key x ((k, l) ∷ m) h = elim (Bool-cases (same_key k key)) [
  | inl p ↦ rw p (ground (arith, h, same_key_trans k key i p))
  | inr p ↦ rw p (ground (arith, get_list-append_to_same i key x m h))
]

get_list-append_to_other {ℓ} :
    {A : Type ℓ} (i key : Option ℕ) (x : A) (m : List (Option ℕ × List A))
    → same_key key i ≡ false
    → get_list i (append_to key x m) ≡ get_list i m
unfolding get_list append_to
get_list-append_to_other i key x [] h = ground (arith, h)
get_list-append_to_other i key x ((k, l) ∷ m) h = elim (Bool-cases (same_key k key)) [
  | inl p ↦ rw p (ground (arith, h, same_key_trans k key i p))
  | inr p ↦ rw p (ground (arith, get_list-append_to_other i key x m h))
]

module _ {C : Type 0} (kind : Targeted C) where
  abbrev pub category_of : Proposal C → ProposalCategoryType
  category_of p = kind.category p.columns

  abbrev pub target_of : Proposal C → Option ℕ
  target_of p = kind.target p.columns

  -- A proposal to change or to delete the row `id`.
  abbrev pub changes : ℕ → Proposal C → Bool
  changes id p = not (is_creation (category_of p)) && same_key (target_of p) (some id)

  abbrev pub creates : Proposal C → Bool
  creates p = is_creation (category_of p)

  added_same :
      (info : Proposal C → ProposalInfo) (id : ℕ) (p : Proposal C) (g : Grouped)
      → changes id p ≡ true
      → get_list (some id) (add_proposal kind info p g).by_id
        ≡ get_list (some id) g.by_id ++ (info p ∷ [])
  unfolding add_proposal
  added_same info id p g h = elim (Bool-cases (creates p)) [
    | inl c ↦ absurd (ground (arith, h, c))
    | inr c ↦
        rw c
          (get_list-append_to_same (some id) (target_of p) (info p) g.by_id (ground (arith, h, c)))
  ]

  added_other :
      (info : Proposal C → ProposalInfo) (id : ℕ) (p : Proposal C) (g : Grouped)
      → changes id p ≡ false
      → get_list (some id) (add_proposal kind info p g).by_id ≡ get_list (some id) g.by_id
  unfolding add_proposal
  added_other info id p g h = elim (Bool-cases (creates p)) [
    | inl c ↦ rw c refl
    | inr c ↦
        rw c
          (get_list-append_to_other (some id) (target_of p) (info p) g.by_id (ground (arith, h, c)))
  ]

  -- The entry of a row has the proposals to change or delete it, in the order of the list.
  pub get_list-group_proposals :
      (info : Proposal C → ProposalInfo) (id : ℕ) (ps : List (Proposal C)) (g : Grouped)
      → get_list (some id) (group_proposals kind info ps g).by_id
        ≡ get_list (some id) g.by_id ++ map info (where_rows (changes id) ps)
  unfolding group_proposals
  get_list-group_proposals info id [] g = sym (append-nil (get_list (some id) g.by_id))
  get_list-group_proposals info id (p ∷ ps) g =
      let next = get_list-group_proposals info id ps (add_proposal kind info p g) in
      elim (Bool-cases (changes id p)) [
        | inl c ↦ rw c (
            next
            ∙ ap (λ l. l ++ map info (where_rows (changes id) ps)) (added_same info id p g c)
            ∙ append_assoc (get_list (some id) g.by_id) (info p ∷ []) _)
        | inr c ↦ rw c (
            next ∙ ap (λ l. l ++ map info (where_rows (changes id) ps)) (added_other info id p g c))
      ]

  pub creations-group_proposals :
      (info : Proposal C → ProposalInfo) (ps : List (Proposal C)) (g : Grouped)
      → (group_proposals kind info ps g).creation_proposals
        ≡ g.creation_proposals ++ map info (where_rows creates ps)
  unfolding group_proposals add_proposal
  creations-group_proposals info [] g = sym (append-nil g.creation_proposals)
  creations-group_proposals info (p ∷ ps) g =
      let next = creations-group_proposals info ps (add_proposal kind info p g) in
      elim (Bool-cases (creates p)) [
        | inl c ↦ rw c (next ∙ rw c (append_assoc g.creation_proposals (info p ∷ []) _))
        | inr c ↦ rw c (next ∙ rw c refl)
      ]
