-- ===== src/Detail/Times.antt =====
-- The times at which proposals were applied, in get_event_detail, against a direct selection.
use madcamp_w2_decision_make.Prelude.{
  ℕ, Bool, true, false, ◌≡◌, ◌∙◌, refl, ap, Option, some, List, [], ◌∷◌, ◌&&◌, map, where_rows,
  Bool-cases, inl, inr, arith, if◌then◌else◌,
}
use madcamp_w2_decision_make.Model.{Proposal, ProposalCategoryType}
use madcamp_w2_decision_make.Detail.Groups.{
  Targeted, Applied, same_key, assign, set_applied, get_applied, is_applied, applied_at_map,
}
use madcamp_w2_decision_make.Detail.Grouping.{same_key_trans, target_of, category_of}

get_applied-set_applied_same :
    (i key : Option ℕ) (f : Applied → Applied) (m : List (Option ℕ × Applied))
    → same_key key i ≡ true
    → get_applied i (set_applied key f m) ≡ f (get_applied i m)
unfolding get_applied set_applied
get_applied-set_applied_same i key f [] h = ground (arith, h)
get_applied-set_applied_same i key f ((k, a) ∷ m) h = elim (Bool-cases (same_key k key)) [
  | inl p ↦ rw p (ground (arith, h, same_key_trans k key i p))
  | inr p ↦ rw p (ground (arith, same_key_trans k key i, get_applied-set_applied_same i key f m h))
]

get_applied-set_applied_other :
    (i key : Option ℕ) (f : Applied → Applied) (m : List (Option ℕ × Applied))
    → same_key key i ≡ false
    → get_applied i (set_applied key f m) ≡ get_applied i m
unfolding get_applied set_applied
get_applied-set_applied_other i key f [] h = ground (arith, h)
get_applied-set_applied_other i key f ((k, a) ∷ m) h = elim (Bool-cases (same_key k key)) [
  | inl p ↦ rw p (ground (arith, h, same_key_trans k key i p))
  | inr p ↦ rw p (ground (arith, get_applied-set_applied_other i key f m h))
]

-- The last of a list of optional values, or `x` when it is empty.
abbrev pub last_or : Option ℕ → List (Option ℕ) → Option ℕ
last_or x [] = x
last_or x (y ∷ ys) = last_or y ys

abbrev pub is_modification : ProposalCategoryType → Bool
is_modification ProposalCategoryType.modification = true
is_modification _ = false

abbrev pub is_deletion : ProposalCategoryType → Bool
is_deletion ProposalCategoryType.deletion = true
is_deletion _ = false

assign-modified :
    (c : ProposalCategoryType) (at : Option ℕ) (a : Applied)
    → (assign c at a).modified_at ≡ (if is_modification c then at else a.modified_at)
unfolding assign
assign-modified ProposalCategoryType.creation at a = refl
assign-modified ProposalCategoryType.modification at a = refl
assign-modified ProposalCategoryType.deletion at a = refl

assign-deleted :
    (c : ProposalCategoryType) (at : Option ℕ) (a : Applied)
    → (assign c at a).deleted_at ≡ (if is_deletion c then at else a.deleted_at)
unfolding assign
assign-deleted ProposalCategoryType.creation at a = refl
assign-deleted ProposalCategoryType.modification at a = refl
assign-deleted ProposalCategoryType.deletion at a = refl

-- A field of an entry after one step of the loop, when `assign` sets it for the category `c`.
field_step :
    {P : Type 0} (f : P → Option ℕ) (now then_ : P) (old : P) (b₁ b₂ c : Bool) (at : Option ℕ)
    → now ≡ (if b₁ && b₂ then then_ else old)
    → f then_ ≡ (if c then at else f old)
    → f now ≡ (if b₁ && (b₂ && c) then at else f old)
field_step f now then_ old true true c at h k = ap f h ∙ k
field_step f now then_ old true false c at h k = ap f h
field_step f now then_ old false b₂ c at h k = ap f h

last_or-where_rows :
    {C : Type 0} (q : Proposal C → Bool) (p : Proposal C) (ps : List (Proposal C)) (x y : Option ℕ)
    → x ≡ (if q p then p.applied_at else y)
    → last_or x (map (λ r. r.applied_at) (where_rows q ps))
      ≡ last_or y (map (λ r. r.applied_at) (where_rows q (p ∷ ps)))
last_or-where_rows q p ps x y h = elim (Bool-cases (q p)) [
  | inl c ↦ rw c (ap (λ z. last_or z (map (λ r. r.applied_at) (where_rows q ps))) (h ∙ rw c refl))
  | inr c ↦ rw c (ap (λ z. last_or z (map (λ r. r.applied_at) (where_rows q ps))) (h ∙ rw c refl))
]

module _ {C : Type 0} (kind : Targeted C) where
  -- A proposal that was applied to the row `id` and is of a category.
  abbrev pub applied_as : (ProposalCategoryType → Bool) → ℕ → Proposal C → Bool
  applied_as c id p =
      is_applied kind p && (same_key (target_of kind p) (some id) && c (category_of kind p))

  -- One step of the loop over the applied proposals, at an entry.
  applied_step :
      (key : Option ℕ) (p : Proposal C) (m : List (Option ℕ × Applied))
      → get_applied key (applied_at_map kind (p ∷ []) m) ≡ (
          if is_applied kind p && same_key (target_of kind p) key
          then assign (category_of kind p) p.applied_at (get_applied key m)
          else get_applied key m)
  unfolding applied_at_map
  applied_step key p m = elim (Bool-cases (is_applied kind p)) [
    | inl c ↦ elim (Bool-cases (same_key (target_of kind p) key)) [
      | inl k ↦ rw (c, k) (get_applied-set_applied_same key (target_of kind p) _ m k)
      | inr k ↦ rw (c, k) (get_applied-set_applied_other key (target_of kind p) _ m k)
    ]
    | inr c ↦ rw c refl
  ]

  -- A field of the entries, and the category of the proposals that set it.
  module _ (f : Applied → Option ℕ) (c : ProposalCategoryType → Bool)
      (set : (k : ProposalCategoryType) (at : Option ℕ) (a : Applied)
        → f (assign k at a) ≡ (if c k then at else f a)) where
    field_times :
        (id : ℕ) (ps : List (Proposal C)) (m : List (Option ℕ × Applied))
        → f (get_applied (some id) (applied_at_map kind ps m))
          ≡ last_or
              (f (get_applied (some id) m))
              (map (λ p. p.applied_at) (where_rows (applied_as c id) ps))
    unfolding applied_at_map
    field_times id [] m = refl
    field_times id (p ∷ ps) m =
        let old = get_applied (some id) m in
        field_times id ps _
        ∙ last_or-where_rows (applied_as c id) p ps _ _ (
            field_step f _ (assign (category_of kind p) p.applied_at old) old (is_applied kind p)
              (same_key (target_of kind p) (some id)) (c (category_of kind p)) p.applied_at
              (applied_step (some id) p m) (set (category_of kind p) p.applied_at old))

  -- The times of an entry are those of the last in the list of the applied proposals of their
  -- category.
  pub modified-applied_at_map :
      (id : ℕ) (ps : List (Proposal C)) (m : List (Option ℕ × Applied))
      → (get_applied (some id) (applied_at_map kind ps m)).modified_at
        ≡ last_or
            (get_applied (some id) m).modified_at
            (map (λ p. p.applied_at) (where_rows (applied_as is_modification id) ps))
  modified-applied_at_map = field_times (λ a. a.modified_at) is_modification assign-modified

  pub deleted-applied_at_map :
      (id : ℕ) (ps : List (Proposal C)) (m : List (Option ℕ × Applied))
      → (get_applied (some id) (applied_at_map kind ps m)).deleted_at
        ≡ last_or
            (get_applied (some id) m).deleted_at
            (map (λ p. p.applied_at) (where_rows (applied_as is_deletion id) ps))
  deleted-applied_at_map = field_times (λ a. a.deleted_at) is_deletion assign-deleted
