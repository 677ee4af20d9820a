-- ===== src/Prelude/Keys.antt =====
-- Tables by primary key: the first row with an id is the row with that id.
use Prim.Native.Nat.{ℕ, ◌+◌}
use mathlib.Core.Path.{◌≡◌, refl, subst}
use mathlib.Core.Logic.{◌≢◌, inl, inr}
use mathlib.Core.Bool.{Bool}
use mathlib.Core.Option.{Option, none, some}
use mathlib.Core.List.{List, [], ◌∷◌}
use native.Mathlib.Omega.{arith}
use madcamp_w2_decision_make.Prelude.Tests.{◌==◌, if◌then◌else◌, Bool-cases}
use madcamp_w2_decision_make.Prelude.Lists.{count_rows, where_rows, All, All-map}

module _ {ℓ} {R : Type ℓ} (key : R → ℕ) where
  -- SELECT … WHERE id = k
  unfoldable pub find_by_id : ℕ → List R → Option R
  find_by_id k [] = none
  find_by_id k (r ∷ rows) = if key r == k then some r else find_by_id k rows

  -- UPDATE … SET f WHERE id = k
  unfoldable pub update_by_id : ℕ → (R → R) → List R → List R
  update_by_id k f [] = []
  update_by_id k f (r ∷ rows) = if key r == k then f r ∷ rows else r ∷ update_by_id k f rows

  -- DELETE … WHERE id = k
  unfoldable pub delete_by_id : ℕ → List R → List R
  delete_by_id k [] = []
  delete_by_id k (r ∷ rows) = if key r == k then rows else r ∷ delete_by_id k rows

  pub find-update_self :
      (k : ℕ) (f : R → R) (r : R) (rows : List R)
      → find_by_id k rows ≡ some r
      → key (f r) ≡ k
      → find_by_id k (update_by_id k f rows) ≡ some (f r)
  unfolding find_by_id update_by_id
  find-update_self k f r [] e h = ground arith
  find-update_self k f r (x ∷ rows) e h = ground (arith, find-update_self k f r rows)

  pub find-update_none :
      (k : ℕ) (f : R → R) (rows : List R) → find_by_id k rows ≡ none → update_by_id k f rows ≡ rows
  unfolding find_by_id update_by_id
  find-update_none k f [] e = refl
  find-update_none k f (x ∷ rows) e = ground (arith, find-update_none k f rows)

  pub find-update_ne :
      (j k : ℕ) (f : R → R) (rows : List R)
      → ((r : R) → key (f r) ≡ key r)
      → j ≢ k
      → find_by_id j (update_by_id k f rows) ≡ find_by_id j rows
  unfolding find_by_id update_by_id
  find-update_ne j k f [] keep h = refl
  find-update_ne j k f (x ∷ rows) keep h = ground (arith, keep x, find-update_ne j k f rows keep h)

  -- Two updates of one row are one update.
  pub update-update :
      (k : ℕ) (f g h : R → R) (r : R) (rows : List R)
      → find_by_id k rows ≡ some r
      → key (f r) ≡ k
      → g (f r) ≡ h r
      → update_by_id k g (update_by_id k f rows) ≡ update_by_id k h rows
  unfolding find_by_id update_by_id
  update-update k f g h r [] e p q = ground arith
  update-update k f g h r (x ∷ rows) e p q = ground (arith, update-update k f g h r rows)

  -- What holds of every row, and of the row that is found once it is updated.
  pub All-update {κ} :
      (P : R → Type κ) (k : ℕ) (f : R → R) (r : R) (rows : List R)
      → find_by_id k rows ≡ some r
      → P (f r)
      → All P rows
      → All P (update_by_id k f rows)
  unfolding find_by_id update_by_id
  All-update P k f r [] e p h = tt
  All-update P k f r (x ∷ rows) e p (q, h) = elim (Bool-cases (key x == k)) [
    | inl t ↦ let same : r ≡ x = ground (arith, t) in rw t (subst (λ y. P (f y)) same p, h)
    | inr t ↦
        let there : find_by_id k rows ≡ some r = ground (arith, t) in
        rw t (q, All-update P k f r rows there p h)
  ]

  -- The row that is found has the id asked for.
  pub key-find : (k : ℕ) (r : R) (rows : List R) → find_by_id k rows ≡ some r → key r ≡ k
  unfolding find_by_id
  key-find k r [] e = ground arith
  key-find k r (x ∷ rows) e = ground (arith, key-find k r rows)

  -- An update of one row moves a count by that row's share.
  pub count-update :
      (p : R → Bool) (k : ℕ) (f : R → R) (r : R) (rows : List R)
      → find_by_id k rows ≡ some r
      → count_rows p (update_by_id k f rows) + (if p r then 1 else 0)
        ≡ count_rows p rows + (if p (f r) then 1 else 0)
  unfolding find_by_id update_by_id
  count-update p k f r [] e = ground arith
  count-update p k f r (x ∷ rows) e = ground (arith, count-update p k f r rows)

  -- No two rows have one id.
  abbrev pub Keyed : List R → Type ℓ
  Keyed [] = Unit
  Keyed (r ∷ rows) = (find_by_id (key r) rows ≡ none) × Keyed rows

  pub find-where_rows-none :
      (k : ℕ) (p : R → Bool) (rows : List R)
      → find_by_id k rows ≡ none
      → find_by_id k (where_rows p rows) ≡ none
  unfolding find_by_id
  find-where_rows-none k p [] h = refl
  find-where_rows-none k p (r ∷ rows) h = ground (arith, find-where_rows-none k p rows)

  -- A query keeps the keys distinct.
  pub where_rows-Keyed : (p : R → Bool) (rows : List R) → Keyed rows → Keyed (where_rows p rows)
  unfolding find_by_id
  where_rows-Keyed p [] h = tt
  where_rows-Keyed p (r ∷ rows) h =
      ground (arith, find-where_rows-none (key r) p rows, where_rows-Keyed p rows h.1)

  find_cons :
      (r : R) (rows : List R)
      → find_by_id (key r) rows ≡ none
      → (m : R) → find_by_id (key m) rows ≡ some m
      → find_by_id (key m) (r ∷ rows) ≡ some m
  unfolding find_by_id
  find_cons r rows fresh m e = ground arith

  -- Where no two rows have one id, a lookup by a row's id finds that row.
  pub Keyed-found : (rows : List R) → Keyed rows → All (λ m. find_by_id (key m) rows ≡ some m) rows
  unfolding find_by_id
  Keyed-found [] h = tt
  Keyed-found (r ∷ rows) (fresh, h) =
      (ground arith, All-map _ _ rows (find_cons r rows fresh) (Keyed-found rows h))

  -- The other rows have other ids.
  pub Keyed-ne : (k : ℕ) (rows : List R) → find_by_id k rows ≡ none → All (λ m. key m ≢ k) rows
  unfolding find_by_id
  Keyed-ne k [] h = tt
  Keyed-ne k (r ∷ rows) h = (ground arith, Keyed-ne k rows (ground arith))
