-- ===== src/Prelude/Order.antt =====
-- ORDER BY: insertion by a numeric key, ascending or descending. Rows with one key, whose order SQL
-- leaves open, come in the order of the table.
use Prim.Native.Nat.{ℕ, zero, suc, ◌+◌, ◌<◌, ◌≤◌}
use mathlib.Core.Path.{◌≡◌, refl}
use mathlib.Core.List.{List, [], ◌∷◌, ◌++◌}
use native.Mathlib.Omega.{arith}
use madcamp_w2_decision_make.Prelude.Tests.{leb, if◌then◌else◌, Bool-cases}
use madcamp_w2_decision_make.Prelude.Lists.{take, All, count_rows, All-map}
use mathlib.Core.Bool.{Bool}
use mathlib.Core.Logic.{inl, inr}

module _ {ℓ} {R : Type ℓ} (key : R → ℕ) where
  abbrev pub insert_asc : R → List R → List R
  insert_asc r [] = r ∷ []
  insert_asc r (x ∷ xs) =
      let rest = insert_asc r xs in if leb (key r) (key x) then r ∷ x ∷ xs else x ∷ rest

  -- ORDER BY key ASC
  abbrev pub order_by_asc : List R → List R
  order_by_asc [] = []
  order_by_asc (x ∷ xs) = insert_asc x (order_by_asc xs)

  abbrev pub insert_desc : R → List R → List R
  insert_desc r [] = r ∷ []
  insert_desc r (x ∷ xs) =
      let rest = insert_desc r xs in if leb (key x) (key r) then r ∷ x ∷ xs else x ∷ rest

  -- ORDER BY key DESC
  abbrev pub order_by_desc : List R → List R
  order_by_desc [] = []
  order_by_desc (x ∷ xs) = insert_desc x (order_by_desc xs)

  -- A row with the greatest key comes last.
  pub insert_asc_last :
      (r : R) (xs : List R) → All (λ x. key x < key r) xs → insert_asc r xs ≡ xs ++ (r ∷ [])
  insert_asc_last r [] h = refl
  insert_asc_last r (x ∷ xs) (p, h) = ground (arith, insert_asc_last r xs h)

  pub insert_asc-All {κ} :
      (P : R → Type κ) (r : R) (xs : List R) → P r → All P xs → All P (insert_asc r xs)
  insert_asc-All P r [] p h = (p, h)
  insert_asc-All P r (x ∷ xs) p (q, h) = ground (arith, insert_asc-All P r xs p h)

  pub order_by_asc-All {κ} : (P : R → Type κ) (xs : List R) → All P xs → All P (order_by_asc xs)
  order_by_asc-All P [] h = tt
  order_by_asc-All P (x ∷ xs) (p, h) =
      insert_asc-All P x (order_by_asc xs) p (order_by_asc-All P xs h)

  pub All-take {κ} : (P : R → Type κ) (n : ℕ) (xs : List R) → All P xs → All P (take n xs)
  All-take P zero xs h = tt
  All-take P (suc n) [] h = tt
  All-take P (suc n) (x ∷ xs) (p, h) = (p, All-take P n xs h)

  pub insert_desc-All {κ} :
      (P : R → Type κ) (r : R) (xs : List R) → P r → All P xs → All P (insert_desc r xs)
  insert_desc-All P r [] p h = (p, h)
  insert_desc-All P r (x ∷ xs) p (q, h) = ground (arith, insert_desc-All P r xs p h)

  -- The greatest key first.
  abbrev pub Descending : List R → Type 0
  Descending [] = Unit
  Descending (x ∷ xs) = All (λ y. key y ≤ key x) xs × Descending xs

  insert_desc-Descending : (r : R) (xs : List R) → Descending xs → Descending (insert_desc r xs)
  insert_desc-Descending r [] h = (tt, tt)
  insert_desc-Descending r (x ∷ xs) (low, h) = elim (Bool-cases (leb (key x) (key r))) [
    | inl e ↦ rw e ((ground (arith, e), All-map _ _ xs (λ y k. ground (arith, k, e)) low), (low, h))
    | inr e ↦ rw e (
      insert_desc-All (λ y. key y ≤ key x) r xs (ground (arith, e)) low,
      insert_desc-Descending r xs h,
    )
  ]

  pub order_by_desc-Descending : (xs : List R) → Descending (order_by_desc xs)
  order_by_desc-Descending [] = tt
  order_by_desc-Descending (x ∷ xs) =
      insert_desc-Descending x (order_by_desc xs) (order_by_desc-Descending xs)

  count-insert_desc :
      (p : R → Bool) (r : R) (xs : List R) → count_rows p (insert_desc r xs) ≡ count_rows p (r ∷ xs)
  count-insert_desc p r [] = refl
  count-insert_desc p r (x ∷ xs) = ground (arith, count-insert_desc p r xs)

  -- ORDER BY keeps the rows, each as often as it came.
  pub count-order_by_desc :
      (p : R → Bool) (xs : List R) → count_rows p (order_by_desc xs) ≡ count_rows p xs
  count-order_by_desc p [] = refl
  count-order_by_desc p (x ∷ xs) =
      ground (arith, count-insert_desc p x (order_by_desc xs), count-order_by_desc p xs)

-- SUM(n)
abbrev pub sum_of {ℓ} : {R : Type ℓ} → (R → ℕ) → List R → ℕ
sum_of n [] = 0
sum_of n (x ∷ xs) = n x + sum_of n xs

module _ {ℓ} {R : Type ℓ} (key n : R → ℕ) where
  sum_of-insert_asc : (r : R) (xs : List R) → sum_of n (insert_asc key r xs) ≡ n r + sum_of n xs
  sum_of-insert_asc r [] = refl
  sum_of-insert_asc r (x ∷ xs) = ground (arith, sum_of-insert_asc r xs)

  pub sum_of-order_by_asc : (xs : List R) → sum_of n (order_by_asc key xs) ≡ sum_of n xs
  sum_of-order_by_asc [] = refl
  sum_of-order_by_asc (x ∷ xs) =
      omega (arith, sum_of-insert_asc x (order_by_asc key xs), sum_of-order_by_asc xs)
