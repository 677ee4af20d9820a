-- ===== src/Prelude/Rows.antt =====
-- What queries return after deletions by id and after insertions.
use Prim.Native.Nat.{ℕ, ◌≤◌}
use mathlib.Core.Path.{◌≡◌, refl}
use mathlib.Core.Bool.{Bool, true, false}
use mathlib.Core.List.{List, [], ◌∷◌, map}
use native.Mathlib.Omega.{arith}
use madcamp_w2_decision_make.Prelude.Tests.{◌==◌, Bool-cases, ==_refl}
use madcamp_w2_decision_make.Prelude.Lists.{
  length, where_rows, delete_rows, All, All-map, All-zip, count_rows,
}
use madcamp_w2_decision_make.Prelude.Sets.{contains, to_set}
use madcamp_w2_decision_make.Prelude.Order.{order_by_asc, insert_asc}
use mathlib.Core.Logic.{inl, inr}

module _ {ℓ} {R : Type ℓ} where
  pub All-delete_rows {κ} :
      (P : R → Type κ) (q : R → Bool) (xs : List R) → All P xs → All P (delete_rows q xs)
  All-delete_rows P q [] h = tt
  All-delete_rows P q (x ∷ xs) (p, h) = ground (arith, All-delete_rows P q xs h)

  -- What is left does not satisfy the WHERE clause of the DELETE.
  pub delete_rows-All : (q : R → Bool) (xs : List R) → All (λ x. q x ≡ false) (delete_rows q xs)
  delete_rows-All q [] = tt
  delete_rows-All q (x ∷ xs) = elim (Bool-cases (q x)) [
    | inl e ↦ rw e (delete_rows-All q xs)
    | inr e ↦ rw e (e, delete_rows-All q xs)
  ]

  pub count-delete_rows_le :
      (p q : R → Bool) (xs : List R) → count_rows p (delete_rows q xs) ≤ count_rows p xs
  count-delete_rows_le p q [] = omega arith
  count-delete_rows_le p q (x ∷ xs) = ground (arith, count-delete_rows_le p q xs)

  pub where_rows-nil :
      (q : R → Bool) (xs : List R) → All (λ x. q x ≡ false) xs → where_rows q xs ≡ []
  where_rows-nil q [] h = refl
  where_rows-nil q (x ∷ xs) (p, h) = ground (arith, where_rows-nil q xs h)

  -- The only row that a query selects.
  pub where_rows-one :
      (q : R → Bool) (x : R) (xs : List R)
      → q x ≡ true
      → where_rows q xs ≡ []
      → where_rows q (x ∷ xs) ≡ x ∷ []
  where_rows-one q x xs p h = ground (arith, p, h)

  -- A stronger WHERE clause than one that selects nothing.
  pub where_rows-nil_of :
      (p q : R → Bool) (xs : List R)
      → ((x : R) → p x ≡ true → q x ≡ true)
      → where_rows q xs ≡ []
      → where_rows p xs ≡ []
  where_rows-nil_of p q [] f h = refl
  where_rows-nil_of p q (x ∷ xs) f h = ground (arith, f x, where_rows-nil_of p q xs f)

module _ {ℓ} {R : Type ℓ} (key : R → ℕ) where
  -- DELETE by primary key, one row after the other.
  abbrev pub delete_ids : List ℕ → List R → List R
  delete_ids [] rows = rows
  delete_ids (id ∷ ids) rows = delete_ids ids (delete_rows (λ r. key r == id) rows)

  -- A deletion leaves no more rows that satisfy a test.
  pub count-delete_ids :
      (p : R → Bool) (ids : List ℕ) (rows : List R)
      → count_rows p (delete_ids ids rows) ≤ count_rows p rows
  count-delete_ids p [] rows = omega arith
  count-delete_ids p (id ∷ ids) rows = omega (
    arith,
    count-delete_rows_le p (λ r. key r == id) rows,
    count-delete_ids p ids (delete_rows (λ r. key r == id) rows),
  )

  contains_next :
      (q : R → Bool) (id : ℕ) (ids : List ℕ) (r : R)
      → (q r ≡ true → contains (key r) (id ∷ ids) ≡ true) × ((key r == id) ≡ false)
      → q r ≡ true
      → contains (key r) ids ≡ true
  contains_next q id ids r h t = ground (arith, h.0 t, h.1)

  -- Once the ids of the rows that a query selects are deleted, it selects nothing.
  pub where_rows-delete_ids :
      (q : R → Bool) (ids : List ℕ) (rows : List R)
      → All (λ r. q r ≡ true → contains (key r) ids ≡ true) rows
      → where_rows q (delete_ids ids rows) ≡ []
  where_rows-delete_ids q [] rows h =
      where_rows-nil q rows (All-map _ _ rows (λ r k. ground (arith, k)) h)
  where_rows-delete_ids q (id ∷ ids) rows h =
      where_rows-delete_ids q ids (delete_rows (λ r. key r == id) rows) (
        All-map _ _ _ (contains_next q id ids)
          (All-zip _ _ _ (All-delete_rows _ _ rows h) (delete_rows-All (λ r. key r == id) rows)))

  contains-insert_asc :
      (k : ℕ) (rank : R → ℕ) (r : R) (rows : List R)
      → contains k (map key (insert_asc rank r rows)) ≡ contains k (map key (r ∷ rows))
  contains-insert_asc k rank r [] = refl
  contains-insert_asc k rank r (x ∷ rows) = ground (arith, contains-insert_asc k rank r rows)

  pub contains-order_by_asc :
      (k : ℕ) (rank : R → ℕ) (rows : List R)
      → contains k (map key (order_by_asc rank rows)) ≡ contains k (map key rows)
  contains-order_by_asc k rank [] = refl
  contains-order_by_asc k rank (x ∷ rows) = ground (
    arith,
    contains-insert_asc k rank x (order_by_asc rank rows),
    contains-order_by_asc k rank rows,
  )

  -- A row that a query selects has its id among the ids of the rows selected.
  pub contains-where_rows :
      (q : R → Bool) (rows : List R)
      → All (λ r. q r ≡ true → contains (key r) (map key (where_rows q rows)) ≡ true) rows
  contains-where_rows q [] = tt
  contains-where_rows q (x ∷ rows) = (
    λ t. ground (arith, ==_refl (key x)),
    All-map _ _ rows (λ r k t. ground (arith, k t)) (contains-where_rows q rows),
  )

pub length-to_set : (xs : List ℕ) → length (to_set xs) ≤ length xs
length-to_set [] = omega arith
length-to_set (x ∷ xs) = ground (arith, length-to_set xs)

pub contains-to_set : (k : ℕ) (xs : List ℕ) → contains k (to_set xs) ≡ contains k xs
contains-to_set k [] = refl
contains-to_set k (x ∷ xs) = ground (arith, contains-to_set k xs)

-- No element comes twice.
abbrev pub Distinct : List ℕ → Type 0
Distinct [] = Unit
Distinct (x ∷ xs) = (contains x xs ≡ false) × Distinct xs

-- A list as long as its set has no element twice.
pub to_set-Distinct : (xs : List ℕ) → length xs ≡ length (to_set xs) → Distinct xs
to_set-Distinct [] h = tt
to_set-Distinct (x ∷ xs) h =
    ground (arith, length-to_set xs, contains-to_set x xs, to_set-Distinct xs)

pub map-All {ℓ κ} :
    {A : Type ℓ} {B : Type κ} (f g : A → B) (xs : List A)
    → All (λ x. f x ≡ g x) xs
    → map f xs ≡ map g xs
map-All f g [] h = refl
map-All f g (x ∷ xs) (p, h) = λ i. p i ∷ map-All f g xs h i

-- The elements of a list have their keys in the list of the keys.
pub contains-keys {ℓ} :
    {A : Type ℓ} (key : A → ℕ) (xs : List A) → All (λ x. contains (key x) (map key xs) ≡ true) xs
contains-keys key [] = tt
contains-keys key (x ∷ xs) =
    (ground arith, All-map _ _ xs (λ y h. ground (arith, h)) (contains-keys key xs))
