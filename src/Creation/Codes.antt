-- ===== src/Creation/Codes.antt =====
-- The search of a free entrance code.
use mathlib.Core.Path.{subst}
use madcamp_w2_decision_make.Prelude.{
  ℕ, zero, suc, String, Bool, true, false, ◌≡◌, ◌<◌, ◌≤◌, ◌+◌, ◌∙◌, refl, ◌⊎◌, inl, inr, arith,
  Bool-cases, length, is_some, where_rows, first_row, ◌==◌, ap, sym, not,
}
use madcamp_w2_decision_make.Model.{Database}
use madcamp_w2_decision_make.Session.{
  Session, Action, ok, err, internal, raise, pure, Error, Result,
}
use madcamp_w2_decision_make.Creation.Service.{
  try_codes, get_random_code, check_entrance_code_availability,
}
use madcamp_w2_decision_make.Repositories.Events.{exists_by_entrance_code, has_code}
use madcamp_w2_decision_make.Session.Runs.{bind-query, bind-ok}
use madcamp_w2_decision_make.Vote.Replace.{scalar_one_or_none-run}

-- No two events have one code.
abbrev pub UniqueCodes : Database → Type 0
UniqueCodes d = (code : String) → length (where_rows (has_code code) d.events) ≤ 1

abbrev pub is_taken : String → Database → Bool
is_taken code d = is_some (first_row (where_rows (has_code code) d.events))

exists_by_entrance_code-run :
    (code : String) (s : Session)
    → UniqueCodes s.working
    → exists_by_entrance_code code s ≡ (ok (is_taken code s.working), s)
unfolding exists_by_entrance_code pure
exists_by_entrance_code-run code s unique =
    bind-query _ _ ∙ bind-ok _ _ (scalar_one_or_none-run _ s (unique code)) ∙ refl

ok_same :
    {r : Result String × Session} {a b : String} {s t : Session}
    → r ≡ (ok a, s)
    → r ≡ (ok b, t)
    → a ≡ b
ok_same h k = ground (arith, sym h ∙ k)

not_both :
    {r : Result String × Session} {e : Error} {b : String} {s t : Session}
    → r ≡ (err e, s)
    → r ≡ (ok b, t)
    → ⊥
not_both h k = ground (arith, sym h ∙ k)

module _ (draw : ℕ → String) (s : Session) where
  -- The draws from one number up to another are taken.
  abbrev pub AllTaken : ℕ → ℕ → Type 0
  AllTaken from to = (m : ℕ) → from ≤ m → m < to → is_taken (draw m) s.working ≡ true

  -- The first free code among some draws, or none.
  abbrev pub Found : Action String → ℕ → ℕ → Type 0
  Found m from to =
      ((n : ℕ) × (from ≤ n)
        × (n < to)
        × AllTaken from n
        × (is_taken (draw n) s.working ≡ false)
        × (m s ≡ (ok (draw n), s)))
      ⊎ (AllTaken from to × (m s ≡ (err (internal "Failed to generate unique entrance code"), s)))

  one_more : (i j : ℕ) → is_taken (draw i) s.working ≡ true → AllTaken (i + 1) j → AllTaken i j
  one_more i j taken rest m low high = elim (Bool-cases (m == i)) [
    | inl same ↦ ground (arith, taken, same)
    | inr other ↦ rest m (ground (arith, other)) high
  ]

  taken_round :
      (left i : ℕ)
      → UniqueCodes s.working
      → is_taken (draw i) s.working ≡ true
      → try_codes draw (suc left) i s ≡ try_codes draw left (i + 1) s
  unfolding try_codes
  taken_round left i unique taken =
      bind-ok _ (λ b. elim b [ true ↦ try_codes draw left (i + 1) | false ↦ pure (draw i) ])
        (exists_by_entrance_code-run (draw i) s unique)
      ∙ ap
          (λ b.
            elim b as (λ _. Action String) [
              | true ↦ try_codes draw left (i + 1)
              | false ↦ pure (draw i)
            ]
              s)
          taken

  free_round :
      (left i : ℕ)
      → UniqueCodes s.working
      → is_taken (draw i) s.working ≡ false
      → try_codes draw (suc left) i s ≡ (ok (draw i), s)
  unfolding try_codes pure
  free_round left i unique free =
      bind-ok _ (λ b. elim b [ true ↦ try_codes draw left (i + 1) | false ↦ pure (draw i) ])
        (exists_by_entrance_code-run (draw i) s unique)
      ∙ ap
          (λ b.
            elim b as (λ _. Action String) [
              | true ↦ try_codes draw left (i + 1)
              | false ↦ pure (draw i)
            ]
              s)
          free

  try_codes-Found :
      (left i : ℕ) → UniqueCodes s.working → Found (try_codes draw left i) i (i + left)
  unfolding try_codes raise
  try_codes-Found zero i unique = inr (λ m low high. absurd (omega arith), refl)
  try_codes-Found (suc left) i unique = elim (Bool-cases (is_taken (draw i) s.working)) [
    | inl taken ↦ elim (try_codes-Found left (i + 1) unique) [
      | inl (n, low, high, all, free, run) ↦ inl (
        n,
        omega (arith, low),
        omega (arith, high),
        one_more i n taken all,
        free,
        taken_round left i unique taken ∙ run,
      )
      | inr (all, run) ↦ inr (
        one_more i (i + suc left) taken (λ m low high. all m low (omega (arith, high))),
        taken_round left i unique taken ∙ run,
      )
    ]
    | inr free ↦ inl (
      i,
      omega arith,
      omega arith,
      λ m low high. absurd (omega (arith, low, high)),
      free,
      free_round left i unique free,
    )
  ]

  check-ok :
      (code : String)
      → UniqueCodes s.working
      → is_taken code s.working ≡ false
      → check_entrance_code_availability code s ≡ (ok true, s)
  unfolding check_entrance_code_availability pure
  check-ok code unique free =
      bind-ok _ (λ taken. pure (not taken)) (exists_by_entrance_code-run code s unique)
      ∙ ap (λ b. (ok (not b), s)) free

  available :
      (m : Action String) {i j : ℕ} {code : String} {t : Session}
      → UniqueCodes s.working
      → Found m i j
      → m s ≡ (ok code, t)
      → check_entrance_code_availability code s ≡ (ok true, s)
  available m {code = code} unique (inl (n, low, high, all, free, run)) h =
      let same : draw n ≡ code = ok_same run h in
      check-ok code unique (subst (λ c. is_taken c s.working ≡ false) same free)
  available m unique (inr (all, run)) h = absurd (not_both run h)

  -- Where no two events have one code, get_random_code always ends: with the first draw that no
  -- event has as its code, or, where events have all of the first thirty draws, with an error. A
  -- code that it returns is then available.
  pub get_random_code-Found :
      UniqueCodes s.working
      → Found (get_random_code draw) 0 30
        × ((code : String) (t : Session)
            → get_random_code draw s ≡ (ok code, t)
            → check_entrance_code_availability code s ≡ (ok true, s))
  unfolding get_random_code
  get_random_code-Found unique = (
    try_codes-Found 30 0 unique,
    λ code t h. available (try_codes draw 30 0) unique (try_codes-Found 30 0 unique) h,
  )
