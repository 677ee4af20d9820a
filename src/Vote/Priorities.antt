-- ===== src/Vote/Priorities.antt =====
-- The priorities that create_criterion_priorities inserts, and what a query makes of them.
use mathlib.Core.List.{append-nil}
use madcamp_w2_decision_make.Prelude.{
  ℕ, ◌+◌, ◌<◌, ◌≡◌, refl, sym, ◌∙◌, ap, Bool, true, false, some, List, [], ◌∷◌, ◌++◌, map, arith,
  All, All-map, contains, where_rows, Distinct, order_by_asc, insert_asc_last, order_by_asc-All,
}
use madcamp_w2_decision_make.Model.{Database, CriterionPriority}
use madcamp_w2_decision_make.Session.{pure, Session, ok, ◌>>=◌}
use madcamp_w2_decision_make.Session.Runs.{bind-ok}
use madcamp_w2_decision_make.Repositories.Votes.{
  create_criterion_priority, create_criterion_priorities, is_same_priority, rank_of,
}

abbrev pub criterion_id_of : CriterionPriority → ℕ
criterion_id_of p = p.criterion_id

abbrev pub priority_key : CriterionPriority → ℕ
priority_key p = p.id

abbrev pub priority : ℕ → ℕ → ℕ → ℕ → ℕ → CriterionPriority
priority user_id now index next criterion_id = record {
  id = next;
  criterion_id = criterion_id;
  created_by = user_id;
  priority_rank = index;
  updated_at = some now;
}

module _ (user_id now : ℕ) where
  -- The rows after the insertion of one priority for each criterion, from a rank on.
  abbrev pub ranked : ℕ → ℕ → List ℕ → List CriterionPriority → List CriterionPriority
  ranked index next [] rows = rows
  ranked index next (c ∷ cs) rows =
      ranked (index + 1) (next + 1) cs (priority user_id now index next c ∷ rows)

  -- The ids that the insertion uses up.
  abbrev pub advance : ℕ → List ℕ → ℕ
  advance next [] = next
  advance next (c ∷ cs) = advance (next + 1) cs

  abbrev pub with_ranked : ℕ → List ℕ → Database → Database
  with_ranked index cs d = record d {
    criterion_priorities = ranked index d.next_id cs d.criterion_priorities;
    next_id = advance d.next_id cs;
  }

  -- The user has no priority for the criterion.
  abbrev pub Unranked : List CriterionPriority → ℕ → Type 0
  Unranked rows c = where_rows (is_same_priority c user_id) rows ≡ []

  create_criterion_priority-run :
      (index c : ℕ) (s : Session)
      → 0 < index
      → Unranked s.working.criterion_priorities c
      → create_criterion_priority user_id now index c s
        ≡ (ok tt, record s { working = with_ranked index (c ∷ []) s.working })
  unfolding create_criterion_priority ◌>>=◌
  create_criterion_priority-run index c s pos free = ground (arith, pos, free)

  cons-Unranked :
      (row : CriterionPriority) (rows : List CriterionPriority) (cs : List ℕ)
      → contains row.criterion_id cs ≡ false
      → All (Unranked rows) cs
      → All (Unranked (row ∷ rows)) cs
  cons-Unranked row rows [] h free = tt
  cons-Unranked row rows (c ∷ cs) h (f, free) = ground (arith, cons-Unranked row rows cs)

  -- The insertion of the priorities for distinct criteria that the user has not ranked returns.
  pub create_criterion_priorities-run :
      (index : ℕ) (cs : List ℕ) (s : Session)
      → 0 < index
      → Distinct cs
      → All (Unranked s.working.criterion_priorities) cs
      → create_criterion_priorities user_id now index cs s
        ≡ (ok tt, record s { working = with_ranked index cs s.working })
  unfolding create_criterion_priorities pure
  create_criterion_priorities-run index [] s pos d free = refl
  create_criterion_priorities-run index (c ∷ cs) s pos (fresh, d) (f, free) =
      bind-ok _ _ (create_criterion_priority-run index c s pos f)
      ∙ create_criterion_priorities-run (index + 1) cs _ (omega arith) d
          (cons-Unranked _ _ cs fresh free)

  map_snoc :
      (f : CriterionPriority → ℕ) (xs : List CriterionPriority) (r : CriterionPriority)
      (cs : List ℕ)
      → map f (xs ++ (r ∷ [])) ++ cs ≡ map f xs ++ (f r ∷ cs)
  map_snoc f [] r cs = refl
  map_snoc f (x ∷ xs) r cs = ap (λ l. f x ∷ l) (map_snoc f xs r cs)

  insert_last :
      (row : CriterionPriority) (rows : List CriterionPriority) (cs : List ℕ)
      → All (λ p. rank_of p < rank_of row) rows
      → map criterion_id_of (order_by_asc rank_of (row ∷ rows)) ++ cs
        ≡ map criterion_id_of (order_by_asc rank_of rows) ++ (row.criterion_id ∷ cs)
  insert_last row rows cs h =
      ap (λ l. map criterion_id_of l ++ cs)
        (insert_asc_last rank_of row _ (order_by_asc-All rank_of _ rows h))
      ∙ map_snoc criterion_id_of (order_by_asc rank_of rows) row cs

  module _ (q : CriterionPriority → Bool) where
    -- The query that selects the new rows lists their criteria after those of lower rank.
    pub order_by_asc-ranked :
        (index next : ℕ) (cs : List ℕ) (rows : List CriterionPriority)
        → All (λ p. rank_of p < index) (where_rows q rows)
        → ((i n : ℕ) → All (λ c. q (priority user_id now i n c) ≡ true) cs)
        → map criterion_id_of (order_by_asc rank_of (where_rows q (ranked index next cs rows)))
          ≡ map criterion_id_of (order_by_asc rank_of (where_rows q rows)) ++ cs
    order_by_asc-ranked index next [] rows low h = sym (append-nil _)
    order_by_asc-ranked index next (c ∷ cs) rows low h =
        order_by_asc-ranked (index + 1) (next + 1) cs _ raised (λ i n. (h i n).1)
        ∙ ap (λ l. map criterion_id_of (order_by_asc rank_of l) ++ cs) selected
        ∙ insert_last _ (where_rows q rows) cs low
      where
        row : CriterionPriority
        row = priority user_id now index next c

        selected : where_rows q (row ∷ rows) ≡ row ∷ where_rows q rows
        selected = rw ((h index next).0) refl

        raised : All (λ p. rank_of p < index + 1) (where_rows q (row ∷ rows))
        raised = rw selected (omega arith, All-map _ _ _ (λ p k. omega (arith, k)) low)

    -- What holds of each new row holds of each row that the query selects.
    pub ranked-All :
        (P : CriterionPriority → Type 0) (index next : ℕ) (cs : List ℕ)
        (rows : List CriterionPriority)
        → ((i n c : ℕ) → P (priority user_id now i n c))
        → All P (where_rows q rows)
        → All P (where_rows q (ranked index next cs rows))
    ranked-All P index next [] rows new h = h
    ranked-All P index next (c ∷ cs) rows new h =
        ranked-All P (index + 1) (next + 1) cs _ new (ground (arith, new index next c, h))
