-- ===== src/Comment/Counts.antt =====
-- How many comments a criterion has.
use mathlib.Core.Path.{subst}
use madcamp_w2_decision_make.Repositories.Comments
use madcamp_w2_decision_make.Prelude.{
  ℕ, String, ◌≡◌, ◌∙◌, ◌+◌, ap, sym, ◌∷◌, arith, true, length, where_rows, Option-cases, inl, ◌≤◌,
  inr, count_rows, find_by_id, first_row,
}
use madcamp_w2_decision_make.Model.{Comment, Criterion}
use madcamp_w2_decision_make.Session.{Session, ok, query, ◌>>=◌}
use madcamp_w2_decision_make.Comment.Service.{
  create_comment, create_block, get_comment_count, validate_criterion_belongs_to_event,
}
use madcamp_w2_decision_make.Repositories.Comments.{
  count_by_criterion_id, comments_on, is_comment_on,
}
use madcamp_w2_decision_make.Session.Runs.{after_check, transaction-inv, landed, bind-ok}
use madcamp_w2_decision_make.Vote.Guards.{validate_membership_accepted-inv}
use madcamp_w2_decision_make.Comment.Owner.{validate_criterion_belongs_to_event-inv}
use madcamp_w2_decision_make.Repositories.Contents.{criterion_of, criterion_key}
use madcamp_w2_decision_make.Repositories.Outbox.{create_outbox_event}
use madcamp_w2_decision_make.Repositories.Votes.{criterion_in}
use madcamp_w2_decision_make.Repositories.Events.{is_membership_of, membership_status_of, status_of}
use madcamp_w2_decision_make.BaseService.{is_accepted_status}
use madcamp_w2_decision_make.Vote.Checks.{validate_membership_accepted-run}

-- The block's effect on the table.
create_block-inv :
    (event_id criterion_id : ℕ) (content : String) (user_id : ℕ) (s : Session) {c : Comment}
    {t : Session}
    → create_block event_id criterion_id content user_id s ≡ (ok c, t)
    → (t.working.comments ≡ c ∷ s.working.comments)
      × (c.criterion_id ≡ criterion_id)
      × (t.working.memberships ≡ s.working.memberships)
      × (t.working.criteria ≡ s.working.criteria)
unfolding create_block Comments.create_comment create_outbox_event ◌>>=◌
create_block-inv event_id criterion_id content user_id s h = ground arith

validate_criterion-run :
    (criterion_id event_id : ℕ) (s : Session)
    → criterion_in event_id (criterion_of criterion_id s.working) ≡ true
    → (c : Criterion) × (validate_criterion_belongs_to_event criterion_id event_id s ≡ (ok c, s))
unfolding validate_criterion_belongs_to_event ◌>>=◌
validate_criterion-run criterion_id event_id s inside =
    elim (Option-cases (criterion_of criterion_id s.working)) [
      | inl missing ↦ absurd (ground (arith, inside, missing))
      | inr (c, found) ↦ (c, ground (arith, inside, found))
    ]

module _ (event_id criterion_id : ℕ) (content : String) (user_id : ℕ) (s : Session) where
  counted :
      (u t : Session) (c : Comment)
      → u.working.memberships ≡ s.working.memberships
      → u.working.criteria ≡ s.working.criteria
      → u.working.comments ≡ c ∷ s.working.comments
      → c.criterion_id ≡ criterion_id
      → t ≡ landed u.working u
      → (length (where_rows (is_membership_of user_id event_id) s.working.memberships) ≤ 1)
        × (is_accepted_status (membership_status_of user_id event_id s.working) ≡ true)
      → criterion_in event_id (criterion_of criterion_id s.working) ≡ true
      → get_comment_count event_id criterion_id user_id t
        ≡ (ok (comments_on criterion_id s.working + 1), t)
  unfolding get_comment_count count_by_criterion_id criterion_of query
  counted u t c members criteria added on landing member inside =
      let same_members = ap (λ x. x.working.memberships) landing ∙ members in
      let same_criteria = ap (λ x. x.working.criteria) landing ∙ criteria in
      let (x, valid) = validate_criterion-run criterion_id event_id t (
        subst (λ l. criterion_in event_id (find_by_id criterion_key criterion_id l) ≡ true)
          (sym same_criteria) inside) in
      bind-ok _ _ (
        validate_membership_accepted-run event_id t user_id
          (subst (λ l. length (where_rows (is_membership_of user_id event_id) l) ≤ 1)
            (sym same_members) member.0)
          (subst
            (λ l.
              is_accepted_status
                (status_of (first_row (where_rows (is_membership_of user_id event_id) l)))
              ≡ true)
            (sym same_members) member.1))
      ∙ bind-ok _ _ valid
      ∙ ap (λ n. (ok n, t))
          (ap (λ l. count_rows (is_comment_on criterion_id) l)
              (ap (λ x. x.working.comments) landing ∙ added)
            ∙ one_more)
    where
      one_more :
          count_rows (is_comment_on criterion_id) (c ∷ s.working.comments)
          ≡ comments_on criterion_id s.working + 1
      one_more = ground (arith, on)

  -- Once a comment is created, its author is told of one comment more on the criterion.
  pub create_comment-get_comment_count :
      {c : Comment} {t : Session}
      → create_comment event_id criterion_id content user_id s ≡ (ok c, t)
      → (get_comment_count event_id criterion_id user_id t
          ≡ (ok (comments_on criterion_id s.working + 1), t))
        × (t.committed ≡ t.working)
  unfolding create_comment get_comment_count count_by_criterion_id
  create_comment-get_comment_count {c} {t} h =
      after_check _ _ _ (validate_membership_accepted-inv event_id s user_id) h λ _ member h₁.
        after_check _ _ _ (validate_criterion_belongs_to_event-inv event_id s criterion_id) h₁
          λ _ inside h₂.
            let (u, p, landing) = transaction-inv _ h₂ in
            let (added, on, members, criteria) =
              create_block-inv event_id criterion_id content user_id s p in
            (
              counted u t c members criteria added on landing member inside,
              ap (λ x. x.committed) landing ∙ sym (ap (λ x. x.working) landing),
            )
