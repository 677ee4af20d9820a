-- ===== src/Comment/Owner.antt =====
-- Who may change a comment.
use mathlib.Core.Path.{subst}
use madcamp_w2_decision_make.Repositories.Comments
use madcamp_w2_decision_make.Prelude.{
  ℕ, ◌≡◌, some, true, String, update_by_id, delete_rows, ◌==◌, arith, not, false, ap, ◌∙◌, key-find,
  sym,
}
use madcamp_w2_decision_make.Model.{Comment, Database}
use madcamp_w2_decision_make.Session.{Session, ok, ◌>>=◌}
use madcamp_w2_decision_make.Repositories.Comments.{comment_of, comment_key}
use madcamp_w2_decision_make.Comment.Service.{
  validate_comment_exists_and_belongs_to_event, update_comment, validate_criterion_belongs_to_event,
  delete_comment,
}
use madcamp_w2_decision_make.Session.Runs.{
  Passes, after_or_raise, after_query, after_raise_if, after_check, pure-inv, transaction-inv,
}
use madcamp_w2_decision_make.Repositories.Votes.{criterion_in}
use madcamp_w2_decision_make.Repositories.Contents.{criterion_of}
use madcamp_w2_decision_make.BaseService.{is_accepted_status}
use madcamp_w2_decision_make.Repositories.Events.{membership_status_of}
use madcamp_w2_decision_make.Vote.Guards.{validate_membership_accepted-inv}

-- What a change of a comment needs of the database.
pub record OwnComment (event_id comment_id user_id : ℕ) (c : Comment) (d : Database) : Type 0 where
  pub comment_found : comment_of comment_id d ≡ some c
  pub is_owner : c.created_by ≡ user_id
  pub in_event : criterion_in event_id (criterion_of c.criterion_id d) ≡ true
  pub is_member : is_accepted_status (membership_status_of user_id event_id d) ≡ true

module _ (event_id : ℕ) (s : Session) where
  pub validate_criterion_belongs_to_event-inv :
      (criterion_id : ℕ)
      → Passes
          (validate_criterion_belongs_to_event criterion_id event_id)
          s
          (λ _. criterion_in event_id (criterion_of criterion_id s.working) ≡ true)
  unfolding validate_criterion_belongs_to_event
  validate_criterion_belongs_to_event-inv criterion_id c t h =
      let (x, found, h₁) = after_or_raise _ _ _ (after_query _ _ h) in
      let (passed, h₂) = after_raise_if _ _ _ h₁ in (ground (arith, found, passed), (pure-inv h₂).1)

  validate_comment-inv :
      (comment_id : ℕ)
      → Passes (validate_comment_exists_and_belongs_to_event comment_id event_id) s (λ c.
        (comment_of comment_id s.working ≡ some c)
        × (criterion_in event_id (criterion_of c.criterion_id s.working) ≡ true))
  unfolding validate_comment_exists_and_belongs_to_event
  validate_comment-inv comment_id c t h =
      let (x, found, h₁) = after_or_raise _ _ _ (after_query _ _ h) in
      after_check _ _ _ (validate_criterion_belongs_to_event-inv x.criterion_id) h₁ λ y inside h₂.
        let (result, same) = pure-inv h₂ in
        (
          subst
              (λ (z : Comment).
                (comment_of comment_id s.working ≡ some z)
                × (criterion_in event_id (criterion_of z.criterion_id s.working) ≡ true))
              result (found, inside),
          same,
        )

-- What the two writes do to the table.
updated :
    (content : String) (comment_id : ℕ) (c : Comment) (s : Session) {r : Comment} {t : Session}
    → c.id ≡ comment_id
    → Comments.update_comment content c s ≡ (ok r, t)
    → t.working.comments
      ≡ update_by_id comment_key comment_id
          (λ x. record x { content = content; updated_at = some s.clock })
          s.working.comments
unfolding Comments.update_comment ◌>>=◌
updated content comment_id c s {r} {t} same p =
    ap (λ x. x.1.working.comments) (sym p)
    ∙ ap
        (λ id.
          update_by_id comment_key id
            (λ x. record x { content = content; updated_at = some s.clock }) s.working.comments)
        same

deleted :
    (comment_id : ℕ) (c : Comment) (s : Session) {r : Unit {0}} {t : Session}
    → c.id ≡ comment_id
    → Comments.delete_comment c s ≡ (ok r, t)
    → t.working.comments ≡ delete_rows (λ y. y.id == comment_id) s.working.comments
unfolding Comments.delete_comment ◌>>=◌
deleted comment_id c s same p =
    ap (λ x. x.1.working.comments) (sym p)
    ∙ ap (λ id. delete_rows (λ (y : Comment). y.id == id) s.working.comments) same

module _ (event_id comment_id user_id : ℕ) (s : Session) where
  own_comment :
      (c : Comment)
      → (comment_of comment_id s.working ≡ some c)
        × (criterion_in event_id (criterion_of c.criterion_id s.working) ≡ true)
      → is_accepted_status (membership_status_of user_id event_id s.working) ≡ true
      → not (c.created_by == user_id) ≡ false
      → OwnComment event_id comment_id user_id c s.working
  own_comment c known member owner = record {
    comment_found = known.0;
    is_owner = ground (arith, owner);
    in_event = known.1;
    is_member = member;
  }

  found_id : (c : Comment) → comment_of comment_id s.working ≡ some c → c.id ≡ comment_id
  unfolding comment_of
  found_id c found = key-find comment_key comment_id c s.working.comments found

  -- An update of a comment that returns was asked by an accepted member of the event who wrote the
  -- comment, which is on a criterion of the event. It commits the new content of that one row.
  pub update_comment-inv :
      (content : String) {r : Comment} {t : Session}
      → update_comment event_id comment_id content user_id s ≡ (ok r, t)
      → (c : Comment) × OwnComment event_id comment_id user_id c s.working
        × (t.committed.comments
            ≡ update_by_id comment_key comment_id
                (λ x. record x { content = content; updated_at = some s.clock })
                s.working.comments)
  unfolding update_comment
  update_comment-inv content h =
      after_check _ _ _ (validate_membership_accepted-inv event_id s user_id) h λ _ member h₁.
        after_check _ _ _ (validate_comment-inv event_id s comment_id) h₁ λ c known h₂.
          let (owner, h₃) = after_raise_if _ _ _ h₂ in
          let (u, p, landing) = transaction-inv _ h₃ in
          (
            c,
            own_comment c known member.1 owner,
            ap (λ x. x.committed.comments) landing
                ∙ updated content comment_id c s (found_id c known.0) p,
          )

  -- A deletion of a comment that returns was asked by an accepted member of the event who wrote the
  -- comment, which is on a criterion of the event. It commits the table without that comment.
  pub delete_comment-inv :
      {x : Unit {0}} {t : Session}
      → delete_comment event_id comment_id user_id s ≡ (ok x, t)
      → (c : Comment) × OwnComment event_id comment_id user_id c s.working
        × (t.committed.comments ≡ delete_rows (λ y. y.id == comment_id) s.working.comments)
  unfolding delete_comment
  delete_comment-inv h =
      after_check _ _ _ (validate_membership_accepted-inv event_id s user_id) h λ _ member h₁.
        after_check _ _ _ (validate_comment-inv event_id s comment_id) h₁ λ c known h₂.
          let (owner, h₃) = after_raise_if _ _ _ h₂ in
          let (u, p, landing) = transaction-inv _ h₃ in
          (
            c,
            own_comment c known member.1 owner,
            ap (λ x. x.committed.comments) landing ∙ deleted comment_id c s (found_id c known.0) p,
          )
