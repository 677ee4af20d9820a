-- ===== src/Comment/Service.antt =====
-- app/services/event/comment_service.py. The texts of `detail` are left out of the errors, and so is
-- the row of the creator that is loaded with a comment.
use madcamp_w2_decision_make.Prelude.{ℕ, String, List, [], ◌∷◌, not, ◌==◌}
use madcamp_w2_decision_make.Model.{Comment, Criterion, Value}
use madcamp_w2_decision_make.Session.{
  Action, pure, query, or_raise, raise_if, not_found, forbidden, transaction, ◌>>=◌, ◌>>◌,
}
use madcamp_w2_decision_make.BaseService.{validate_membership_accepted}
use madcamp_w2_decision_make.Repositories.Contents.{criterion_of}
use madcamp_w2_decision_make.Repositories.Outbox.{create_outbox_event}
use madcamp_w2_decision_make.Repositories.Comments
use madcamp_w2_decision_make.Repositories.Comments.{
  comment_of, count_by_criterion_id, get_by_criterion_id,
}

unfoldable pub validate_criterion_belongs_to_event : ℕ → ℕ → Action Criterion
validate_criterion_belongs_to_event criterion_id event_id = do
  found ← query (criterion_of criterion_id)
  criterion ← or_raise found (not_found "Criterion not found")
  raise_if (not (criterion.event_id == event_id)) (not_found "Criterion not found")
  pure criterion

unfoldable pub validate_comment_exists_and_belongs_to_event : ℕ → ℕ → Action Comment
validate_comment_exists_and_belongs_to_event comment_id event_id = do
  found ← query (comment_of comment_id)
  comment ← or_raise found (not_found "Comment not found")
  validate_criterion_belongs_to_event comment.criterion_id event_id
  pure comment

unfoldable pub get_comment_count : ℕ → ℕ → ℕ → Action ℕ
get_comment_count event_id criterion_id user_id = do
  validate_membership_accepted user_id event_id
  validate_criterion_belongs_to_event criterion_id event_id
  count_by_criterion_id criterion_id

unfoldable pub get_comments : ℕ → ℕ → ℕ → Action (List Comment)
get_comments event_id criterion_id user_id = do
  validate_membership_accepted user_id event_id
  validate_criterion_belongs_to_event criterion_id event_id
  get_by_criterion_id criterion_id

-- The block of create_comment's transaction.
unfoldable pub create_block : ℕ → ℕ → String → ℕ → Action Comment
create_block event_id criterion_id content user_id = do
  result ← Comments.create_comment criterion_id content user_id
  create_outbox_event "comment.created.v1"
      (("comment_id", Value.uuid result.id) ∷ ("criterion_id", Value.uuid criterion_id) ∷ [])
      event_id
  pure result

unfoldable pub create_comment : ℕ → ℕ → String → ℕ → Action Comment
create_comment event_id criterion_id content user_id = do
  validate_membership_accepted user_id event_id
  validate_criterion_belongs_to_event criterion_id event_id
  transaction (create_block event_id criterion_id content user_id)

unfoldable pub update_comment : ℕ → ℕ → String → ℕ → Action Comment
update_comment event_id comment_id content user_id = do
  validate_membership_accepted user_id event_id
  comment ← validate_comment_exists_and_belongs_to_event comment_id event_id
  raise_if (not (comment.created_by == user_id)) (forbidden "Forbidden")
  transaction (Comments.update_comment content comment)

unfoldable pub delete_comment : ℕ → ℕ → ℕ → Action (Unit {0})
delete_comment event_id comment_id user_id = do
  validate_membership_accepted user_id event_id
  comment ← validate_comment_exists_and_belongs_to_event comment_id event_id
  raise_if (not (comment.created_by == user_id)) (forbidden "Forbidden")
  transaction (Comments.delete_comment comment)
