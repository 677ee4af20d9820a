-- ===== src/Repositories/Comments.antt =====
-- app/repositories/content/comment.py.
use madcamp_w2_decision_make.Prelude.{
  ℕ, String, Bool, Option, none, some, List, ◌∷◌, ◌==◌, where_rows, count_rows, delete_rows,
  order_by_desc, find_by_id, update_by_id,
}
use madcamp_w2_decision_make.Model.{Database, Comment}
use madcamp_w2_decision_make.Session.{Action, pure, query, write, utc_now, uuid4, ◌>>=◌, ◌>>◌}

abbrev pub comment_key : Comment → ℕ
comment_key c = c.id

unfoldable pub comment_of : ℕ → Database → Option Comment
comment_of id d = find_by_id comment_key id d.comments

abbrev pub is_comment_on : ℕ → Comment → Bool
is_comment_on criterion_id c = c.criterion_id == criterion_id

unfoldable pub get_by_criterion_id : ℕ → Action (List Comment)
get_by_criterion_id criterion_id =
    query
      λ d. order_by_desc (λ c. c.created_at) (where_rows (is_comment_on criterion_id) d.comments)

abbrev pub comments_on : ℕ → Database → ℕ
comments_on criterion_id d = count_rows (is_comment_on criterion_id) d.comments

unfoldable pub count_by_criterion_id : ℕ → Action ℕ
count_by_criterion_id criterion_id = query (comments_on criterion_id)

abbrev pub add_comment : Comment → Database → Database
add_comment c d = record d { comments = c ∷ d.comments }

-- `created_at` is the server's default `now()`.
unfoldable pub create_comment : ℕ → String → ℕ → Action Comment
create_comment criterion_id content created_by = do
  now ← utc_now
  id ← uuid4
  let comment : Comment = record {
    id = id;
    criterion_id = criterion_id;
    content = content;
    created_at = now;
    created_by = created_by;
    updated_at = none;
  }
  write (add_comment comment)
  pure comment

abbrev pub set_comment : ℕ → (Comment → Comment) → Database → Database
set_comment id f d = record d { comments = update_by_id comment_key id f d.comments }

-- `content` is what the service assigned before the flush.
unfoldable pub update_comment : String → Comment → Action Comment
update_comment content c = do
  now ← utc_now
  write (set_comment c.id (λ r. record r { content = content; updated_at = some now }))
  pure (record c { content = content; updated_at = some now })

abbrev pub remove_comment : ℕ → Database → Database
remove_comment id d = record d { comments = delete_rows (λ c. c.id == id) d.comments }

-- The deletion is flushed by the commit that follows.
unfoldable pub delete_comment : Comment → Action (Unit {0})
delete_comment c = write (remove_comment c.id)
