-- ===== src/Comment/Service.antt =====
-- The table of services/comment/src/db/schema.ts, the operations of services/comment/src/services/
-- comment.ts, and the subscribers of services/comment/src/subscribers.
use micro_blog.Base.{
  ℕ, ◌+◌, String, Text, string_eq, ◌==◌, Bool, true, false, not, ◌&&◌, ◌||◌, Option, none, some,
  List, [], ◌∷◌, find, filter, any, truthy, is_value, if◌then◌else◌, Exec, done, thrown,
  other_error, return, require, modify, ◌>>=◌, ◌>>◌,
}
use micro_blog.Sql.{insert, delete, count, order_desc, page_of}
use micro_blog.Shared.Errors.{not_found}
use micro_blog.Shared.Events.{Event, Bus, comment_created, comment_deleted, send}

pub record Comment : Type 0 where
  pub id : String
  pub post_id : String
  pub author_id : String
  pub parent_id : Option String
  pub content : Text
  pub created_at : ℕ
  pub updated_at : ℕ

-- The database, the connection to the bus, and how many identifiers the database has drawn. `is_uuid` tells
-- which texts PostgreSQL takes for a value of a column of type `uuid`; it refuses a statement with any other.
pub record CommentDb : Type 0 where
  pub comments : List Comment
  pub bus : Bus
  pub drawn : ℕ
  pub is_uuid : String → Bool

-- PRIMARY KEY (id)
abbrev pub id_clash : Comment → Comment → Bool
id_clash c d = c.id == d.id

unfoldable pub publish : Event → Exec CommentDb (Unit {0})
publish = send (λ s. s.bus) (λ b s. record s { bus = b })

-- `!parent || parent.post_id !== postId`, negated; the post may be missing.
abbrev pub answers : (post_id : Option String) → Option Comment → Bool
answers post_id none = false
answers post_id (some parent) = is_value post_id parent.post_id

unfoldable pub check_parent : (post_id parent_id : Option String) → Exec CommentDb (Unit {0})
check_parent post_id parent_id s =
    if truthy parent_id
    then require (answers post_id (find (λ c. is_value parent_id c.id) s.comments))
        (not_found "Parent comment") s
    else done tt s

-- `.filter` by author, and the rest of the WHERE clauses of the service
abbrev pub on_posts : Option (List String) → Comment → Bool
on_posts none c = true
on_posts (some []) c = true
on_posts (some (p ∷ ps)) c = any (λ q. c.post_id == q) (p ∷ ps)

pub record CommentPage : Type 0 where
  pub comments : List Comment
  pub total : ℕ
  pub page : ℕ
  pub limit : ℕ

unfoldable pub get_comments_by_post : String → (page limit : ℕ) → CommentDb → CommentPage
get_comments_by_post post_id page limit s = record {
  comments =
      page_of page limit
        (order_desc (λ c. c.created_at) (filter (λ c. c.post_id == post_id) s.comments));
  total = count (λ c. c.post_id == post_id) s.comments;
  page = page;
  limit = limit;
}

unfoldable pub list_comments : (page limit : ℕ) → Option (List String) → CommentDb → CommentPage
list_comments page limit post_ids s = record {
  comments =
      page_of page limit (order_desc (λ c. c.created_at) (filter (on_posts post_ids) s.comments));
  total = count (on_posts post_ids) s.comments;
  page = page;
  limit = limit;
}

module _ (uuid : ℕ → String) (now : ℕ) where
  abbrev pub new_comment : String → String → Text → Option String → ℕ → Comment
  new_comment post_id author_id content parent_id drawn = record {
    id = uuid drawn;
    post_id = post_id;
    author_id = author_id;
    parent_id = parent_id;
    content = content;
    created_at = now;
    updated_at = now;
  }

  -- INSERT INTO comments; `post_id` is NOT NULL, and the identifiers are of type `uuid`. Those of parents are
  -- checked by the schema.
  unfoldable pub insert_comment :
      Option String → String → Text → Option String → Exec CommentDb Comment
  insert_comment none author_id content parent_id s = thrown other_error s
  insert_comment (some post_id) author_id content parent_id s =
      let row = new_comment post_id author_id content parent_id s.drawn in
      if not (s.is_uuid post_id && s.is_uuid author_id)
      then thrown other_error s
      else elim (insert id_clash row s.comments) [
        | none ↦ thrown other_error s
        | some comments ↦ done row (record s { comments = comments; drawn = s.drawn + 1 })
      ]

  unfoldable pub create_comment :
      (post_id : Option String)
      → String
      → Text
      → (parent_id : Option String) → Exec CommentDb Comment
  create_comment post_id author_id content parent_id = do
    check_parent post_id parent_id
    comment ← insert_comment post_id author_id content parent_id
    publish (comment_created comment.id comment.post_id author_id content parent_id)
    return comment

-- `findFirst` by the identifier. No row has an identifier that is no UUID, but PostgreSQL refuses to look
-- for it.
unfoldable pub find_comment : String → Exec CommentDb Comment
find_comment id s = elim (find (λ c. c.id == id) s.comments) [
  | none ↦ thrown (if s.is_uuid id then not_found "Comment" else other_error) s
  | some comment ↦ done comment s
]

abbrev pub delete_where : (Comment → Bool) → CommentDb → CommentDb
delete_where p s = record s { comments = delete p s.comments }

-- The replies to the comment stay.
unfoldable pub delete_comment : String → String → Option String → Exec CommentDb (Unit {0})
delete_comment id author_id user_role = do
  comment ← find_comment id
  require (comment.author_id == author_id || is_value user_role "admin") (not_found "Comment")
  modify (delete_where (λ c. c.id == id))
  publish (comment_deleted id comment.post_id)

-- What one message does: subscribers/post-deleted.ts, subscribers/user-deleted.ts.
abbrev pub on_post_deleted : String → CommentDb → CommentDb
on_post_deleted post_id = delete_where (λ c. c.post_id == post_id)

abbrev pub on_user_deleted : String → CommentDb → CommentDb
on_user_deleted user_id = delete_where (λ c. c.author_id == user_id)
