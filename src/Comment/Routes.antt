-- ===== src/Comment/Routes.antt =====
-- services/comment/src/routes/comments.ts. A body or a query arrives as the schema passes it on, and as
-- `none` where the schema refuses it.
use Prim.Native.Char.{Char, code}
use Prim.Native.String as Str
use Prim.Native.String.{◌∷◌ as ◌∷ₛ◌}
use micro_blog.Base.{
  ℕ, nat_eq, String, Text, Option, some, none, List, [], ◌∷◌, ◌==◌, if◌then◌else◌, filter, truthy,
  or_else, Exec, return, gets, require, other_error, all, ◌>>=◌, ◌>>◌,
}
use micro_blog.Shared.Errors.{Reply, sent, no_content}
use micro_blog.Shared.Requests.{parsed, signed_in}
use micro_blog.Comment.Service.{
  Comment, CommentDb, CommentPage, create_comment, delete_comment, get_comments_by_post,
  list_comments,
}

pub record CreateComment : Type 0 where
  pub post_id : Option String
  pub content : Text
  pub parent_id : Option String

pub record Pagination : Type 0 where
  pub page : ℕ
  pub limit : ℕ

-- What the three routes that write answer.
module _ (uuid : ℕ → String) (now : ℕ) where
  -- POST /comments
  unfoldable pub post_comments :
      (user_id : Option String) → Option CreateComment → Exec CommentDb (Reply Comment)
  unfolding parsed
  post_comments user_id body = signed_in "Missing user ID" user_id λ author_id. do
    b ← parsed body
    comment ← create_comment uuid now b.post_id author_id b.content b.parent_id
    return (sent 201 comment)

  -- POST /posts/:postId/comments; the identifier in the body is ignored.
  unfoldable pub post_nested_comments :
      (post_id : String) (user_id : Option String)
      → Option CreateComment
      → Exec CommentDb (Reply Comment)
  unfolding parsed
  post_nested_comments post_id user_id body = signed_in "Missing user ID" user_id λ author_id. do
    b ← parsed body
    comment ← create_comment uuid now (some post_id) author_id b.content b.parent_id
    return (sent 201 comment)

-- DELETE /comments/:id
unfoldable pub delete_comments :
    (id : String) (user_id user_role : Option String) → Exec CommentDb (Reply Comment)
delete_comments id user_id user_role =
    signed_in "Missing user ID" user_id
      λ author_id. do delete_comment id author_id user_role; return no_content

-- GET /posts/:postId/comments; PostgreSQL refuses to look for an identifier that is no UUID.
unfoldable pub get_nested_comments :
    (post_id : String) → Option Pagination → Exec CommentDb (Reply CommentPage)
unfolding parsed
get_nested_comments post_id query = do
  q ← parsed query
  ok ← gets (λ s. s.is_uuid post_id)
  require ok other_error
  result ← gets (get_comments_by_post post_id q.page q.limit)
  return (sent 200 result)

-- `split(',')`
pub push : Char → List String → List String
push c [] = (c ∷ₛ "") ∷ []
push c (s ∷ rest) = (c ∷ₛ s) ∷ rest

unfoldable pub split_commas : String → List String
unfolding push
split_commas Str.[] = "" ∷ []
split_commas (c ∷ₛ s) = let rest = split_commas s in if code c == 44 then "" ∷ rest else push c rest

-- `post_ids ? post_ids.split(',').filter(Boolean) : undefined`
abbrev pub post_id_array : Option String → Option (List String)
post_id_array post_ids =
    if truthy post_ids
    then some (filter (λ id. truthy (some id)) (split_commas (or_else post_ids "")))
    else none

-- GET /comments
unfoldable pub get_comments :
    Option Pagination → (post_ids : Option String) → Exec CommentDb (Reply CommentPage)
unfolding parsed split_commas
get_comments query post_ids = do
  q ← parsed query
  ok ← gets (λ s. all s.is_uuid (or_else (post_id_array post_ids) []))
  require ok other_error
  result ← gets (list_comments q.page q.limit (post_id_array post_ids))
  return (sent 200 result)
