-- ===== src/Post/Routes.antt =====
-- services/post/src/routes/posts.ts. A body arrives as the schema passes it on, and as `none` where the
-- schema refuses it.
use micro_blog.Base.{ℕ, String, Text, not, Option, if◌then◌else◌, Exec, return, gets, ◌>>=◌, ◌>>◌}
use micro_blog.Shared.Errors.{Reply, sent, refused, no_content}
use micro_blog.Shared.Requests.{parsed, signed_in}
use micro_blog.Post.Store.{PostDb}
use micro_blog.Post.Service.{
  CreatePost, UpdatePost, PostView, PostPage, may_write, create_post, get_post_by_id,
  get_post_by_slug, update_post, delete_post,
}
use micro_blog.Post.Listing.{get_posts}

-- The headers that the gateway sets after it has checked the token.
pub record Caller : Type 0 where
  pub user_id : Option String
  pub user_role : Option String

-- GET /posts, with the page and the limit that the schema passes on
unfoldable pub list_route :
    Caller → Option (ℕ × ℕ) → (status author_id : Option String) → Exec PostDb (Reply PostPage)
unfolding parsed
list_route caller query status author_id = do
  q ← parsed query
  result ← gets (get_posts q.0 q.1 status author_id caller.user_id caller.user_role)
  return (sent 200 result)

-- GET /posts/:id
unfoldable pub get_route : Caller → (id : String) → Exec PostDb (Reply PostView)
get_route caller id = do
  post ← get_post_by_id id caller.user_id caller.user_role
  return (sent 200 post)

-- GET /posts/by-slug/:slug
unfoldable pub slug_route : Caller → (slug : Text) → Exec PostDb (Reply PostView)
slug_route caller slug = do
  post ← get_post_by_slug slug caller.user_id caller.user_role
  return (sent 200 post)

module _ (uuid : ℕ → String) (unicode : ℕ → Text) (now : ℕ) where
  -- POST /posts
  unfoldable pub post_route : Caller → Option CreatePost → Exec PostDb (Reply PostView)
  unfolding parsed
  post_route caller body = signed_in "Missing user ID" caller.user_id λ author_id.
      if not (may_write caller.user_role)
      then return (refused 403 "Writer or admin role required to create posts")
      else do
        b ← parsed body
        post ← create_post uuid unicode now author_id b
        return (sent 201 post)

  -- PUT /posts/:id
  unfoldable pub put_route :
      Caller → (id : String) → Option UpdatePost → Exec PostDb (Reply PostView)
  unfolding parsed
  put_route caller id body = signed_in "Missing user ID" caller.user_id λ author_id. do
    b ← parsed body
    post ← update_post uuid unicode now id author_id b caller.user_role
    return (sent 200 post)

-- DELETE /posts/:id
unfoldable pub delete_route : Caller → (id : String) → Exec PostDb (Reply PostView)
delete_route caller id =
    signed_in "Missing user ID" caller.user_id
      λ author_id. do delete_post id author_id caller.user_role; return no_content
