-- ===== src/Post/Upkeep.antt =====
-- The constraints of the tables of the post service under the requests of services/post/src/routes/posts.ts.
use micro_blog.Base.{ℕ, String, Text, not, Option, List, [], ◌∷◌, truthy, or_else}
use micro_blog.Frames.{Keeps, Keeps-either, Keeps-bind, Keeps-return}
use micro_blog.Shared.Requests.{Keeps-parsed}
use micro_blog.Post.Store.{PostDb}
use micro_blog.Post.Service.{CreatePost, UpdatePost, may_write}
use micro_blog.Post.Invariant.{IsWellFormed, create_post-IsWellFormed}
use micro_blog.Post.Updates.{
  update_post-IsWellFormed, delete_post-IsWellFormed, archive_posts-IsWellFormed,
}
use micro_blog.Post.Service.{archive_posts}
use micro_blog.Post.Routes.{Caller, post_route, put_route, delete_route}
use micro_blog.Post.Ownership.{Change, create, edit, remove, change}

-- A request, or a message of the user service.
pub data Input : Type 0 where
  request : (caller : Caller) (c : Change) → Input
  user_deleted : (now : ℕ) (user_id : String) → Input

module _ (uuid : ℕ → String) (unicode : ℕ → Text) where
  unfoldable pub take_in : List Input → PostDb → PostDb
  unfolding change
  take_in [] s = s
  take_in (request caller c ∷ rest) s = take_in rest (change uuid unicode caller c s)
  take_in (user_deleted now user_id ∷ rest) s = take_in rest (archive_posts now user_id s)

  post_route-IsWellFormed :
      (now : ℕ) (caller : Caller) (body : Option CreatePost)
      → Keeps IsWellFormed (post_route uuid unicode now caller body)
  unfolding post_route
  post_route-IsWellFormed now caller body =
      Keeps-either (truthy caller.user_id) _ _
        (Keeps-either (not (may_write caller.user_role)) _ _ (Keeps-return _) (
          Keeps-bind _ _ (Keeps-parsed body) λ b.
            Keeps-bind _ _ (create_post-IsWellFormed uuid unicode now (or_else caller.user_id "") b)
              λ p. Keeps-return _))
        (Keeps-return _)

  put_route-IsWellFormed :
      (now : ℕ) (caller : Caller) (id : String) (body : Option UpdatePost)
      → Keeps IsWellFormed (put_route uuid unicode now caller id body)
  unfolding put_route
  put_route-IsWellFormed now caller id body =
      Keeps-either (truthy caller.user_id) _ _
        (Keeps-bind _ _ (Keeps-parsed body) λ b.
          Keeps-bind _ _
            (update_post-IsWellFormed uuid unicode now id (or_else caller.user_id "") b
              caller.user_role)
            λ p. Keeps-return _)
        (Keeps-return _)

  delete_route-IsWellFormed :
      (caller : Caller) (id : String) → Keeps IsWellFormed (delete_route caller id)
  unfolding delete_route
  delete_route-IsWellFormed caller id =
      Keeps-either (truthy caller.user_id) _ _
        (Keeps-bind _ _ (delete_post-IsWellFormed id (or_else caller.user_id "") caller.user_role)
          λ p. Keeps-return _)
        (Keeps-return _)

  change-IsWellFormed :
      (caller : Caller) (c : Change) (s : PostDb)
      → IsWellFormed s
      → IsWellFormed (change uuid unicode caller c s)
  unfolding change
  change-IsWellFormed caller (create now body) s h =
      (post_route-IsWellFormed now caller body).at s h
  change-IsWellFormed caller (edit now id body) s h =
      (put_route-IsWellFormed now caller id body).at s h
  change-IsWellFormed caller (remove id) s h = (delete_route-IsWellFormed caller id).at s h

  -- Whatever requests and messages come, identifiers, slugs and the names of tags stay unique, and no link
  -- between a post and a tag is there twice.
  pub take_in-IsWellFormed :
      (inputs : List Input) (s : PostDb) → IsWellFormed s → IsWellFormed (take_in inputs s)
  unfolding take_in
  take_in-IsWellFormed [] s h = h
  take_in-IsWellFormed (request caller c ∷ rest) s h =
      take_in-IsWellFormed rest _ (change-IsWellFormed caller c s h)
  take_in-IsWellFormed (user_deleted now user_id ∷ rest) s h =
      take_in-IsWellFormed rest _ (archive_posts-IsWellFormed now user_id s h)
