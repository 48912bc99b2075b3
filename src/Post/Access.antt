-- ===== src/Post/Access.antt =====
-- Who may read, change and delete a post.
use micro_blog.Base.{
  ℕ, ◌≡◌, ◌≢◌, ◌⊎◌, ◌↔◌, String, Text, string_eq, text_eq, ◌==◌, ==_iff, true, false, ◌||◌, Option,
  none, some, arith, find, is_value, is_value_iff, truthy_iff, Failure, done, thrown, ◌>>=◌,
}
use micro_blog.Frames.{bind-eq-thrown}
use micro_blog.Shared.Errors.{not_found, forbidden}
use micro_blog.Post.Store.{Post, PostDb, get_post_tags}
use micro_blog.Post.Service.{
  UpdatePost, PostView, visible, may_write, found, authorized_post, enforce_post_visibility,
  get_post_by_id, update_post, delete_post,
}

-- What `updatePost` and `deletePost` have established before they write.
pub record IsAuthorized (id author_id : String) (user_role : Option String) (s : PostDb) (p : Post)
    : Type 0 where
  pub in_table : find (λ q. q.id == id) s.posts ≡ some p
  pub writer : may_write user_role ≡ true
  pub own : (p.author_id == author_id || is_value user_role "admin") ≡ true

pub authorized_post-eq-done :
    (id author_id : String) (user_role : Option String) (s t : PostDb) (p : Post)
    → authorized_post id author_id user_role s ≡ done p t
    → (s ≡ t) × IsAuthorized id author_id user_role s p
unfolding authorized_post found ◌>>=◌
authorized_post-eq-done id author_id user_role s t p h =
    (ground arith, record { in_table = ground arith; writer = ground arith; own = ground arith })

pub authorized_post_granted :
    (id author_id : String) (user_role : Option String) (s : PostDb) (p : Post)
    → IsAuthorized id author_id user_role s p
    → authorized_post id author_id user_role s ≡ done p s
unfolding authorized_post found ◌>>=◌
authorized_post_granted id author_id user_role s p h = ground arith

-- Who is refused, and with what: a caller without the role, a missing post, another's post.
pub data IsRefused (id author_id : String) (user_role : Option String) (s : PostDb)
    : Failure → Type 0 where
  no_role :
      may_write user_role ≡ false
      → IsRefused id author_id user_role s (forbidden "Writer or admin role required")
  no_post :
      may_write user_role ≡ true
      → find (λ q. q.id == id) s.posts ≡ none
      → IsRefused id author_id user_role s (not_found "Post")
  not_author :
      (p : Post)
      → may_write user_role ≡ true
      → find (λ q. q.id == id) s.posts ≡ some p
      → p.author_id ≢ author_id
      → is_value user_role "admin" ≡ false
      → IsRefused id author_id user_role s (forbidden "Not the author of this post")

authorized_post_refused :
    {id author_id : String} {user_role : Option String} {s : PostDb} {e : Failure}
    → IsRefused id author_id user_role s e
    → authorized_post id author_id user_role s ≡ thrown e s
unfolding authorized_post found ◌>>=◌
authorized_post_refused (no_role h) = ground arith
authorized_post_refused (no_post h n) = ground arith
authorized_post_refused {author_id} (not_author p h f a r) =
    ground (arith, ==_iff p.author_id author_id)

-- PUT /posts/:id by a caller who is no writer or admin, of a missing post, or of another's post by
-- one who is no admin, throws the error of that case and changes nothing.
pub update_post_refused :
    (uuid : ℕ → String) (unicode : ℕ → Text) (now : ℕ) (id author_id : String) (body : UpdatePost)
    (user_role : Option String) (s : PostDb) (e : Failure)
    → IsRefused id author_id user_role s e
    → update_post uuid unicode now id author_id body user_role s ≡ thrown e s
unfolding update_post
update_post_refused uuid unicode now id author_id body user_role s e h =
    bind-eq-thrown (authorized_post id author_id user_role) _ s (authorized_post_refused h)

-- DELETE /posts/:id by a caller who is no writer or admin, of a missing post, or of another's post by
-- one who is no admin, throws the error of that case and changes nothing.
pub delete_post_refused :
    (id author_id : String) (user_role : Option String) (s : PostDb) (e : Failure)
    → IsRefused id author_id user_role s e
    → delete_post id author_id user_role s ≡ thrown e s
unfolding delete_post
delete_post_refused id author_id user_role s e h =
    bind-eq-thrown (authorized_post id author_id user_role) _ s (authorized_post_refused h)

-- GET /posts/:id returns a post exactly where one has that identifier and the caller may see it: it is
-- published, or the caller is an admin, or a writer and its author. Nothing changes.
pub get_post_by_id_iff :
    (id : String) (user_id user_role : Option String) (s t : PostDb) (v : PostView)
    → (get_post_by_id id user_id user_role s ≡ done v t) ↔ (
        (find (λ p. p.id == id) s.posts ≡ some v.post)
        × (visible v.post user_id user_role ≡ true)
        × (v.tags ≡ get_post_tags v.post.id s)
        × (s ≡ t))
unfolding get_post_by_id found enforce_post_visibility ◌>>=◌
get_post_by_id_iff id user_id user_role s t v =
    (λ h. (ground arith, ground arith, ground arith, ground arith), λ h. ground arith)

-- The caller may see a post exactly if it is published, or the caller is an admin, or the caller is a
-- writer, is named, and is its author.
pub visible_iff :
    (p : Post) (user_id user_role : Option String)
    → (visible p user_id user_role ≡ true) ↔ (
        (p.status ≡ "published")
        ⊎ (user_role ≡ some "admin")
        ⊎ ((user_role ≡ some "writer") × (user_id ≡ some p.author_id) × (p.author_id ≢ "")))
visible_iff p user_id user_role = ground (
  arith,
  ==_iff p.status "published",
  is_value_iff user_role "admin",
  is_value_iff user_role "writer",
  is_value_iff user_id p.author_id,
  truthy_iff p.author_id,
)
