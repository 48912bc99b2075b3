-- ===== src/Frontend/Buttons.antt =====
-- services/frontend/src/pages/PostPage.tsx: the buttons that change and delete, and whom the services let do so.
use micro_blog.Base.{
  ℕ, ◌≡◌, ◌≢◌, ◌↔◌, refl, String, Text, codes, codes_injective, string_eq, text_eq, ◌==◌, ==_iff,
  Bool, true, false, ◌&&◌, ◌||◌, Option, none, some, arith, find, is_value, Run, done, thrown,
}
use micro_blog.Shared.Errors.{not_found}
use micro_blog.Post.Store.{Post, PostDb}
use micro_blog.Post.Service.{may_write, authorized_post}
use micro_blog.Post.Access.{authorized_post-eq-done, authorized_post_granted}
use micro_blog.Comment.Service as Rows
use micro_blog.Comment.Service.{CommentDb, delete_comment}
use micro_blog.Comment.Branches.{IsDeletion, delete_comment-IsDeletion}
use micro_blog.Frontend.Session.{User}
use micro_blog.Frontend.Threads.{can_delete}
use micro_blog.Frontend.Threads.Served.{received}

-- `isOwner`, where the post is there
unfoldable pub is_owner : Option User → (author_id : String) → Bool
is_owner none author_id = false
is_owner (some user) author_id =
    (user.role == codes "writer" && user.id == codes author_id) || user.role == codes "admin"

-- The user of the page is the one whom the headers of its requests name.
pub record IsSignedIn (user : User) (user_id user_role : String) : Type 0 where
  pub same_id : user.id ≡ codes user_id
  pub same_role : user.role ≡ codes user_role

codes-== : (t : Text) (a b : String) → t ≡ codes a → (t == codes b) ≡ (a == b)
codes-== t a b e = ground (arith, ==_iff a b, ==_iff t (codes b), codes_injective a b)

is_owner_lem :
    (user : User) (user_id user_role author_id : String)
    → IsSignedIn user user_id user_role
    → is_owner (some user) author_id
      ≡ (may_write (some user_role) && (author_id == user_id || is_value (some user_role) "admin"))
unfolding is_owner
is_owner_lem user user_id user_role author_id h =
    let writer = codes-== user.role user_role "writer" h.same_role in
    let admin = codes-== user.role user_role "admin" h.same_role in
    let own = codes-== user.id user_id author_id h.same_id in
    rw (writer, admin, own) (ground (arith, ==_iff user_id author_id, ==_iff author_id user_id))

can_delete_lem :
    (user : User) (user_id user_role : String) (iso : ℕ → Text) (c : Rows.Comment)
    → IsSignedIn user user_id user_role
    → can_delete (some user) (received iso c)
      ≡ (c.author_id == user_id || is_value (some user_role) "admin")
can_delete_lem user user_id user_role iso c h =
    let admin = codes-== user.role user_role "admin" h.same_role in
    let own = codes-== user.id user_id c.author_id h.same_id in
    rw (admin, own) (ground (arith, ==_iff user_id c.author_id, ==_iff c.author_id user_id))

-- Whose deletion does not end with the answer that there is no such comment.
IsDeletion-own :
    {id author_id : String} {user_role : Option String} {s : CommentDb}
    {o : Run CommentDb (Unit {0})} (c : Rows.Comment)
    → IsDeletion id author_id user_role s o
    → find (λ d. d.id == id) s.comments ≡ some c
    → ((c.author_id == author_id || is_value user_role "admin") ≡ true)
      ↔ (o ≢ thrown (not_found "Comment") s)
IsDeletion-own c (IsDeletion.malformed n bad) f = cc
IsDeletion-own c (IsDeletion.no_comment n ok) f = cc
IsDeletion-own c (IsDeletion.hidden d g h) f = (λ y. cc, λ no. absurd (no refl))
IsDeletion-own c (IsDeletion.unsent d g h down) f = (λ y. cc, λ no. cc)
IsDeletion-own c (IsDeletion.deleted d g h up) f = (λ y. cc, λ no. cc)

post_buttons_iff :
    (user : User) (user_id user_role : String) (s : PostDb) (p : Post)
    → IsSignedIn user user_id user_role
    → find (λ q. q.id == p.id) s.posts ≡ some p
    → (is_owner (some user) p.author_id ≡ true)
      ↔ (authorized_post p.id user_id (some user_role) s ≡ done p s)
post_buttons_iff user user_id user_role s p h f =
    rw (is_owner_lem user user_id user_role p.author_id h) (
      λ y.
          authorized_post_granted p.id user_id (some user_role) s p
            (record { in_table = f; writer = ground arith; own = ground arith }),
      λ e.
          let (same, a) = authorized_post-eq-done p.id user_id (some user_role) s s p e in
          ground (arith, a.writer, a.own),
    )

delete_button_iff :
    (user : User) (user_id user_role : String) (iso : ℕ → Text) (s : CommentDb) (c : Rows.Comment)
    → IsSignedIn user user_id user_role
    → find (λ d. d.id == c.id) s.comments ≡ some c
    → (can_delete (some user) (received iso c) ≡ true)
      ↔ (delete_comment c.id user_id (some user_role) s ≢ thrown (not_found "Comment") s)
delete_button_iff user user_id user_role iso s c h f =
    rw (can_delete_lem user user_id user_role iso c h)
      (IsDeletion-own c (delete_comment-IsDeletion c.id user_id (some user_role) s) f)

-- The page of a signed-in user offers to edit and to delete a post exactly where the post service lets that user
-- change it, and to delete a comment exactly where the comment service does not answer that there is no
-- such comment.
pub buttons_iff :
    (user : User) (user_id user_role : String) (iso : ℕ → Text) (s : PostDb) (p : Post)
    (t : CommentDb) (c : Rows.Comment)
    → IsSignedIn user user_id user_role
    → find (λ q. q.id == p.id) s.posts ≡ some p
    → find (λ d. d.id == c.id) t.comments ≡ some c
    → ((is_owner (some user) p.author_id ≡ true)
        ↔ (authorized_post p.id user_id (some user_role) s ≡ done p s))
      × ((can_delete (some user) (received iso c) ≡ true)
          ↔ (delete_comment c.id user_id (some user_role) t ≢ thrown (not_found "Comment") t))
buttons_iff user user_id user_role iso s p t c h f g = (
  post_buttons_iff user user_id user_role s p h f,
  delete_button_iff user user_id user_role iso t c h g,
)
