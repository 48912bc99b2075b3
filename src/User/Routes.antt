-- ===== src/User/Routes.antt =====
-- services/user/src/routes/users.ts. A body or a query arrives as the schema passes it on, and as `none`
-- where the schema refuses it.
use micro_blog.Base.{
  ℕ, String, string_eq, Bool, not, ◌&&◌, Option, is_value, if◌then◌else◌, Exec, return, gets, ◌>>=◌,
  ◌>>◌,
}
use micro_blog.Shared.Errors.{Reply, sent, refused, no_content}
use micro_blog.Shared.Requests.{parsed, signed_in}
use micro_blog.User.Service.{
  User, UserDb, UserView, UserPage, UpdateUser, list_users, get_user_by_id, update_user,
  update_user_role, delete_user,
}

-- The headers that the gateway sets after it has checked the token.
pub record Caller : Type 0 where
  pub user_id : Option String
  pub user_role : Option String

abbrev pub is_admin : Caller → Bool
is_admin c = is_value c.user_role "admin"

-- `requesterId !== id && !isAdmin(request)`
abbrev pub is_outsider : Caller → String → Bool
is_outsider c id = not (is_value c.user_id id) && not (is_admin c)

-- GET /users
unfoldable pub get_users : Caller → Option (ℕ × ℕ) → Exec UserDb (Reply UserPage)
unfolding parsed
get_users caller query =
    if not (is_admin caller)
    then return (refused 403 "Admin access required")
    else do q ← parsed query; result ← gets (list_users q.0 q.1); return (sent 200 result)

-- GET /users/me
unfoldable pub get_me : Caller → Exec UserDb (Reply User)
get_me caller =
    signed_in "Not authenticated" caller.user_id
      λ user_id. do user ← get_user_by_id user_id; return (sent 200 user)

-- GET /users/:id
unfoldable pub get_user : String → Exec UserDb (Reply User)
get_user id = do user ← get_user_by_id id; return (sent 200 user)

module _ (now : ℕ) where
  -- PUT /users/:id/role; `role` is one of those that the schema lists.
  unfoldable pub put_role :
      Caller → (id : String) → (role : Option String) → Exec UserDb (Reply UserView)
  unfolding parsed
  put_role caller id role =
      if not (is_admin caller)
      then return (refused 403 "Admin access required")
      else do r ← parsed role; user ← update_user_role now id r; return (sent 200 user)

  -- PUT /users/:id
  unfoldable pub put_user :
      Caller → (id : String) → Option UpdateUser → Exec UserDb (Reply UserView)
  unfolding parsed
  put_user caller id body =
      if is_outsider caller id
      then return (refused 403 "Can only update your own profile")
      else do b ← parsed body; user ← update_user now id b; return (sent 200 user)

-- DELETE /users/:id
unfoldable pub delete_users : Caller → (id : String) → Exec UserDb (Reply UserView)
delete_users caller id =
    if is_outsider caller id
    then return (refused 403 "Can only delete your own account")
    else do delete_user id; return no_content
